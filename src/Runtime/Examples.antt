-- ===== src/Runtime/Examples.antt =====
-- A run of the translator and of oryxrun.c on a block that moves a constant and jumps.
use oryx.Prelude.{if◌then◌else◌, ◌==◌, ℕ, ◌≡◌, refl, Bool, true, some, List, [], ◌∷◌, ◌++◌, arith}
use oryx.Errors.{err, format, Result, ok, returns}
use oryx.Guest.{Op, Insn, mov_ri, jmp, x86ret, drf, sc}
use oryx.TransUnit.{reloc_branch_guest_pc, Tu}
use oryx.Wire.{put_u32, get_byte}
use oryx.Translator.Encoders.{enc_movz, enc_b}
use oryx.Translator.Lowering.{lower}
use oryx.Translator.Emitter.{
  Stats, is_full, appended, buf_emit32, emit, emit_lane, emit_movimm, add_reloc, add_exit,
}
use oryx.Translator.Block.{hash_block, finish, translate_ops, translate_ex}
use oryx.Runtime.Regions.{Space}
use oryx.Runtime.Mappings.{run_at, run_program_at}
use oryx.Runtime.Unmapped.{run_at-run_block}
use oryx.Runtime.Released.{Releases, run_program_at-run_program}
use oryx.Runtime.Linker.{Host, Exec, aarch64_ret, emit_setpc_ret, exec_map_linked, granted, denied}
use oryx.MoveWide.{run_moves}
use oryx.Runtime.Stubs.{emit_setpc_ret-run_moves}
use oryx.Decoder.Reader.{Image, advance, span, is_endbr64}
use oryx.Decoder.Instructions.{
  branch_of, form_single, alu_op, form, decode_form, opcode, decode_insn,
}
use oryx.Decoder.Block.{emit_insn, round, decode_loop, decode_block}
use oryx.Runtime.Refinement.{run_direct, IsSteady, Agrees, run_program-run_direct}
use oryx.Runtime.Decoded.{Serves, load_block-decode_block}
use oryx.Runtime.Dispatcher.{
  halt_pc, max_block_ops, GuestState, session, load_block, run_program, run_block,
}
use oryx.Runtime.Stepping.{Ends, run_program-Ends}
use oryx.Runtime.Units.{RegionOf, exec_map_linked-translate_ex}

abbrev always : ℕ → Bool
always n = true

abbrev insn : Op → Insn
insn op = record { op = op; rd = 1; rn = 2; imm = 5; target = 0x2000; cc = 0; mclass = 0 }

abbrev jump_block : List Insn
jump_block = insn mov_ri ∷ insn jmp ∷ []

abbrev unit : Tu
unit = record {
  isa_id = 0x53384850;
  translator_id = 0x4f525958;
  translator_version = 1;
  profile_id = 0;
  flags = 0;
  guest_entry_pc = 0x1000;
  guest_len = 8;
  guest_hash = hash_block jump_block 0x1000 drf sc;
  code = 0xa1 ∷ 0x00 ∷ 0x80 ∷ 0xd2 ∷ 0x00 ∷ 0x00 ∷ 0x00 ∷ 0x14 ∷ [];
  relocs = record { offset = 4; kind = reloc_branch_guest_pc; guest_target = 0x2000 } ∷ [];
  exits = 0x2000 ∷ [];
}

abbrev stats : Stats
stats = record {
  plain_loads = 0;
  plain_stores = 0;
  ordered_loads = 0;
  ordered_stores = 0;
  atomics = 0;
  fences = 0;
}

translate_ex-jump_block : translate_ex always jump_block 0x1000 8 0 drf sc ≡ ok (unit, stats)
unfolding translate_ex finish translate_ops lower emit_movimm emit buf_emit32 is_full emit_lane
    add_reloc appended put_u32 add_exit enc_movz enc_b
translate_ex-jump_block = refl

abbrev host : Host
host = record { page = 4096; can_map = always; protect = λ n. granted }

exec_map_linked-translate_ex_example :
    (e : Exec) × (exec_map_linked host unit ≡ ok e) × RegionOf unit e.code
exec_map_linked-translate_ex_example =
    exec_map_linked-translate_ex unit host (λ n. refl) (λ n. refl) always jump_block 0x1000 8 0 drf
      sc stats translate_ex-jump_block

-- The code is in the guest's memory, where a 0 stands for the block.
abbrev fetch : GuestState → ℕ → Result (List Insn × ℕ)
fetch guest pc = if guest.memory pc == 0 then ok (jump_block, 8) else err format

abbrev start_guest : GuestState
start_guest = record { regs = []; memory = λ a. 0 }

-- Memory and mappings can be had at any time.
abbrev at_all_times : ℕ → ℕ → Bool
at_all_times t = always

abbrev host_at : ℕ → Host
host_at t = host

-- A trampoline that ends the program after one block.
abbrev stop : Exec → GuestState → GuestState × ℕ
stop e guest = (guest, halt_pc)

run_program-Ends_example :
    Ends 5 (run_program fetch at_all_times host_at drf sc stop true 0x1000 start_guest 5)
run_program-Ends_example =
    run_program-Ends fetch at_all_times host_at drf sc stop true 0x1000 start_guest 5

fetch-IsSteady : IsSteady fetch at_all_times host_at drf sc stop
fetch-IsSteady = record {
  code_kept = λ e guest pc. refl;
  allocations_kept = λ n. refl;
  mappings_kept = λ n. refl;
}

run_program-run_direct_example :
    Agrees fetch at_all_times host_at drf sc stop
      (run_program fetch at_all_times host_at drf sc stop true 0x1000 start_guest 5)
      (run_direct fetch at_all_times host_at drf sc stop 5 6
        (record { pc = 0x1000; guest = start_guest; taken_steps = 0 }))
run_program-run_direct_example =
    run_program-run_direct fetch at_all_times host_at drf sc stop fetch-IsSteady 0x1000 start_guest
      5

-- The image `0xC3`, a RET, and a fetch that goes through the decoder there.
abbrev image : Image
image = record { bytes = 0xC3 ∷ []; base = 0x1000 }

abbrev decoded : GuestState → ℕ → Result (List Insn × ℕ)
decoded guest pc = ok (branch_of x86ret 0 0 0 ∷ [], 1)

decode_block-image : decode_block image max_block_ops 0x1000 ≡ returns (decoded start_guest 0x1000)
unfolding decode_block decode_loop round emit_insn is_endbr64 span advance decode_insn opcode
    decode_form form form_single alu_op get_byte
decode_block-image = refl

load_block-decode_block_example :
    Serves host always drf sc
      (session 0x1000 start_guest)
      (decoded start_guest 0x1000)
      (load_block decoded at_all_times host_at drf sc stop (session 0x1000 start_guest))
load_block-decode_block_example =
    load_block-decode_block decoded at_all_times host_at drf sc stop (λ t n. refl) (λ t n. refl)
      (λ t n. refl) (session 0x1000 start_guest) image (omega arith) (omega arith) (omega arith)
      (omega arith) decode_block-image

emit_setpc_ret-run_moves_example :
    (bs : List ℕ) × (emit_setpc_ret 0x7FFF00002000 ≡ bs ++ put_u32 aarch64_ret)
    × (run_moves 17 bs 5 ≡ some 0x7FFF00002000)
emit_setpc_ret-run_moves_example = emit_setpc_ret-run_moves 0x7FFF00002000 5 (omega arith)

abbrev empty_space : Space
empty_space = record { made = 0; open_regions = []; peak = 0 }

run_program_at-run_program_example :
    Releases
      (run_program fetch at_all_times host_at drf sc stop true 0x1000 start_guest 5)
      (run_program_at fetch at_all_times host_at drf sc stop true 0x1000 start_guest 5 empty_space)
run_program_at-run_program_example =
    run_program_at-run_program fetch at_all_times host_at drf sc stop true 0x1000 start_guest 5 0

-- A host that refuses executable mappings.
abbrev hardened : Host
hardened = record { page = 4096; can_map = λ n. true; protect = λ n. denied }

run_at-run_block_example :
    (sp : Space) × (run_at hardened stop unit start_guest empty_space
      ≡ returns (run_block hardened stop unit start_guest, sp))
    × (sp.open_regions ≡ [])
run_at-run_block_example = run_at-run_block hardened stop unit start_guest empty_space
