-- ===== src/Translator/Examples.antt =====
-- Runs of oryxtu.c on small blocks.
use oryx.Wire.{IsU32, put_u32}
use oryx.Prelude.{
  leb, length, All, ℕ, ◌^◌, ◌≡◌, refl, inl, Bool, true, false, ◌&&◌, some, List, [], ◌∷◌, ◌++◌,
  arith,
}
use oryx.Errors.{Ensures, ok}
use oryx.Guest.{Op, Insn, mov_ri, jmp, drf, sc}
use oryx.Sha256.{sha256}
use oryx.Translator.Emitter.{Buf, Emitter, start, buf_emit32, emit_movimm}
use oryx.MoveWide.{run_moves}
use oryx.Translator.Constants.{emit_movimm-run_moves}
use oryx.Translator.Bounds.{IsBuf, buf_emit32-IsBuf}
use oryx.Translator.Accepts.{is_basic_block}
use oryx.Translator.Verdict.{Verdict, translate_ex-Verdict}
use oryx.Translator.Block.{op_code, hash_record, hash_block, config, translate_ex}
use oryx.Translator.Identity.{
  block_bytes, IsInsn, SameBlock, hash_block-SameBlock, retarget, hash_block-retarget,
}
use oryx.Translator.Linkable.{IsLinkable, translate_ex-IsLinkable}

abbrev always : ℕ → Bool
always n = true

abbrev insn : Op → Insn
insn op = record { op = op; rd = 1; rn = 2; imm = 5; target = 0x2000; cc = 0; mclass = 0 }

abbrev jump_block : List Insn
jump_block = insn mov_ri ∷ insn jmp ∷ []

translate_ex-IsLinkable_example :
    Ensures (translate_ex always jump_block 0x1000 8 0 drf sc) (λ r. IsLinkable r.0)
translate_ex-IsLinkable_example = translate_ex-IsLinkable always jump_block 0x1000 8 0 drf sc

abbrev far_block : List Insn
far_block = insn mov_ri ∷ record (insn jmp) { target = 0x100002000 } ∷ []

insn-IsInsn : (op : Op) → IsU32 (op_code op) → IsInsn (insn op)
insn-IsInsn op small = record {
  op_fits = small;
  rd_fits = omega arith;
  rn_fits = omega arith;
  imm_fits = omega arith;
  cc_fits = omega arith;
  mclass_fits = omega arith;
}

jump_block-IsInsn : All IsInsn jump_block
jump_block-IsInsn = (
  insn-IsInsn mov_ri (unfold op_code in omega arith),
  (insn-IsInsn jmp (unfold op_code in omega arith), tt),
)

far_jump-IsInsn : IsInsn (record (insn jmp) { target = 0x100002000 })
far_jump-IsInsn = record {
  op_fits = unfold op_code in omega arith;
  rd_fits = omega arith;
  rn_fits = omega arith;
  imm_fits = omega arith;
  cc_fits = omega arith;
  mclass_fits = omega arith;
}

far_block-IsInsn : All IsInsn far_block
far_block-IsInsn = (insn-IsInsn mov_ri (unfold op_code in omega arith), (far_jump-IsInsn, tt))

same_bytes_far : block_bytes jump_block 0x1000 drf sc ≡ block_bytes far_block 0x1000 drf sc
unfolding hash_record put_u32
same_bytes_far = refl

abbrev start_pc : ℕ
start_pc = 0x1000

-- The jump to 0x2000 and the jump to 0x100002000.
hash_block-SameBlock_example :
    (hash_block jump_block start_pc drf sc ≡ sha256 (block_bytes jump_block start_pc drf sc))
    × (start_pc ≡ start_pc)
    × (drf ≡ drf)
    × (sc ≡ sc)
    × SameBlock jump_block far_block
hash_block-SameBlock_example =
    hash_block-SameBlock jump_block far_block start_pc start_pc drf drf sc sc jump_block-IsInsn
      far_block-IsInsn (omega arith) (omega arith) same_bytes_far

-- A jump to 0x100002000 and one to 0x2000.
hash_block-retarget_example :
    hash_block (insn mov_ri ∷ retarget 0x2000 (insn jmp) ∷ []) 0x1000 drf sc
    ≡ hash_block (insn mov_ri ∷ retarget 0x100002000 (insn jmp) ∷ []) 0x1000 drf sc
hash_block-retarget_example =
    hash_block-retarget (insn mov_ri ∷ []) [] (insn jmp) 0x100002000 0x1000 drf sc

abbrev no_bytes : Buf
no_bytes = record { bytes = []; cap = 0 }

buf_emit32-IsBuf_example : Ensures (buf_emit32 always 0xD65F03C0 no_bytes) IsBuf
buf_emit32-IsBuf_example =
    buf_emit32-IsBuf always 0xD65F03C0 no_bytes (record { inside = omega arith; sized = inl refl })

-- A block that is complete, and one that goes on behind its end.
translate_ex-Verdict_example :
    Verdict
      (leb (length jump_block) (2 ^ 20) && is_basic_block (config 0x1000 8 drf sc) jump_block)
      (translate_ex always jump_block 0x1000 8 0 drf sc)
translate_ex-Verdict_example = translate_ex-Verdict always jump_block 0x1000 8 0 drf sc (λ n. refl)

is_basic_block-jump_block : is_basic_block (config 0x1000 8 drf sc) jump_block ≡ true
unfolding is_basic_block
is_basic_block-jump_block = refl

is_basic_block-past_end : is_basic_block (config 0x1000 8 drf sc) (jump_block ++ jump_block) ≡ false
unfolding is_basic_block
is_basic_block-past_end = refl

-- A constant with a lane that is 0.
emit_movimm-run_moves_example :
    (st' : Emitter) × (bs : List ℕ) × (emit_movimm always 3 0x1234000056780009 start ≡ ok st')
    × (st'.code.bytes ≡ start.code.bytes ++ bs)
    × (run_moves 3 bs 7 ≡ some 0x1234000056780009)
emit_movimm-run_moves_example =
    emit_movimm-run_moves always (λ n. refl) 3 0x1234000056780009 7 start (omega arith)
      (omega arith)
