-- ===== src/Decoder/Examples.antt =====
-- Runs of src/liboryxdec/oryxdec.c on the bytes `endbr64; mov rax, 5; lea rcx, [rax+8]; cmp rcx, 7; jl -19`.
use oryx.Prelude.{
  length, drop, ℕ, ◌-◌, ◌%◌, ◌^◌, ◌≡◌, refl, ◌⊎◌, true, false, some, List, [], ◌∷◌, ◌++◌, arith,
}
use oryx.Errors.{Error, unsupported}
use oryx.Guest.{gcc_lt, gcc_le, Insn, mov_ri, br, cmp_ri, lea}
use oryx.Wire.{put_u32, get_u32, get_byte, same_bytes}
use oryx.Decoder.Reader.{
  Image, advance, gives, refuses, span, next, next_u8, next_i8, next_i32, rex_of, displacement,
  modrm_operand, decode_modrm, is_endbr64,
}
use oryx.Decoder.Instructions.{
  insn_of, branch_of, x86cc_to_gcc, form_single, alu_op, form, jcc, group1_op, group1, with_direct,
  lea_of, two_byte_of, decode_form, opcode, decode_insn,
}
use oryx.Decoder.Block.{emit_insn, round, decode_loop, decode_block}
use oryx.Decoder.Total.{IsBlock, decode_block-IsBlock}
use oryx.Decoder.Encoding.{X86, sub, greater_equal, reg_reg, push_r, jcc_rel}
use oryx.Decoder.Assembled.{assemble, ir_from, decode_block-assemble}
use oryx.Decoder.Conditions.{arm_holds, x86_holds, cond_field, arm_cond-x86cc_to_gcc}
use oryx.Translator.Encoders.{enc_bcond, arm_cond}

abbrev loop_bytes : List ℕ
loop_bytes =
    0xF3 ∷ 0x0F ∷ 0x1E ∷ 0xFA ∷ 0x48 ∷ 0xC7 ∷ 0xC0 ∷ 5 ∷ 0 ∷ 0 ∷ 0 ∷ 0x48 ∷ 0x8D ∷ 0x48 ∷ 8 ∷ 0x48
    ∷ 0x83 ∷ 0xF9 ∷ 7 ∷ 0x7C ∷ 0xED ∷ []

abbrev image : Image
image = record { bytes = loop_bytes; base = 0x1000 }

abbrev loop_block : List Insn
loop_block =
    insn_of mov_ri 0 0 5
    ∷ insn_of lea 1 0 8
    ∷ insn_of cmp_ri 1 0 7
    ∷ branch_of br 0x1002 gcc_lt 0
    ∷ []

decode_block-loop_block : decode_block image 64 0x1000 ≡ gives (loop_block, 21)
unfolding decode_block decode_loop round emit_insn is_endbr64 span advance decode_insn opcode
    next_u8 next next_i8 next_i32 rex_of decode_form form form_single alu_op decode_modrm
    modrm_operand displacement with_direct lea_of group1 group1_op jcc x86cc_to_gcc get_byte get_u32
    same_bytes
decode_block-loop_block = refl

decode_block-truncated : decode_block image 64 0x1001 ≡ refuses unsupported
unfolding decode_block decode_loop round emit_insn is_endbr64 span advance decode_insn opcode
    next_u8 next next_i8 next_i32 rex_of decode_form form form_single alu_op decode_modrm
    modrm_operand displacement with_direct lea_of group1 group1_op jcc x86cc_to_gcc get_byte get_u32
    same_bytes two_byte_of
decode_block-truncated = refl

decode_block-IsBlock_example :
    ((e : Error) × (decode_block image 64 0x1000 ≡ refuses e))
    ⊎ ((r : List Insn × ℕ) × (decode_block image 64 0x1000 ≡ gives r) × IsBlock image 64 0 r)
decode_block-IsBlock_example =
    decode_block-IsBlock image 64 0x1000 (omega arith) (omega arith) (omega arith) (omega arith)

-- The bytes `push rbp; sub rbx, r9; jge -16` and two that are none of the block.
abbrev assembled : Image
assembled = record {
  bytes =
      0x40 ∷ 0x55 ∷ 0x4C ∷ 0x29 ∷ 0xCB ∷ 0x0F ∷ 0x8D ∷ 0xF0 ∷ 0xFF ∷ 0xFF ∷ 0xFF ∷ 0x90 ∷ 0x90 ∷ [];
  base = 0x1000;
}

abbrev assembled_body : List X86
assembled_body = push_r 5 ∷ reg_reg sub 3 9 ∷ []

abbrev assembled_last : X86
assembled_last = jcc_rel greater_equal 0xFFFFFFF0

assembled_bytes :
    drop (0x1000 - 0x1000) assembled.bytes
    ≡ assemble (assembled_body ++ assembled_last ∷ []) ++ 0x90 ∷ 0x90 ∷ []
unfolding assemble put_u32
assembled_bytes = refl

decode_block-assemble_example :
    decode_block assembled 64 0x1000
    ≡ gives (
      ir_from 0x1000 (assembled_body ++ assembled_last ∷ []),
      length (assemble (assembled_body ++ assembled_last ∷ [])) % 2 ^ 32,
    )
decode_block-assemble_example =
    decode_block-assemble assembled 64 0x1000 assembled_body assembled_last (0x90 ∷ 0x90 ∷ [])
      ((omega arith, refl), (((omega arith, omega arith), refl), tt)) (omega arith) refl
      (omega arith) (omega arith) (omega arith) (omega arith) assembled_bytes

less_equal_known : x86cc_to_gcc 0xE ≡ some gcc_le
unfolding x86cc_to_gcc
less_equal_known = refl

-- JLE on a negative difference.
arm_cond-x86cc_to_gcc_example :
    arm_holds true false true false (cond_field (enc_bcond (arm_cond gcc_le)))
    ≡ x86_holds true false false false true 0xE
arm_cond-x86cc_to_gcc_example =
    arm_cond-x86cc_to_gcc 0xE gcc_le true false false true false true less_equal_known
