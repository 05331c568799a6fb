-- ===== src/Decoder/Encoding.antt =====
-- The x86-64 instructions that src/liboryxdec decodes, as the architecture's manual encodes them: REX, opcode, ModRM and
-- immediates. Where an instruction has several encodings, this is one of them.
use oryx.Prelude.{ℕ, ◌+◌, ◌*◌, ◌/◌, ◌%◌, ◌^◌, ◌<◌, ◌≢◌, Bool, true, false, List, [], ◌∷◌}
use oryx.Guest.{
  Op, gcc_eq, gcc_ne, gcc_lt, gcc_ge, gcc_le, gcc_gt, Insn, mov_rr, mov_ri, add_rr, sub_rr, cmp_rr,
  br, jmp, add_ri, sub_ri, cmp_ri, test_rr, xor_rr, and_rr, or_rr, lea, push, pop, call, x86ret,
}
use oryx.Wire.{put_u32, put_u64, IsU32, IsU64}
use oryx.Decoder.Reader.{sext32}
use oryx.Decoder.Instructions.{insn_of, branch_of}

pub data Alu : Type 0 where
  mov add sub cmp xor and or test : Alu

pub data Immediate : Type 0 where
  add_imm sub_imm cmp_imm : Immediate

pub data Condition : Type 0 where
  equal not_equal less greater_equal less_equal greater : Condition

-- Operands are register numbers; an immediate, a displacement or a relative target is 32 bits wide, and
-- the immediate of `movabs` 64.
pub data X86 : Type 0 where
  reg_reg : Alu → ℕ → ℕ → X86
  reg_imm : Immediate → ℕ → ℕ → X86
  movabs : ℕ → ℕ → X86
  lea_disp : ℕ → ℕ → ℕ → X86
  push_r pop_r : ℕ → X86
  call_rel : ℕ → X86
  jcc_rel : Condition → ℕ → X86
  jmp_rel : ℕ → X86
  return : X86

abbrev pub alu_opcode : Alu → ℕ
alu_opcode mov = 0x89
alu_opcode add = 0x01
alu_opcode sub = 0x29
alu_opcode cmp = 0x39
alu_opcode xor = 0x31
alu_opcode and = 0x21
alu_opcode or = 0x09
alu_opcode test = 0x85

abbrev pub digit : Immediate → ℕ
digit add_imm = 0
digit sub_imm = 5
digit cmp_imm = 7

abbrev pub condition_code : Condition → ℕ
condition_code equal = 0x4
condition_code not_equal = 0x5
condition_code less = 0xC
condition_code greater_equal = 0xD
condition_code less_equal = 0xE
condition_code greater = 0xF

-- REX.W with the high bits of the two registers, and ModRM with their low bits.
abbrev pub rex_byte : ℕ → ℕ → ℕ
rex_byte reg rm = 0x48 + reg / 8 * 4 + rm / 8

abbrev pub modrm_byte : ℕ → ℕ → ℕ → ℕ
modrm_byte mode reg rm = mode * 64 + reg % 8 * 8 + rm % 8

abbrev pub encode : X86 → List ℕ
encode (reg_reg a rm reg) = rex_byte reg rm ∷ alu_opcode a ∷ modrm_byte 3 reg rm ∷ []
encode (reg_imm i rm v) = rex_byte 0 rm ∷ 0x81 ∷ modrm_byte 3 (digit i) rm ∷ put_u32 v
encode (movabs r v) = rex_byte 0 r ∷ (0xB8 + r % 8) ∷ put_u64 v
encode (lea_disp r base v) = rex_byte r base ∷ 0x8D ∷ modrm_byte 2 r base ∷ put_u32 v
encode (push_r r) = (0x40 + r / 8) ∷ (0x50 + r % 8) ∷ []
encode (pop_r r) = (0x40 + r / 8) ∷ (0x58 + r % 8) ∷ []
encode (call_rel v) = 0xE8 ∷ put_u32 v
encode (jcc_rel c v) = 0x0F ∷ (0x80 + condition_code c) ∷ put_u32 v
encode (jmp_rel v) = 0xE9 ∷ put_u32 v
encode return = 0xC3 ∷ []

-- Registers exist, numbers fit, and a base register is none that needs a SIB byte.
abbrev pub IsX86 : X86 → Type 0
IsX86 (reg_reg a rm reg) = (rm < 16) × (reg < 16)
IsX86 (reg_imm i rm v) = (rm < 16) × IsU32 v
IsX86 (movabs r v) = (r < 16) × IsU64 v
IsX86 (lea_disp r base v) = (r < 16) × (base < 16) × (base % 8 ≢ 4) × IsU32 v
IsX86 (push_r r) = r < 16
IsX86 (pop_r r) = r < 16
IsX86 (call_rel v) = IsU32 v
IsX86 (jcc_rel c v) = IsU32 v
IsX86 (jmp_rel v) = IsU32 v
IsX86 return = Unit

abbrev pub alu_ir : Alu → Op
alu_ir mov = mov_rr
alu_ir add = add_rr
alu_ir sub = sub_rr
alu_ir cmp = cmp_rr
alu_ir xor = xor_rr
alu_ir and = and_rr
alu_ir or = or_rr
alu_ir test = test_rr

abbrev pub imm_ir : Immediate → Op
imm_ir add_imm = add_ri
imm_ir sub_imm = sub_ri
imm_ir cmp_imm = cmp_ri

abbrev pub condition_ir : Condition → ℕ
condition_ir equal = gcc_eq
condition_ir not_equal = gcc_ne
condition_ir less = gcc_lt
condition_ir greater_equal = gcc_ge
condition_ir less_equal = gcc_le
condition_ir greater = gcc_gt

abbrev pub far : ℕ → ℕ → ℕ
far next_pc v = (next_pc + sext32 v) % 2 ^ 64

-- The IR of an instruction behind which `next_pc` is the address.
abbrev pub ir_of : ℕ → X86 → Insn
ir_of next_pc (reg_reg a rm reg) = insn_of (alu_ir a) rm reg 0
ir_of next_pc (reg_imm i rm v) = insn_of (imm_ir i) rm 0 (sext32 v)
ir_of next_pc (movabs r v) = insn_of mov_ri r 0 v
ir_of next_pc (lea_disp r base v) = insn_of lea r base (sext32 v)
ir_of next_pc (push_r r) = insn_of push r 0 0
ir_of next_pc (pop_r r) = insn_of pop r 0 0
ir_of next_pc (call_rel v) = branch_of call (far next_pc v) 0 next_pc
ir_of next_pc (jcc_rel c v) = branch_of br (far next_pc v) (condition_ir c) 0
ir_of next_pc (jmp_rel v) = branch_of jmp (far next_pc v) 0 0
ir_of next_pc return = branch_of x86ret 0 0 0

abbrev pub is_terminator : X86 → Bool
is_terminator (call_rel v) = true
is_terminator (jcc_rel c v) = true
is_terminator (jmp_rel v) = true
is_terminator return = true
is_terminator _ = false
