-- ===== src/Decoder/Instructions.antt =====
-- The `switch` of `oryx_x86_decode_block` in src/liboryxdec/oryxdec.c: `form` is its case labels, `decode_form`
-- what stands under them up to EMIT.
use oryx.Prelude.{
  ℕ, ◌+◌, ◌-◌, ◌*◌, ◌%◌, ◌^◌, bit_or, Bool, true, false, ◌&&◌, Option, none, some, leb, ◌==◌,
  if◌then◌else◌,
}
use oryx.Errors.{unsupported}
use oryx.Guest.{
  Op, Insn, gcc_eq, gcc_ne, gcc_lt, gcc_ge, gcc_le, gcc_gt, mov_rr, mov_ri, add_rr, sub_rr, cmp_rr,
  br, jmp, add_ri, sub_ri, cmp_ri, test_rr, xor_rr, and_rr, or_rr, lea, push, pop, call, x86ret,
}
use oryx.Decoder.Reader.{
  Image, Cursor, advance, Read, ◌>>-◌, gives, refuses, span, next_u8, next_i8, next_u32, next_i32,
  next_u64, Rex, no_rex, rex_of, Operand, direct, memory, Modrm, decode_modrm,
}
use oryx.Wire.{get_byte}

-- A designated initializer leaves the fields that it does not name 0.
abbrev pub insn_of : Op → ℕ → ℕ → ℕ → Insn
insn_of op rd rn imm = record {
  op = op;
  rd = rd;
  rn = rn;
  imm = imm;
  target = 0;
  cc = 0;
  mclass = 0;
}

abbrev pub branch_of : Op → ℕ → ℕ → ℕ → Insn
branch_of op target cc imm = record {
  op = op;
  rd = 0;
  rn = 0;
  imm = imm;
  target = target;
  cc = cc;
  mclass = 0;
}

-- What a case sets up: the argument of its EMIT, `done`, and the cursor behind it.
pub record Decoded : Type 0 where
  pub insn : Insn
  pub done : Bool
  pub rest : Cursor

abbrev pub straight_insn : Insn → Cursor → Read Decoded
straight_insn i c = gives (record { insn = i; done = false; rest = c })

abbrev pub last_insn : Insn → Cursor → Read Decoded
last_insn i c = gives (record { insn = i; done = true; rest = c })

unfoldable pub x86cc_to_gcc : ℕ → Option ℕ
x86cc_to_gcc cc =
    if cc == 0x4
    then some gcc_eq
    else (if cc == 0x5
        then some gcc_ne
        else (if cc == 0xC
            then some gcc_lt
            else (if cc == 0xD
                then some gcc_ge
                else (if cc == 0xE
                    then some gcc_le
                    else (if cc == 0xF then some gcc_gt else none)))))

-- The groups of case labels, with what the group reads off the opcode.
pub data Form : Type 0 where
  rm_from_reg : Op → Form
  reg_from_rm : Op → Form
  lea_form mov_imm32 group1_imm8 group1_imm32 : Form
  mov_reg_imm push_reg pop_reg : ℕ → Form
  call_rel32 : Form
  jcc_rel8 : ℕ → Form
  two_byte jmp_rel8 jmp_rel32 ret_form unknown : Form

-- Cases of a single opcode.
unfoldable pub form_single : ℕ → Form
form_single op =
    if op == 0x89
    then rm_from_reg mov_rr
    else (if op == 0x8B
        then reg_from_rm mov_rr
        else (if op == 0x8D
            then lea_form
            else (if op == 0xC7
                then mov_imm32
                else (if op == 0x3B
                    then reg_from_rm cmp_rr
                    else (if op == 0x83
                        then group1_imm8
                        else (if op == 0x81
                            then group1_imm32
                            else (if op == 0xE8
                                then call_rel32
                                else (if op == 0x0F
                                    then two_byte
                                    else (if op == 0xEB
                                        then jmp_rel8
                                        else (if op == 0xE9
                                            then jmp_rel32
                                            else (if op == 0xC3
                                                then ret_form
                                                else unknown)))))))))))

-- The `gop` of an ALU opcode.
unfoldable pub alu_op : ℕ → Option Op
alu_op op =
    if op == 0x01
    then some add_rr
    else (if op == 0x29
        then some sub_rr
        else (if op == 0x31
            then some xor_rr
            else (if op == 0x21
                then some and_rr
                else (if op == 0x09
                    then some or_rr
                    else (if op == 0x39
                        then some cmp_rr
                        else (if op == 0x85 then some test_rr else none))))))

-- The ranges of eight or sixteen opcodes, then the others.
unfoldable pub form : ℕ → Form
form op =
    if leb 0xB8 op && leb op 0xBF
    then mov_reg_imm (op - 0xB8)
    else (if leb 0x50 op && leb op 0x57
        then push_reg (op - 0x50)
        else (if leb 0x58 op && leb op 0x5F
            then pop_reg (op - 0x58)
            else (if leb 0x70 op && leb op 0x7F
                then jcc_rel8 (op % 2 ^ 4)
                else elim (alu_op op) [ some gop ↦ rm_from_reg gop | none ↦ form_single op ])))

-- The EMIT of a Jcc, with the condition that `x86cc_to_gcc` gave.
unfoldable pub jcc : Option ℕ → ℕ → Cursor → Read Decoded
jcc none rel c = refuses unsupported
jcc (some gcc) rel c = last_insn (branch_of br ((c.cur + rel) % 2 ^ 64) gcc 0) c

-- The operation of a group-1 digit.
unfoldable pub group1_op : ℕ → Option Op
group1_op digit =
    if digit == 0
    then some add_ri
    else (if digit == 5 then some sub_ri else (if digit == 7 then some cmp_ri else none))

unfoldable pub group1 : Option Op → ℕ → ℕ → Cursor → Read Decoded
group1 none rm imm c = refuses unsupported
group1 (some gop) rm imm c = straight_insn (insn_of gop rm 0 imm) c

-- `if (mrm.is_mem || !rexW) return ORYX_ERR_UNSUPPORTED;` and the rest, which reads `rm_reg`.
unfoldable pub with_direct : Rex → Operand → (ℕ → Read Decoded) → Read Decoded
with_direct rex (direct rm) rest = if rex.w then rest rm else refuses unsupported
with_direct rex (memory base disp) rest = refuses unsupported

unfoldable pub lea_of : Rex → Modrm → Operand → Cursor → Read Decoded
lea_of rex m (direct rm) c = refuses unsupported
lea_of rex m (memory base disp) c =
    if rex.w then straight_insn (insn_of lea m.reg base disp) c else refuses unsupported

module _ (img : Image) where
  unfoldable pub two_byte_of : ℕ → Cursor → Read Decoded
  two_byte_of op2 c =
      if leb 0x80 op2 && leb op2 0x8F
      then (next_i32 img c >>- λ rel. jcc (x86cc_to_gcc (op2 % 2 ^ 4)) rel.0 rel.1)
      else refuses unsupported

  unfoldable pub decode_form : Rex → Form → Cursor → Read Decoded
  decode_form rex (rm_from_reg gop) c = decode_modrm img rex c >>- λ m.
      with_direct rex m.0.operand (λ rm. straight_insn (insn_of gop rm m.0.reg 0) m.1)
  decode_form rex (reg_from_rm gop) c = decode_modrm img rex c >>- λ m.
      with_direct rex m.0.operand (λ rm. straight_insn (insn_of gop m.0.reg rm 0) m.1)
  decode_form rex lea_form c = decode_modrm img rex c >>- λ m. lea_of rex m.0 m.0.operand m.1
  decode_form rex mov_imm32 c = decode_modrm img rex c >>- λ m. with_direct rex m.0.operand (λ rm.
      if m.0.reg % 2 ^ 3 == 0
      then (next_i32 img m.1 >>- λ imm. straight_insn (insn_of mov_ri rm 0 imm.0) imm.1)
      else refuses unsupported)
  decode_form rex group1_imm8 c = decode_modrm img rex c >>- λ m.
      with_direct rex m.0.operand
        (λ rm. next_i8 img m.1 >>- λ imm. group1 (group1_op (m.0.reg % 2 ^ 3)) rm imm.0 imm.1)
  decode_form rex group1_imm32 c = decode_modrm img rex c >>- λ m.
      with_direct rex m.0.operand
        (λ rm. next_i32 img m.1 >>- λ imm. group1 (group1_op (m.0.reg % 2 ^ 3)) rm imm.0 imm.1)
  decode_form rex (mov_reg_imm r) c = (if rex.w then next_u64 img c else next_u32 img c) >>- λ imm.
      straight_insn (insn_of mov_ri (bit_or r (rex.b * 2 ^ 3)) 0 imm.0) imm.1
  decode_form rex (push_reg r) c = straight_insn (insn_of push (bit_or r (rex.b * 2 ^ 3)) 0 0) c
  decode_form rex (pop_reg r) c = straight_insn (insn_of pop (bit_or r (rex.b * 2 ^ 3)) 0 0) c
  decode_form rex call_rel32 c = next_i32 img c >>- λ rel.
      last_insn (branch_of call ((rel.1.cur + rel.0) % 2 ^ 64) 0 rel.1.cur) rel.1
  decode_form rex (jcc_rel8 cc) c = next_i8 img c >>- λ rel. jcc (x86cc_to_gcc cc) rel.0 rel.1
  decode_form rex two_byte c = next_u8 img c >>- λ op2. two_byte_of op2.0 op2.1
  decode_form rex jmp_rel8 c =
      next_i8 img c >>- λ rel. last_insn (branch_of jmp ((rel.1.cur + rel.0) % 2 ^ 64) 0 0) rel.1
  decode_form rex jmp_rel32 c =
      next_i32 img c >>- λ rel. last_insn (branch_of jmp ((rel.1.cur + rel.0) % 2 ^ 64) 0 0) rel.1
  decode_form rex ret_form c = last_insn (branch_of x86ret 0 0 0) c
  decode_form rex unknown c = refuses unsupported

  -- The opcode `b` behind the cursor, with a REX prefix in front of it if there is one.
  unfoldable pub opcode : ℕ → Cursor → Read (Rex × ℕ × Cursor)
  opcode b c =
      if leb 0x40 b && leb b 0x4F
      then (next_u8 img c >>- λ o. gives (rex_of b, o.0, o.1))
      else gives (no_rex, b, c)

  -- An instruction that is not endbr64.
  unfoldable pub decode_insn : Cursor → Read Decoded
  decode_insn c = span img c.off 1 >>- λ first.
      opcode (get_byte first) (advance 1 c) >>- λ o. decode_form o.0 (form o.1) o.2
