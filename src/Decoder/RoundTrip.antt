-- ===== src/Decoder/RoundTrip.antt =====
-- The decoder of src/liboryxdec/oryxdec.c reads back what an assembler wrote.
use oryx.Prelude.{
  leb, length, ℕ, ◌+◌, ◌/◌, ◌%◌, ◌^◌, ◌≤◌, ◌<◌, ◌≡◌, refl, ap, ap₂, ◌∙◌, ◌≢◌, true, false, ◌&&◌,
  some, List, [], ◌∷◌, ◌++◌, arith,
}
use oryx.Wire.{put_u32, put_u64, get_byte, IsU32, IsU64}
use oryx.Decoder.Reader.{Image, Cursor, advance, gives, no_rex, rex_of}
use oryx.Decoder.Instructions.{
  Decoded, x86cc_to_gcc, form_single, alu_op, form, jcc, group1_op, group1, with_direct, lea_of,
  two_byte_of, decode_form, opcode, decode_insn, rm_from_reg, mov_reg_imm, push_reg, pop_reg,
}
use oryx.Decoder.Encoding.{
  Alu, Immediate, Condition, X86, alu_opcode, digit, condition_code, rex_byte, modrm_byte, encode,
  IsX86, alu_ir, imm_ir, condition_ir, ir_of, is_terminator, mov, add, sub, cmp, xor, and, or, test,
  add_imm, sub_imm, cmp_imm, equal, not_equal, less, greater_equal, less_equal, greater, reg_reg,
  reg_imm, movabs, lea_disp, push_r, pop_r, call_rel, jcc_rel, jmp_rel, return,
}
use oryx.Decoder.Reading.{
  low_rex, rejoined, Ahead, Ahead-advance, span-Ahead, next_u8-Ahead, next_i32-Ahead,
  next_u64-Ahead, decode_modrm-direct, decode_modrm-memory,
}

-- The decoded instruction, with the cursor behind it.
abbrev pub decoded : X86 → Cursor → Decoded
decoded x k = record { insn = ir_of k.cur x; done = is_terminator x; rest = k }

pub advance-advance : (j k : ℕ) (c : Cursor) → advance j (advance k c) ≡ advance (k + j) c
unfolding advance
advance-advance j k c =
    ap₂ (λ (off cur : ℕ). record { off = off; cur = cur }) (omega arith) (omega arith)

form-alu_opcode : (a : Alu) → form (alu_opcode a) ≡ rm_from_reg (alu_ir a)
unfolding form alu_op form_single
form-alu_opcode mov = refl
form-alu_opcode add = refl
form-alu_opcode sub = refl
form-alu_opcode cmp = refl
form-alu_opcode xor = refl
form-alu_opcode and = refl
form-alu_opcode or = refl
form-alu_opcode test = refl

form-mov_reg_imm : (k : ℕ) → k < 8 → form (0xB8 + k) ≡ mov_reg_imm k
unfolding form
form-mov_reg_imm k h = ground arith

form-push_reg : (k : ℕ) → k < 8 → form (0x50 + k) ≡ push_reg k
unfolding form
form-push_reg k h = ground arith

form-pop_reg : (k : ℕ) → k < 8 → form (0x58 + k) ≡ pop_reg k
unfolding form
form-pop_reg k h = ground arith

short_rex : (r : ℕ) → r < 16 → rex_of (0x40 + r / 8) ≡ record { w = false; r = 0; b = r / 8 }
unfolding rex_of
short_rex r h = ground arith

is_rex : (b : ℕ) → 0x40 ≤ b → b ≤ 0x4F → (leb 0x40 b && leb b 0x4F) ≡ true
is_rex b p q = ground arith

group1-digit : (i : Immediate) → group1_op (digit i % 2 ^ 3) ≡ some (imm_ir i)
unfolding group1_op
group1-digit add_imm = refl
group1-digit sub_imm = refl
group1-digit cmp_imm = refl

x86cc_to_gcc-condition_code :
    (k : Condition) → x86cc_to_gcc ((0x80 + condition_code k) % 2 ^ 4) ≡ some (condition_ir k)
unfolding x86cc_to_gcc
x86cc_to_gcc-condition_code equal = refl
x86cc_to_gcc-condition_code not_equal = refl
x86cc_to_gcc-condition_code less = refl
x86cc_to_gcc-condition_code greater_equal = refl
x86cc_to_gcc-condition_code less_equal = refl
x86cc_to_gcc-condition_code greater = refl

module _ (img : Image) (c : Cursor) (ys : List ℕ) where
  abbrev two_on : Cursor
  two_on = advance 1 (advance 1 c)

  decode_insn-rex :
      (b op : ℕ)
      → 0x40 ≤ b
      → b ≤ 0x4F
      → Ahead img c (b ∷ op ∷ ys)
      → decode_insn img c ≡ decode_form img (rex_of b) (form op) two_on
  unfolding decode_insn opcode get_byte
  decode_insn-rex b op p q h =
      let after : Ahead img (advance 1 c) (op ∷ ys) = Ahead-advance img c (b ∷ []) (op ∷ ys) h in
      rw (span-Ahead img c (b ∷ []) (op ∷ ys) h)
        (rw (is_rex b p q) (rw (next_u8-Ahead img (advance 1 c) ys op after) refl))

  decode_insn-plain :
      (b : ℕ)
      → (leb 0x40 b && leb b 0x4F) ≡ false
      → Ahead img c (b ∷ ys)
      → decode_insn img c ≡ decode_form img no_rex (form b) (advance 1 c)
  unfolding decode_insn opcode get_byte
  decode_insn-plain b no_prefix h = rw (span-Ahead img c (b ∷ []) ys h) (rw no_prefix refl)

  -- The bytes of an instruction with a prefix, behind prefix and opcode.
  behind_two : (b op : ℕ) → Ahead img c (b ∷ op ∷ ys) → Ahead img two_on ys
  behind_two b op h =
      Ahead-advance img (advance 1 c) (op ∷ []) ys (Ahead-advance img c (b ∷ []) (op ∷ ys) h)

  behind_one : (b : ℕ) → Ahead img c (b ∷ ys) → Ahead img (advance 1 c) ys
  behind_one b h = Ahead-advance img c (b ∷ []) ys h

digit_high : (i : Immediate) → digit i / 8 ≡ 0
digit_high add_imm = refl
digit_high sub_imm = refl
digit_high cmp_imm = refl

near :
    (k : Condition)
    → (leb 0x80 (0x80 + condition_code k) && leb (0x80 + condition_code k) 0x8F) ≡ true
near equal = refl
near not_equal = refl
near less = refl
near greater_equal = refl
near less_equal = refl
near greater = refl

digit_small : (i : Immediate) → digit i < 16
digit_small add_imm = omega arith
digit_small sub_imm = omega arith
digit_small cmp_imm = omega arith

module _ (c : Cursor) where
  from_two : (n : ℕ) → advance n (advance 1 (advance 1 c)) ≡ advance (2 + n) c
  from_two n = ap (advance n) (advance-advance 1 1 c) ∙ advance-advance n 2 c

  from_three : (n : ℕ) → advance n (advance 1 (advance 1 (advance 1 c))) ≡ advance (3 + n) c
  from_three n = ap (advance n) (from_two 1) ∙ advance-advance n 3 c

module _ (img : Image) (c : Cursor) (ys : List ℕ) where
  reads_reg_reg :
      (a : Alu) (rm reg : ℕ)
      → rm < 16
      → reg < 16
      → Ahead img c (encode (reg_reg a rm reg) ++ ys)
      → decode_insn img c ≡ gives (decoded (reg_reg a rm reg) (advance 3 c))
  unfolding decode_form with_direct
  reads_reg_reg a rm reg p q h =
      let two = advance 1 (advance 1 c) in
      let rest = modrm_byte 3 reg rm ∷ ys in
      let m =
        decode_modrm-direct img two ys true reg rm q p
          (behind_two img c rest (rex_byte reg rm) (alu_opcode a) h) in
      decode_insn-rex img c rest (rex_byte reg rm) (alu_opcode a) (omega arith) (omega arith) h
      ∙ rw (low_rex reg rm q p, form-alu_opcode a, m, from_two c 1) refl

  reads_reg_imm :
      (i : Immediate) (rm v : ℕ)
      → rm < 16
      → IsU32 v
      → Ahead img c (encode (reg_imm i rm v) ++ ys)
      → decode_insn img c ≡ gives (decoded (reg_imm i rm v) (advance 7 c))
  unfolding decode_form with_direct group1 form form_single alu_op
  reads_reg_imm i rm v p small h =
      let two = advance 1 (advance 1 c) in
      let tail = put_u32 v ++ ys in
      let b = modrm_byte 3 (digit i) rm in
      let at = behind_two img c (b ∷ tail) (rex_byte 0 rm) 0x81 h in
      let m = decode_modrm-direct img two tail true (digit i) rm (digit_small i) p at in
      let n = next_i32-Ahead img (advance 1 two) ys v small (behind_one img two tail b at) in
      decode_insn-rex img c (b ∷ tail) (rex_byte 0 rm) 0x81 (omega arith) (omega arith) h
      ∙ rw (low_rex 0 rm (omega arith) p, rw (digit_high i) at m)
          (rw (n, group1-digit i, from_three c 4) refl)

  reads_movabs :
      (r v : ℕ)
      → r < 16
      → IsU64 v
      → Ahead img c (encode (movabs r v) ++ ys)
      → decode_insn img c ≡ gives (decoded (movabs r v) (advance 10 c))
  unfolding decode_form
  reads_movabs r v p small h =
      let two = advance 1 (advance 1 c) in
      let tail = put_u64 v ++ ys in
      let at = behind_two img c tail (rex_byte 0 r) (0xB8 + r % 8) h in
      let n = next_u64-Ahead img two ys v small at in
      decode_insn-rex img c tail (rex_byte 0 r) (0xB8 + r % 8) (omega arith) (omega arith) h
      ∙ rw (low_rex 0 r (omega arith) p, form-mov_reg_imm (r % 8) (omega arith))
          (rw (n, rejoined r p, from_two c 8) refl)

  reads_lea_disp :
      (r base v : ℕ)
      → r < 16
      → base < 16
      → base % 8 ≢ 4
      → IsU32 v
      → Ahead img c (encode (lea_disp r base v) ++ ys)
      → decode_insn img c ≡ gives (decoded (lea_disp r base v) (advance 7 c))
  unfolding decode_form lea_of form form_single alu_op
  reads_lea_disp r base v p q no_sib small h =
      let two = advance 1 (advance 1 c) in
      let tail = modrm_byte 2 r base ∷ (put_u32 v ++ ys) in
      let m =
        decode_modrm-memory img two ys true r base p q v no_sib small
          (behind_two img c tail (rex_byte r base) 0x8D h) in
      decode_insn-rex img c tail (rex_byte r base) 0x8D (omega arith) (omega arith) h
      ∙ rw (low_rex r base p q, m) (rw (from_three c 4) refl)

  reads_push_r :
      (r : ℕ)
      → r < 16
      → Ahead img c (encode (push_r r) ++ ys)
      → decode_insn img c ≡ gives (decoded (push_r r) (advance 2 c))
  unfolding decode_form
  reads_push_r r p h =
      decode_insn-rex img c ys (0x40 + r / 8) (0x50 + r % 8) (omega arith) (omega arith) h
      ∙ rw (short_rex r p, form-push_reg (r % 8) (omega arith))
          (rw (rejoined r p, advance-advance 1 1 c) refl)

  reads_pop_r :
      (r : ℕ)
      → r < 16
      → Ahead img c (encode (pop_r r) ++ ys)
      → decode_insn img c ≡ gives (decoded (pop_r r) (advance 2 c))
  unfolding decode_form
  reads_pop_r r p h =
      decode_insn-rex img c ys (0x40 + r / 8) (0x58 + r % 8) (omega arith) (omega arith) h
      ∙ rw (short_rex r p, form-pop_reg (r % 8) (omega arith))
          (rw (rejoined r p, advance-advance 1 1 c) refl)

  reads_call_rel :
      (v : ℕ)
      → IsU32 v
      → Ahead img c (encode (call_rel v) ++ ys)
      → decode_insn img c ≡ gives (decoded (call_rel v) (advance 5 c))
  unfolding decode_form form form_single alu_op
  reads_call_rel v small h =
      let n =
        next_i32-Ahead img (advance 1 c) ys v small (behind_one img c (put_u32 v ++ ys) 0xE8 h) in
      decode_insn-plain img c (put_u32 v ++ ys) 0xE8 refl h ∙ rw (n, advance-advance 4 1 c) refl

  reads_jmp_rel :
      (v : ℕ)
      → IsU32 v
      → Ahead img c (encode (jmp_rel v) ++ ys)
      → decode_insn img c ≡ gives (decoded (jmp_rel v) (advance 5 c))
  unfolding decode_form form form_single alu_op
  reads_jmp_rel v small h =
      let n =
        next_i32-Ahead img (advance 1 c) ys v small (behind_one img c (put_u32 v ++ ys) 0xE9 h) in
      decode_insn-plain img c (put_u32 v ++ ys) 0xE9 refl h ∙ rw (n, advance-advance 4 1 c) refl

  reads_jcc_rel :
      (k : Condition) (v : ℕ)
      → IsU32 v
      → Ahead img c (encode (jcc_rel k v) ++ ys)
      → decode_insn img c ≡ gives (decoded (jcc_rel k v) (advance 6 c))
  unfolding decode_form form form_single alu_op two_byte_of jcc
  reads_jcc_rel k v small h =
      let op2 = 0x80 + condition_code k in
      let tail = put_u32 v ++ ys in
      let at = behind_one img c (op2 ∷ tail) 0x0F h in
      let o = next_u8-Ahead img (advance 1 c) tail op2 at in
      let n =
        next_i32-Ahead img (advance 1 (advance 1 c)) ys v small
          (behind_one img (advance 1 c) tail op2 at) in
      decode_insn-plain img c (op2 ∷ tail) 0x0F refl h
      ∙ rw (o, near k) (rw (n, x86cc_to_gcc-condition_code k, from_two c 4) refl)

  reads_return :
      Ahead img c (encode return ++ ys) → decode_insn img c ≡ gives (decoded return (advance 1 c))
  unfolding decode_form form form_single alu_op
  reads_return h = decode_insn-plain img c ys 0xC3 refl h

  -- The decoder reads an encoded instruction back, wherever it stands in an image.
  pub decode_insn-encode :
      (x : X86)
      → IsX86 x
      → Ahead img c (encode x ++ ys)
      → decode_insn img c ≡ gives (decoded x (advance (length (encode x)) c))
  unfolding put_u32 put_u64
  decode_insn-encode (reg_reg a rm reg) ok h = reads_reg_reg a rm reg ok.0 ok.1 h
  decode_insn-encode (reg_imm i rm v) ok h = reads_reg_imm i rm v ok.0 ok.1 h
  decode_insn-encode (movabs r v) ok h = reads_movabs r v ok.0 ok.1 h
  decode_insn-encode (lea_disp r base v) ok h = reads_lea_disp r base v ok.0 ok.1 ok.2 ok.3 h
  decode_insn-encode (push_r r) ok h = reads_push_r r ok h
  decode_insn-encode (pop_r r) ok h = reads_pop_r r ok h
  decode_insn-encode (call_rel v) ok h = reads_call_rel v ok h
  decode_insn-encode (jcc_rel k v) ok h = reads_jcc_rel k v ok h
  decode_insn-encode (jmp_rel v) ok h = reads_jmp_rel v ok h
  decode_insn-encode return ok h = reads_return h
