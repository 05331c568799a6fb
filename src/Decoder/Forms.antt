-- ===== src/Decoder/Forms.antt =====
-- What each case of the `switch` in src/liboryxdec/oryxdec.c hands to EMIT.
use oryx.Prelude.{
  leb, ◌==◌, if◌then◌else◌, All, ℕ, ◌+◌, ◌%◌, ◌^◌, ◌<◌, ◌≡◌, refl, true, ◌&&◌, Option, none, some,
  arith,
}
use oryx.Errors.{unsupported}
use oryx.Wire.{IsByte, IsU64}
use oryx.Guest.{Op, Insn, mov_ri, br, jmp, lea, push, pop, call, x86ret}
use oryx.Decoder.Reader.{
  Image, Cursor, Read, ◌>>-◌, refuses, next_u8, next_i8, next_u32, next_i32, next_u64, Rex, Operand,
  Modrm, decode_modrm, direct, memory,
}
use oryx.Decoder.Instructions.{
  insn_of, Decoded, straight_insn, last_insn, x86cc_to_gcc, Form, jcc, group1_op, group1,
  with_direct, lea_of, two_byte_of, decode_form, rm_from_reg, reg_from_rm, lea_form, mov_imm32,
  group1_imm8, group1_imm32, mov_reg_imm, push_reg, pop_reg, call_rel32, jcc_rel8, two_byte,
  jmp_rel8, jmp_rel32, ret_form, unknown,
}
use oryx.Decoder.Bounds.{
  Yields, Yields-bind, Yields-weaken, Yields-if, On, Passed, Number, IsRex, extended, Passed-trans,
  Passed-le, IsOperand, Operands, next_u8-Yields, next_i8-Yields, next_u32-Yields, next_i32-Yields,
  next_u64-Yields, decode_modrm-Yields,
}
use oryx.Decoder.Labels.{
  is_straight, IsDecoded, Emits, IsForm, group1_op-straight, straight-IsDecoded, last-IsDecoded,
  x86cc_to_gcc_bound,
}

module _ (img : Image) where
  jcc-Yields :
      (o : Option ℕ) (rel k : ℕ) (a c : Cursor)
      → ((gcc : ℕ) → o ≡ some gcc → gcc < 6)
      → Passed img k a c
      → Yields (jcc o rel c) (Emits img k a)
  unfolding jcc
  jcc-Yields none rel k a c small p = tt
  jcc-Yields (some gcc) rel k a c small p = record {
    insn = last-IsDecoded br _ gcc 0 refl (omega arith) (small gcc refl) (omega arith);
    passed = p;
  }

  group1-Yields :
      (o : Option Op) (rm imm k : ℕ) (a c : Cursor)
      → ((gop : Op) → o ≡ some gop → is_straight gop ≡ true)
      → rm < 16
      → IsU64 imm
      → Passed img k a c
      → Yields (group1 o rm imm c) (Emits img k a)
  unfolding group1
  group1-Yields none rm imm k a c known small h p = tt
  group1-Yields (some gop) rm imm k a c known small h p = record {
    insn = straight-IsDecoded gop rm 0 imm (known gop refl) small (omega arith) h;
    passed = p;
  }

  lea_of-Yields :
      (rex : Rex) (m : Modrm) (o : Operand) (k : ℕ) (a c : Cursor)
      → m.reg < 16
      → IsOperand o
      → Passed img k a c
      → Yields (lea_of rex m o c) (Emits img k a)
  unfolding lea_of
  lea_of-Yields rex m (direct rm) k a c reg h p = tt
  lea_of-Yields rex m (memory base disp) k a c reg h p =
      Yields-if _ rex.w _ _
        (λ wide. record {
          insn = straight-IsDecoded lea m.reg base disp refl reg h.0 h.1;
          passed = p;
        })
        (λ narrow. tt)

  with_direct-Yields :
      (P : Decoded → Type 0) (rex : Rex) (o : Operand) (rest : ℕ → Read Decoded)
      → IsOperand o
      → ((rm : ℕ) → rm < 16 → Yields (rest rm) P)
      → Yields (with_direct rex o rest) P
  unfolding with_direct
  with_direct-Yields P rex (direct rm) rest h k =
      Yields-if P rex.w _ _ (λ wide. k rm h) (λ narrow. tt)
  with_direct-Yields P rex (memory base disp) rest h k = tt

  module _ (bytes : All IsByte img.bytes) (c : Cursor) (at : On img c) where
    two_byte_of-Yields : (op2 : ℕ) → Yields (two_byte_of img op2 c) (Emits img 0 c)
    unfolding two_byte_of
    two_byte_of-Yields op2 =
        Yields-if _ (leb 0x80 op2 && leb op2 0x8F) _ _
          (λ near.
            Yields-bind (Number img 4 (2 ^ 64) c) (Emits img 0 c) (next_i32 img c) _
              (next_i32-Yields img bytes c at)
              (λ rel p.
                jcc-Yields (x86cc_to_gcc (op2 % 2 ^ 4)) rel.0 0 c rel.1 (x86cc_to_gcc_bound _)
                  (Passed-le img 0 4 c rel.1 (omega arith) p.1)))
          (λ other. tt)

  module _ (bytes : All IsByte img.bytes) (rex : Rex) (ok_rex : IsRex rex) (c : Cursor)
      (at : On img c) where
    -- A case that starts with `decode_modrm` and reads on with a register operand.
    direct-Yields :
        (rest : Modrm × Cursor → ℕ → Read Decoded)
        → ((m : Modrm × Cursor) (rm : ℕ)
            → m.0.reg < 16
            → Passed img 1 c m.1
            → rm < 16
            → Yields (rest m rm) (Emits img 0 c))
        → Yields
            (decode_modrm img rex c >>- λ m. with_direct rex m.0.operand (rest m))
            (Emits img 0 c)
    direct-Yields rest k =
        Yields-bind (Operands img c) (Emits img 0 c) (decode_modrm img rex c) _
          (decode_modrm-Yields img bytes rex c ok_rex at)
          (λ m p.
            with_direct-Yields (Emits img 0 c) rex m.0.operand (rest m) p.1
              (λ rm small. k m rm p.0 p.2 small))

    -- A case that reads one number and is done with it.
    value-Yields :
        (k bound : ℕ) (m : Read (ℕ × Cursor)) (rest : ℕ × Cursor → Read Decoded) (a : Cursor)
        → Yields m (Number img k bound a)
        → Passed img 0 c a
        → ((r : ℕ × Cursor) → r.0 < bound → Passed img 0 c r.1 → Yields (rest r) (Emits img 0 c))
        → Yields (m >>- rest) (Emits img 0 c)
    value-Yields k bound m rest a h before f =
        Yields-bind (Number img k bound a) (Emits img 0 c) m rest h (λ r p.
          f r p.0
            (Passed-le img 0 (0 + k) c r.1 (omega arith) (Passed-trans img 0 k c a r.1 before p.1)))

    imm8-Yields :
        (m : Modrm × Cursor) (rm : ℕ)
        → rm < 16
        → Passed img 1 c m.1
        → Yields
            (next_i8 img m.1 >>- λ imm. group1 (group1_op (m.0.reg % 2 ^ 3)) rm imm.0 imm.1)
            (Emits img 0 c)
    imm8-Yields m rm small p =
        value-Yields 1 (2 ^ 64) (next_i8 img m.1) _ m.1 (next_i8-Yields img bytes m.1 p.0)
          (Passed-le img 0 1 c m.1 (omega arith) p)
          (λ r h q.
            group1-Yields (group1_op (m.0.reg % 2 ^ 3)) rm r.0 0 c r.1 (group1_op-straight _) small
              h q)

    imm32-Yields :
        (m : Modrm × Cursor) (rm : ℕ)
        → rm < 16
        → Passed img 1 c m.1
        → Yields
            (next_i32 img m.1 >>- λ imm. group1 (group1_op (m.0.reg % 2 ^ 3)) rm imm.0 imm.1)
            (Emits img 0 c)
    imm32-Yields m rm small p =
        value-Yields 4 (2 ^ 64) (next_i32 img m.1) _ m.1 (next_i32-Yields img bytes m.1 p.0)
          (Passed-le img 0 1 c m.1 (omega arith) p)
          (λ r h q.
            group1-Yields (group1_op (m.0.reg % 2 ^ 3)) rm r.0 0 c r.1 (group1_op-straight _) small
              h q)

    mov_imm-Yields :
        (m : Modrm × Cursor) (rm : ℕ)
        → rm < 16
        → Passed img 1 c m.1
        → Yields
            (if m.0.reg % 2 ^ 3 == 0
              then (next_i32 img m.1 >>- λ imm. straight_insn (insn_of mov_ri rm 0 imm.0) imm.1)
              else refuses unsupported)
            (Emits img 0 c)
    mov_imm-Yields m rm small p =
        Yields-if _ (m.0.reg % 2 ^ 3 == 0) _ _
          (λ digit.
            value-Yields 4 (2 ^ 64) (next_i32 img m.1) _ m.1 (next_i32-Yields img bytes m.1 p.0)
              (Passed-le img 0 1 c m.1 (omega arith) p)
              (λ r h q. record {
                insn = straight-IsDecoded mov_ri rm 0 r.0 refl small (omega arith) h;
                passed = q;
              }))
          (λ other. tt)

    here : Passed img 0 c c
    here = (at, omega arith)

    -- A number that tells where a branch goes.
    jump-Yields :
        (k : ℕ) (m : Read (ℕ × Cursor)) (insn : ℕ × Cursor → Insn)
        → Yields m (Number img k (2 ^ 64) c)
        → ((r : ℕ × Cursor) → On img r.1 → IsDecoded true (insn r))
        → Yields (m >>- λ r. last_insn (insn r) r.1) (Emits img 0 c)
    jump-Yields k m insn h f =
        value-Yields k (2 ^ 64) m _ c h here (λ r small q. record { insn = f r q.0; passed = q })

    abbrev wide_imm : Read (ℕ × Cursor)
    wide_imm = if rex.w then next_u64 img c else next_u32 img c

    wide_imm-Yields : Yields wide_imm (Number img 0 (2 ^ 64) c)
    wide_imm-Yields =
        Yields-if _ rex.w _ _
          (λ wide.
            Yields-weaken _ _ (next_u64 img c) (next_u64-Yields img bytes c at)
              (λ r p. (p.0, Passed-le img 0 8 c r.1 (omega arith) p.1)))
          (λ narrow.
            Yields-weaken _ _ (next_u32 img c) (next_u32-Yields img bytes c at)
              (λ r p. (p.0, Passed-le img 0 4 c r.1 (omega arith) p.1)))

    pub decode_form-Yields :
        (f : Form) → IsForm f → Yields (decode_form img rex f c) (Emits img 0 c)
    unfolding decode_form
    decode_form-Yields (rm_from_reg gop) known = direct-Yields _ (λ m rm reg p small. record {
      insn = straight-IsDecoded gop rm m.0.reg 0 known small reg (omega arith);
      passed = Passed-le img 0 1 c m.1 (omega arith) p;
    })
    decode_form-Yields (reg_from_rm gop) known = direct-Yields _ (λ m rm reg p small. record {
      insn = straight-IsDecoded gop m.0.reg rm 0 known reg small (omega arith);
      passed = Passed-le img 0 1 c m.1 (omega arith) p;
    })
    decode_form-Yields lea_form known =
        Yields-bind (Operands img c) (Emits img 0 c) (decode_modrm img rex c) _
          (decode_modrm-Yields img bytes rex c ok_rex at)
          (λ m p.
            lea_of-Yields rex m.0 m.0.operand 0 c m.1 p.0 p.1
              (Passed-le img 0 1 c m.1 (omega arith) p.2))
    decode_form-Yields mov_imm32 known =
        direct-Yields _ (λ m rm reg p small. mov_imm-Yields m rm small p)
    decode_form-Yields group1_imm8 known =
        direct-Yields _ (λ m rm reg p small. imm8-Yields m rm small p)
    decode_form-Yields group1_imm32 known =
        direct-Yields _ (λ m rm reg p small. imm32-Yields m rm small p)
    decode_form-Yields (mov_reg_imm r) known =
        value-Yields 0 (2 ^ 64) wide_imm _ c wide_imm-Yields here (λ i h q. record {
          insn =
              straight-IsDecoded mov_ri _ 0 i.0 refl (extended r rex.b known ok_rex.b) (omega arith)
                h;
          passed = q;
        })
    decode_form-Yields (push_reg r) known = record {
      insn =
          straight-IsDecoded push _ 0 0 refl (extended r rex.b known ok_rex.b) (omega arith)
            (omega arith);
      passed = here;
    }
    decode_form-Yields (pop_reg r) known = record {
      insn =
          straight-IsDecoded pop _ 0 0 refl (extended r rex.b known ok_rex.b) (omega arith)
            (omega arith);
      passed = here;
    }
    decode_form-Yields call_rel32 known =
        jump-Yields 4 (next_i32 img c) _ (next_i32-Yields img bytes c at) (λ r on.
          last-IsDecoded call _ 0 r.1.cur refl (omega arith) (omega arith) (omega (arith, on.1)))
    decode_form-Yields (jcc_rel8 o) known =
        value-Yields 1 (2 ^ 64) (next_i8 img c) _ c (next_i8-Yields img bytes c at) here
          (λ r h q. jcc-Yields (x86cc_to_gcc o) r.0 0 c r.1 (x86cc_to_gcc_bound o) q)
    decode_form-Yields two_byte known =
        Yields-bind (Number img 1 (2 ^ 8) c) (Emits img 0 c) (next_u8 img c) _
          (next_u8-Yields img bytes c at)
          (λ op2 p.
            Yields-weaken (Emits img 0 op2.1) (Emits img 0 c) _
              (two_byte_of-Yields bytes op2.1 p.1.0 op2.0)
              (λ d e. record {
                insn = e.insn;
                passed =
                    Passed-le img 0 1 c d.rest (omega arith)
                      (Passed-trans img 1 0 c op2.1 d.rest p.1 e.passed);
              }))
    decode_form-Yields jmp_rel8 known =
        jump-Yields 1 (next_i8 img c) _ (next_i8-Yields img bytes c at)
          (λ r on. last-IsDecoded jmp _ 0 0 refl (omega arith) (omega arith) (omega arith))
    decode_form-Yields jmp_rel32 known =
        jump-Yields 4 (next_i32 img c) _ (next_i32-Yields img bytes c at)
          (λ r on. last-IsDecoded jmp _ 0 0 refl (omega arith) (omega arith) (omega arith))
    decode_form-Yields ret_form known = record {
      insn = last-IsDecoded x86ret 0 0 0 refl (omega arith) (omega arith) (omega arith);
      passed = here;
    }
    decode_form-Yields unknown known = tt
