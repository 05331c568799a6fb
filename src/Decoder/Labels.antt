-- ===== src/Decoder/Labels.antt =====
-- The labels of the `switch` in src/liboryxdec/oryxdec.c, and the instructions that its cases hand to EMIT.
use oryx.Prelude.{if◌then◌else◌, ℕ, ◌<◌, ◌≡◌, refl, Bool, true, false, Option, none, some, arith}
use oryx.Wire.{IsU64}
use oryx.Guest.{
  Op, Insn, mov_rr, mov_ri, add_rr, sub_rr, cmp_rr, br, jmp, add_ri, sub_ri, cmp_ri, test_rr,
  xor_rr, and_rr, or_rr, lea, push, pop, call, x86ret,
}
use oryx.Decoder.Reader.{Image, Cursor}
use oryx.Decoder.Instructions.{
  insn_of, branch_of, Decoded, x86cc_to_gcc, Form, form_single, alu_op, form, group1_op,
  rm_from_reg, reg_from_rm, mov_reg_imm, push_reg, pop_reg,
}
use oryx.Decoder.Bounds.{Passed}

-- The operations that do not end a block, and those that do, among what the decoder emits.
abbrev pub is_straight : Op → Bool
is_straight mov_rr = true
is_straight mov_ri = true
is_straight add_rr = true
is_straight sub_rr = true
is_straight cmp_rr = true
is_straight add_ri = true
is_straight sub_ri = true
is_straight cmp_ri = true
is_straight test_rr = true
is_straight xor_rr = true
is_straight and_rr = true
is_straight or_rr = true
is_straight lea = true
is_straight push = true
is_straight pop = true
is_straight _ = false

abbrev pub is_last : Op → Bool
is_last br = true
is_last jmp = true
is_last call = true
is_last x86ret = true
is_last _ = false

-- An instruction whose fields are in range, and which ends a block if and only if `done` is set.
pub record IsDecoded (done : Bool) (i : Insn) : Type 0 where
  pub role : (if done then is_last i.op else is_straight i.op) ≡ true
  pub rd : i.rd < 16
  pub rn : i.rn < 16
  pub imm : IsU64 i.imm
  pub target : IsU64 i.target
  pub cc : i.cc < 6
  pub mclass : i.mclass ≡ 0

-- The result of one case, `k` bytes or more behind `c`.
pub record Emits (img : Image) (k : ℕ) (c : Cursor) (d : Decoded) : Type 0 where
  pub insn : IsDecoded d.done d.insn
  pub passed : Passed img k c d.rest

-- What `form` guarantees of the labels' arguments.
abbrev pub IsForm : Form → Type 0
IsForm (rm_from_reg gop) = is_straight gop ≡ true
IsForm (reg_from_rm gop) = is_straight gop ≡ true
IsForm (mov_reg_imm r) = r < 8
IsForm (push_reg r) = r < 8
IsForm (pop_reg r) = r < 8
IsForm _ = Unit

form_single-IsForm : (op : ℕ) → IsForm (form_single op)
unfolding form_single
form_single-IsForm op = ground arith

alu-IsForm :
    (op : ℕ) (o : Option Op)
    → o ≡ alu_op op
    → IsForm (elim o [ some gop ↦ rm_from_reg gop | none ↦ form_single op ])
unfolding alu_op
alu-IsForm op (some gop) e = ground arith
alu-IsForm op none e = form_single-IsForm op

pub form-IsForm : (op : ℕ) → IsForm (form op)
unfolding form
form-IsForm op = ground (arith, alu-IsForm op (alu_op op) refl)

pub group1_op-straight :
    (digit : ℕ) (gop : Op) → group1_op digit ≡ some gop → is_straight gop ≡ true
unfolding group1_op
group1_op-straight digit gop h = ground arith

pub straight-IsDecoded :
    (op : Op) (rd rn imm : ℕ)
    → is_straight op ≡ true
    → rd < 16
    → rn < 16
    → IsU64 imm
    → IsDecoded false (insn_of op rd rn imm)
straight-IsDecoded op rd rn imm s p q h = record {
  role = s;
  rd = p;
  rn = q;
  imm = h;
  target = omega arith;
  cc = omega arith;
  mclass = refl;
}

pub last-IsDecoded :
    (op : Op) (target cc imm : ℕ)
    → is_last op ≡ true
    → IsU64 target
    → cc < 6
    → IsU64 imm
    → IsDecoded true (branch_of op target cc imm)
last-IsDecoded op target cc imm l t c h = record {
  role = l;
  rd = omega arith;
  rn = omega arith;
  imm = h;
  target = t;
  cc = c;
  mclass = refl;
}

pub x86cc_to_gcc_bound : (cc gcc : ℕ) → x86cc_to_gcc cc ≡ some gcc → gcc < 6
unfolding x86cc_to_gcc
x86cc_to_gcc_bound cc gcc h = ground arith
