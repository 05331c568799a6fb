-- ===== src/Guest.antt =====
-- The guest IR of src/liboryxtu/oryxtu.h. A C `int` is its 32-bit pattern and an `int64_t` its 64-bit
-- pattern, so the guard `rd < 0 || rd >= GR_COUNT` is `16 ≤ rd`; an `op` outside the enum is `other`.
use oryx.Prelude.{ℕ}

pub data Op : Type 0 where
  mov_rr mov_ri add_rr sub_rr cmp_rr load store br jmp ret : Op
  atomic_add atomic_cas fence setcc : Op
  add_ri sub_ri cmp_ri test_rr xor_rr and_rr or_rr lea : Op
  push pop call x86ret : Op
  other : ℕ → Op

-- The values of `enum oryx_greg` that the code names, and their count.
abbrev pub gr_rax : ℕ
gr_rax = 0

abbrev pub gr_rsp : ℕ
gr_rsp = 4

abbrev pub gr_rbp : ℕ
gr_rbp = 5

abbrev pub gr_count : ℕ
gr_count = 16

-- `enum oryx_gcc`
abbrev pub gcc_eq : ℕ
gcc_eq = 0

abbrev pub gcc_ne : ℕ
gcc_ne = 1

abbrev pub gcc_lt : ℕ
gcc_lt = 2

abbrev pub gcc_ge : ℕ
gcc_ge = 3

abbrev pub gcc_le : ℕ
gcc_le = 4

abbrev pub gcc_gt : ℕ
gcc_gt = 5

-- `enum oryx_mclass` and `enum oryx_fence`
abbrev pub mclass_local : ℕ
mclass_local = 0

abbrev pub mclass_shared : ℕ
mclass_shared = 1

abbrev pub fence_full : ℕ
fence_full = 0

abbrev pub fence_ld : ℕ
fence_ld = 1

abbrev pub fence_st : ℕ
fence_st = 2

-- `struct oryx_ginsn`
pub record Insn : Type 0 where
  pub op : Op
  pub rd : ℕ
  pub rn : ℕ
  pub imm : ℕ
  pub target : ℕ
  pub cc : ℕ
  pub mclass : ℕ

pub data Policy : Type 0 where
  drf conservative : Policy

pub data Strength : Type 0 where
  sc rcpc exact_tso : Strength
