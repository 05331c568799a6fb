-- ===== src/TransUnit.antt =====
-- The translation unit of src/liboryxcache/oryxcache.h: `struct oryx_tu`, `struct oryx_reloc` and the
-- relocation kinds. An array and its count are one list; `code_len` is the length of `code`.
use oryx.Prelude.{ℕ, List}

abbrev pub reloc_none : ℕ
reloc_none = 0

abbrev pub reloc_abs64_guest_pc : ℕ
reloc_abs64_guest_pc = 1

abbrev pub reloc_branch_guest_pc : ℕ
reloc_branch_guest_pc = 2

pub record Reloc : Type 0 where
  pub offset : ℕ
  pub kind : ℕ
  pub guest_target : ℕ

pub record Tu : Type 0 where
  pub isa_id : ℕ
  pub translator_id : ℕ
  pub translator_version : ℕ
  pub profile_id : ℕ
  pub flags : ℕ
  pub guest_entry_pc : ℕ
  pub guest_len : ℕ
  pub guest_hash : List ℕ
  pub code : List ℕ
  pub relocs : List Reloc
  pub exits : List ℕ
