-- ===== src/MemoryMap/Classifier.antt =====
-- `oryx_mmap_classify`, the reference classifier of src/liboryxmap/oryxmap.c, over the guest IR.
use oryx.Prelude.{
  ℕ, ◌+◌, ◌*◌, ◌%◌, ◌^◌, Bool, ◌||◌, Option, none, some, List, [], ◌∷◌, length, ◌==◌, if◌then◌else◌,
}
use oryx.Errors.{Result, ok, err, nomem}
use oryx.Guest.{Op, Insn, load, store, atomic_add, atomic_cas, gr_rsp, gr_rbp}
use oryx.Sha256.{sha256}
use oryx.MemoryMap.Entries.{Entry, MemMap, omc_local, omc_shared, omc_atomic, ef_guard_required}
use oryx.MemoryMap.Format.{entry_size}

-- The class and the flags that the `switch` gives an instruction; `none` is `continue`.
unfoldable pub class_of_op : Op → ℕ → Option (ℕ × ℕ)
class_of_op load rn =
    if rn == gr_rsp || rn == gr_rbp
    then some (omc_local, ef_guard_required)
    else some (omc_shared, 0)
class_of_op store rn =
    if rn == gr_rsp || rn == gr_rbp
    then some (omc_local, ef_guard_required)
    else some (omc_shared, 0)
class_of_op atomic_add rn = some (omc_atomic, 0)
class_of_op atomic_cas rn = some (omc_atomic, 0)
class_of_op _ rn = none

unfoldable pub class_of : Insn → Option (ℕ × ℕ)
class_of insn = class_of_op insn.op insn.rn

-- The loop from index `i` on: the entries that it appends.
unfoldable pub classify_from : ℕ → ℕ → List Insn → List Entry
classify_from guest_pc i [] = []
classify_from guest_pc i (insn ∷ ops) =
    let rest = classify_from guest_pc (i + 1) ops in
    elim (class_of insn) [
      | none ↦ rest
      | some (cls, ef) ↦
          let e : Entry = record {
            guest_pc = (guest_pc + i) % 2 ^ 64;
            mclass = cls;
            eflags = ef;
          } in
          e ∷ rest
    ]

-- The bytes that are hashed: a NULL identity is the empty string.
unfoldable pub ident_bytes : Option (List ℕ) → List ℕ
ident_bytes none = []
ident_bytes (some bytes) = bytes

module _ (malloc : ℕ → Bool) where
  unfoldable pub classify : List Insn → ℕ → Option (List ℕ) → ℕ → ℕ → ℕ → Result MemMap
  classify ops guest_pc module_ident isa_id analyzer_id analyzer_version =
      let n = length ops in
      if malloc ((if n == 0 then 1 else n) * entry_size)
      then ok (record {
        isa_id = isa_id;
        analyzer_id = analyzer_id;
        analyzer_version = analyzer_version;
        flags = 0;
        module_hash = sha256 (ident_bytes module_ident);
        entries = classify_from guest_pc 0 ops;
      })
      else err nomem
