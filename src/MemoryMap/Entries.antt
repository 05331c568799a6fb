-- ===== src/MemoryMap/Entries.antt =====
-- The types of oryxmap.h, `oryx_mmap_decide` and `oryx_mmap_lookup` of oryxmap.c. `entries` is the
-- array with its `entry_count`; a map whose array is NULL has no entries.
use oryx.Prelude.{
  ℕ, zero, suc, ◌+◌, ◌-◌, ◌/◌, bit_and, Bool, true, false, not, Option, none, some, List, length,
  get_elem?, ltb, ◌==◌, if◌then◌else◌,
}
use oryx.Errors.{Run, returns, fault}

abbrev pub mmap_magic : ℕ
mmap_magic = 0x31434d4f

abbrev pub mmap_version : ℕ
mmap_version = 1

-- `enum oryx_mclass4`; an entry stores it as a byte.
abbrev pub omc_unknown : ℕ
omc_unknown = 0

abbrev pub omc_local : ℕ
omc_local = 1

abbrev pub omc_shared : ℕ
omc_shared = 2

abbrev pub omc_atomic : ℕ
omc_atomic = 3

abbrev pub ef_guard_required : ℕ
ef_guard_required = 1

abbrev pub ef_escaped : ℕ
ef_escaped = 2

pub data Order : Type 0 where
  relax tso atomic : Order

pub record Entry : Type 0 where
  pub guest_pc : ℕ
  pub mclass : ℕ
  pub eflags : ℕ

pub record MemMap : Type 0 where
  pub isa_id : ℕ
  pub analyzer_id : ℕ
  pub analyzer_version : ℕ
  pub flags : ℕ
  pub module_hash : List ℕ
  pub entries : List Entry

-- `oryx_mmap_decide`; `none` is the NULL entry.
unfoldable pub decide : Option Entry → Bool → Order
decide none guard_confirmed = tso
decide (some e) guard_confirmed =
    if e.mclass == omc_atomic
    then atomic
    else (if e.mclass == omc_local
        then (if not (bit_and e.eflags ef_escaped == 0)
            then tso
            else (if bit_and e.eflags ef_guard_required == 0
                then relax
                else (if guard_confirmed then relax else tso)))
        else tso)

-- The loop of `oryx_mmap_lookup` over [lo, hi).
unfoldable pub lookup_loop : ℕ → List Entry → ℕ → ℕ → ℕ → Run (Option Entry)
lookup_loop zero es guest_pc lo hi = fault
lookup_loop (suc fuel) es guest_pc lo hi = elim (ltb lo hi) [
  | false ↦ returns none
  | true ↦
      let mid = lo + (hi - lo) / 2 in
      elim (get_elem? es mid) [
        | none ↦ fault
        | some e ↦ elim (e.guest_pc == guest_pc) [
          | true ↦ returns (some e)
          | false ↦ elim (ltb e.guest_pc guest_pc) [
            | true ↦ lookup_loop fuel es guest_pc (mid + 1) hi
            | false ↦ lookup_loop fuel es guest_pc lo mid
          ]
        ]
      ]
]

-- A 32-bit count is halved to nothing in 33 rounds.
unfoldable pub lookup : MemMap → ℕ → Run (Option Entry)
unfolding lookup_loop
lookup m guest_pc = lookup_loop 33 m.entries guest_pc 0 (length m.entries)
