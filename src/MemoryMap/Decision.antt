-- ===== src/MemoryMap/Decision.antt =====
-- The decision contract of oryxmap.h: an access is relaxed only without doubt.
use oryx.Prelude.{
  ℕ, ◌*◌, ◌/◌, ◌%◌, ◌≡◌, ◌⊎◌, ◌↔◌, bit_and, bit_and_digit, bit_and_low, Bool, true, Option, none,
  some, arith,
}
use oryx.MemoryMap.Entries.{Entry, relax, decide, omc_local}

-- The class is LOCAL, bit 1 (ESCAPED) is clear, and bit 0 (GUARD_REQUIRED) is clear or confirmed.
abbrev pub MayRelax : Option Entry → Bool → Type 0
MayRelax none confirmed = ⊥
MayRelax (some e) confirmed =
    (e.mclass ≡ omc_local) × (e.eflags / 2 % 2 ≡ 0) × ((e.eflags % 2 ≡ 0) ⊎ (confirmed ≡ true))

escaped_bit : (f : ℕ) → bit_and f 2 ≡ f / 2 % 2 * 2
escaped_bit f = omega (arith, bit_and_digit f 2, bit_and_low 1 (f / 2))

-- `decide` relaxes an access if and only if it may be relaxed: there is an entry of class LOCAL, its ESCAPED
-- flag is clear, and its GUARD_REQUIRED flag is clear or the guard is confirmed.
pub decide-relax_iff :
    (o : Option Entry) (confirmed : Bool) → (decide o confirmed ≡ relax) ↔ MayRelax o confirmed
unfolding decide
decide-relax_iff none confirmed = ground arith
decide-relax_iff (some e) confirmed = ground (arith, escaped_bit e.eflags, bit_and_low 1 e.eflags)
