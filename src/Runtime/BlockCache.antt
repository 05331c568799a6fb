-- ===== src/Runtime/BlockCache.antt =====
-- The block cache of src/liboryxrun/oryxrun.c: an open-addressing table keyed by guest address. The table is a function
-- on its 16384 slots; `e` of a slot is left out, since the search does not read it.
use oryx.Prelude.{
  ◌-◌, ℕ, zero, suc, ◌+◌, ◌*◌, ◌/◌, ◌%◌, ◌^◌, ◌≡◌, ◌≢◌, refl, bit_and, bit_xor, Bool, true, false,
  not, Option, none, some, ◌==◌, ==_refl, ==_ne, Bool-cases, inl, inr, if◌then◌else◌, arith,
}

-- `ORYX_CACHE_SLOTS`
abbrev pub cache_slots : ℕ
cache_slots = 16384

-- `struct oryx_centry`
pub record Slot : Type 0 where
  pub pc : ℕ
  pub used : Bool

abbrev pub Table : Type 0
Table = ℕ → Slot

unfoldable pub pc_hash : ℕ → ℕ
pc_hash pc = let h = pc * 0x9E3779B97F4A7C15 % 2 ^ 64 in bit_xor h (h / 2 ^ 29)

abbrev pub next_slot : ℕ → ℕ
next_slot i = bit_and (i + 1) (cache_slots - 1)

-- The loop of `oryx_cache_find`, with `n` probes left: the slot that is hit.
unfoldable pub find_loop : ℕ → Table → ℕ → ℕ → Option ℕ
find_loop zero t pc i = none
find_loop (suc n) t pc i =
    let rest = find_loop n t pc (next_slot i) in
    if not (t i).used then none else (if (t i).pc == pc then some i else rest)

unfoldable pub cache_find : Table → ℕ → Option ℕ
cache_find t pc = find_loop cache_slots t pc (bit_and (pc_hash pc) (cache_slots - 1))

-- The loop of `oryx_cache_insert`: the slot that is taken.
unfoldable pub insert_loop : ℕ → Table → ℕ → Option ℕ
insert_loop zero t i = none
insert_loop (suc n) t i =
    let rest = insert_loop n t (next_slot i) in if not (t i).used then some i else rest

unfoldable pub cache_insert : Table → ℕ → Option ℕ
cache_insert t pc = insert_loop cache_slots t (bit_and (pc_hash pc) (cache_slots - 1))

-- `c->used = 1; c->pc = pc;` on slot `j`
unfoldable pub taken : Table → ℕ → ℕ → Table
taken t j pc i = if i == j then record { pc = pc; used = true } else t i

unfoldable pub cache_flush : Table → Table
cache_flush t i = record { pc = (t i).pc; used = false }

insert_loop-free : (n : ℕ) (t : Table) (i j : ℕ) → insert_loop n t i ≡ some j → (t j).used ≡ false
unfolding insert_loop
insert_loop-free zero t i j h = cc
insert_loop-free (suc n) t i j h = elim (Bool-cases (t i).used) [
  | inl full ↦ insert_loop-free n t (next_slot i) j (rw full at h)
  | inr free ↦ ground (arith, h, free)
]

pub taken-other : (t : Table) (i j pc : ℕ) → i ≢ j → taken t j pc i ≡ t i
unfolding taken
taken-other t i j pc h = rw (==_ne i j h) refl

pub taken-same : (t : Table) (j pc : ℕ) → taken t j pc j ≡ record { pc = pc; used = true }
unfolding taken
taken-same t j pc = rw (==_refl j) refl

find_loop-taken :
    (n : ℕ) (t : Table) (pc i j : ℕ)
    → find_loop n t pc i ≡ none
    → insert_loop n t i ≡ some j
    → find_loop n (taken t j pc) pc i ≡ some j
unfolding find_loop insert_loop
find_loop-taken zero t pc i j miss h = cc
find_loop-taken (suc n) t pc i j miss h = elim (Bool-cases (t i).used) [
  | inr free ↦
      let here : i ≡ j = ground (arith, h, free) in rw (here, taken-same t j pc, ==_refl pc) refl
  | inl full ↦ elim (Bool-cases ((t i).pc == pc)) [
    | inl hit ↦ absurd (ground (arith, miss, full, hit))
    | inr apart ↦
        let later : insert_loop n t (next_slot i) ≡ some j = rw full at h in
        let missed : find_loop n t pc (next_slot i) ≡ none = rw (full, apart) at miss in
        let elsewhere : i ≢ j =
          λ e. ground (arith, insert_loop-free n t (next_slot i) j later, full, e) in
        rw (taken-other t i j pc elsewhere, full, apart)
          (find_loop-taken n t pc (next_slot i) j missed later)
  ]
]

-- If a search misses an address and an insertion of it takes a slot, then the next search for it hits that slot.
pub cache_find-cache_insert :
    (t : Table) (pc j : ℕ)
    → cache_find t pc ≡ none
    → cache_insert t pc ≡ some j
    → cache_find (taken t j pc) pc ≡ some j
unfolding cache_find cache_insert
cache_find-cache_insert t pc j miss h = find_loop-taken cache_slots t pc _ j miss h

-- After a flush every search misses, and an insertion takes the first slot that it probes.
pub find_loop-cache_flush : (n : ℕ) (t : Table) (pc i : ℕ) → find_loop n (cache_flush t) pc i ≡ none
unfolding find_loop cache_flush
find_loop-cache_flush zero t pc i = refl
find_loop-cache_flush (suc n) t pc i = refl

pub insert_loop-cache_flush :
    (n : ℕ) (t : Table) (i : ℕ) → insert_loop (suc n) (cache_flush t) i ≡ some i
unfolding insert_loop cache_flush
insert_loop-cache_flush n t i = refl
