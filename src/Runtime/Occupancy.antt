-- ===== src/Runtime/Occupancy.antt =====
-- The block cache of src/liboryxrun/oryxrun.c has room for a block whenever a slot is free, and it has a free
-- slot below the dispatcher's limit of 12288 blocks.
use oryx.Prelude.{
  ◌==◌, if◌then◌else◌, ==_iff, Bool-cases, Option-cases, bit_and_low, ℕ, zero, suc, ◌+◌, ◌-◌, ◌%◌,
  ◌≤◌, ◌<◌, ◌≡◌, subst, refl, inl, inr, true, false, none, some, arith,
}
use native.Mathlib.Decide.{dec_lt}
use oryx.Runtime.BlockCache.{
  cache_slots, Table, pc_hash, next_slot, find_loop, cache_find, insert_loop, cache_insert, taken,
  cache_flush, taken-other, taken-same,
}

-- How many of the first `n` slots are used.
pub used_below : ℕ → Table → ℕ
used_below zero t = 0
used_below (suc n) t = (if (t n).used then 1 else 0) + used_below n t

pub none_used : (n : ℕ) → used_below n (λ i. record { pc = 0; used = false }) ≡ 0
unfolding used_below
none_used zero = refl
none_used (suc n) = omega (arith, none_used n)

pub used_below-cache_flush : (n : ℕ) (t : Table) → used_below n (cache_flush t) ≡ 0
unfolding used_below cache_flush
used_below-cache_flush zero t = refl
used_below-cache_flush (suc n) t = omega (arith, used_below-cache_flush n t)

taken_apart : (n j pc : ℕ) (t : Table) → n ≤ j → used_below n (taken t j pc) ≡ used_below n t
unfolding used_below
taken_apart zero j pc t h = refl
taken_apart (suc n) j pc t h =
    rw (taken-other t n j pc (omega arith), taken_apart n j pc t (omega arith)) refl

pub used_below-taken : (n j pc : ℕ) (t : Table) → used_below n (taken t j pc) ≤ used_below n t + 1
unfolding used_below
used_below-taken zero j pc t = omega arith
used_below-taken (suc n) j pc t = elim (dec_lt n j) [
  | yes below ↦ rw (taken-other t n j pc (omega arith)) (omega (arith, used_below-taken n j pc t))
  | no above ↦ elim (dec_lt j n) [
    | yes past ↦ rw (taken-other t n j pc (omega arith)) (omega (arith, used_below-taken n j pc t))
    | no at ↦
        let same : n ≡ j = omega arith in
        rw (taken_apart n j pc t (omega arith), same, taken-same t j pc) (ground arith)
  ]
]

-- A table whose first `n` slots are all used.
all_used : (n : ℕ) (t : Table) → ((k : ℕ) → k < n → (t k).used ≡ true) → used_below n t ≡ n
unfolding used_below
all_used zero t h = refl
all_used (suc n) t h =
    rw (h n (omega arith)) (omega (arith, all_used n t (λ k lt. h k (omega arith))))

wrapped : (i : ℕ) → i < 16384 → (i + 0) % 16384 ≡ i
wrapped i h = omega arith

reached : (i k : ℕ) → i < 16384 → k < 16384 → (i + (k + 16384 - i) % 16384) % 16384 ≡ k
reached i k p q = omega arith

-- An insertion that fails has seen a used slot at each of its probes.
insert_loop-full :
    (n : ℕ) (t : Table) (i k : ℕ)
    → insert_loop n t i ≡ none
    → i < 16384
    → k < n
    → (t ((i + k) % 16384)).used ≡ true
unfolding insert_loop
insert_loop-full zero t i k miss small lt = absurd (omega arith)
insert_loop-full (suc n) t i zero miss small lt = elim (Bool-cases (t i).used) [
  | inl full ↦ rw (wrapped i small) full
  | inr free ↦ cc (rw free at miss)
]
insert_loop-full (suc n) t i (suc k) miss small lt = elim (Bool-cases (t i).used) [
  | inl full ↦
      let step : next_slot i ≡ (i + 1) % 16384 = bit_and_low 14 (i + 1) in
      subst (λ (m : ℕ). (t m).used ≡ true) (omega (arith, step))
        (insert_loop-full n t (next_slot i) k (rw full at miss) (omega (arith, step)) (omega arith))
  | inr free ↦ cc (rw free at miss)
]

insert_loop-total :
    (t : Table) (i : ℕ)
    → i < 16384
    → used_below 16384 t < 16384
    → (j : ℕ) × (insert_loop 16384 t i ≡ some j)
insert_loop-total t i small room = elim (Option-cases (insert_loop 16384 t i)) [
  | inr (j, e) ↦ (j, e)
  | inl miss ↦ absurd (
      omega (
        arith,
        all_used 16384 t (λ k lt.
            subst (λ (m : ℕ). (t m).used ≡ true) (reached i k small lt)
              (insert_loop-full 16384 t i ((k + 16384 - i) % 16384) miss small (omega arith))),
      ))
]

-- As long as a slot is free, an insertion takes one.
pub cache_insert-total :
    (t : Table) (pc : ℕ)
    → used_below cache_slots t < cache_slots
    → (j : ℕ) × (cache_insert t pc ≡ some j)
unfolding cache_insert
cache_insert-total t pc room =
    insert_loop-total t _ (rw (bit_and_low 14 (pc_hash pc)) (omega arith)) room

pub find_loop-hit :
    (n : ℕ) (t : Table) (pc i j : ℕ)
    → find_loop n t pc i ≡ some j
    → ((t j).used ≡ true) × ((t j).pc ≡ pc)
unfolding find_loop
find_loop-hit zero t pc i j h = cc
find_loop-hit (suc n) t pc i j h = elim (Bool-cases (t i).used) [
  | inr free ↦ cc (rw free at h)
  | inl full ↦ elim (Bool-cases ((t i).pc == pc)) [
    | inl hit ↦
        let here : i ≡ j = ground (arith, h, full, hit) in
        subst (λ (m : ℕ). ((t m).used ≡ true) × ((t m).pc ≡ pc)) here (full, (==_iff _ _).0 hit)
    | inr apart ↦ find_loop-hit n t pc (next_slot i) j (rw (full, apart) at h)
  ]
]

pub cache_find-hit :
    (t : Table) (pc j : ℕ) → cache_find t pc ≡ some j → ((t j).used ≡ true) × ((t j).pc ≡ pc)
unfolding cache_find
cache_find-hit t pc j h = find_loop-hit cache_slots t pc _ j h
