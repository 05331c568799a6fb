-- ===== src/Runtime/Owned.antt =====
-- The slots of the block cache of src/liboryxrun/oryxrun.c own the mappings, and a flush unmaps what they own.
use oryx.Prelude.{
  ◌==◌, if◌then◌else◌, ==_refl, ==_ne, Bool-cases, bit_and_low, ℕ, zero, suc, ◌+◌, ◌-◌, ◌≤◌, ◌<◌,
  bit_and, ◌≡◌, subst, refl, ap, ◌∙◌, ◌≢◌, inl, inr, true, false, some, arith,
}
use native.Mathlib.Decide.{dec_lt}
use oryx.Errors.{returns}
use oryx.Runtime.BlockCache.{
  cache_slots, Table, pc_hash, next_slot, find_loop, cache_find, insert_loop, cache_insert, taken,
  taken-other, taken-same,
}
use oryx.Runtime.Dispatcher.{GuestState, Session}
use oryx.Runtime.Regions.{Region, Space, one, count, munmap-open, one_refl}
use oryx.Runtime.Mappings.{Mapped, region, slot_region, flush_loop}

-- How often the `n` slots from slot `i` on own the region `q`.
abbrev pub owns : Region → Session → (ℕ → ℕ) → ℕ → ℕ
owns q s starts i = if (s.slots i).used then one q (slot_region s starts i) else 0

pub held : Region → Session → (ℕ → ℕ) → ℕ → ℕ → ℕ
held q s starts zero i = 0
held q s starts (suc n) i = owns q s starts i + held q s starts n (i + 1)

-- `extra` is what is open and in no slot.
abbrev Holds : (Region → ℕ) → Session → (ℕ → ℕ) → ℕ → ℕ → Space → Type 0
Holds extra s starts n i sp = (q : Region) → count q sp.open_regions ≡ extra q + held q s starts n i

pub flush_loop-Holds :
    (extra : Region → ℕ) (s : Session) (starts : ℕ → ℕ) (n i : ℕ) (sp : Space)
    → Holds extra s starts n i sp
    → (sp' : Space) × (flush_loop s starts n i sp ≡ returns sp')
      × ((q : Region) → count q sp'.open_regions ≡ extra q)
      × (sp'.peak ≡ sp.peak)
unfolding flush_loop held
flush_loop-Holds extra s starts zero i sp h = (sp, refl, λ q. omega (arith, h q), refl)
flush_loop-Holds extra s starts (suc n) i sp h = elim (Bool-cases (s.slots i).used) [
  | inl used ↦
      let r = slot_region s starts i in
      let owned : (q : Region)
          → count q sp.open_regions ≡ extra q + (one q r + held q s starts n (i + 1)) =
        rw used at h in
      let (sp1, unmapped, left, fewer, same) =
        munmap-open r sp (omega (arith, owned r, one_refl r)) in
      let (sp2, flushed, rest, same2) =
        flush_loop-Holds extra s starts n (i + 1) sp1 (λ q. omega (arith, left q, owned q)) in
      (sp2, rw (used, unmapped) flushed, rest, same2 ∙ same)
  | inr free ↦
      let (sp2, flushed, rest, same2) =
        flush_loop-Holds extra s starts n (i + 1) sp (λ q. omega (arith, rw free at (h q))) in
      (sp2, rw free flushed, rest, same2)
]

-- A used slot owns its region.
pub held-used :
    (s : Session) (starts : ℕ → ℕ) (n i j : ℕ)
    → i ≤ j
    → j < i + n
    → (s.slots j).used ≡ true
    → 0 < held (slot_region s starts j) s starts n i
unfolding held
held-used s starts zero i j low high used = absurd (omega arith)
held-used s starts (suc n) i j low high used = elim (dec_lt i j) [
  | yes later ↦ omega (arith, held-used s starts n (i + 1) j (omega arith) (omega arith) used)
  | no here ↦
      let at : i ≡ j = omega arith in
      rw (at, used) (omega (arith, one_refl (slot_region s starts j)))
]

-- The session and the numbers after `m` is put into slot `j`.
abbrev pub with_slot : Session → Mapped → ℕ → Session
with_slot s m j = record s {
  slots = taken s.slots j s.pc;
  execs = λ i. if i == j then m.exec else s.execs i;
  live = s.live + 1;
}

abbrev pub with_start : (ℕ → ℕ) → Mapped → ℕ → ℕ → ℕ
with_start starts m j i = if i == j then m.start else starts i

module _ (q : Region) (s : Session) (starts : ℕ → ℕ) (m : Mapped) (j : ℕ) where
  owns-other :
      (i : ℕ) → i ≢ j → owns q (with_slot s m j) (with_start starts m j) i ≡ owns q s starts i
  owns-other i apart = rw (taken-other s.slots i j s.pc apart, ==_ne i j apart) refl

  owns-same : owns q (with_slot s m j) (with_start starts m j) j ≡ one q (region m.exec m.start)
  owns-same = rw (taken-same s.slots j s.pc, ==_refl j) refl

  owns-free : (s.slots j).used ≡ false → owns q s starts j ≡ 0
  owns-free free = rw free refl

  held-apart :
      (n i : ℕ) → j < i → held q (with_slot s m j) (with_start starts m j) n i ≡ held q s starts n i
  unfolding held
  held-apart zero i past = refl
  held-apart (suc n) i past =
      omega (arith, owns-other i (omega arith), held-apart n (i + 1) (omega arith))

  pub held-with_slot :
      (n i : ℕ)
      → i ≤ j
      → j < i + n
      → (s.slots j).used ≡ false
      → held q (with_slot s m j) (with_start starts m j) n i
        ≡ one q (region m.exec m.start) + held q s starts n i
  unfolding held
  held-with_slot zero i low high free = absurd (omega arith)
  held-with_slot (suc n) i low high free = elim (dec_lt i j) [
    | yes later ↦ omega (
      arith,
      owns-other i (omega arith),
      held-with_slot n (i + 1) (omega arith) (omega arith) free,
    )
    | no here ↦
        let at : i ≡ j = omega arith in
        rw at (omega (arith, owns-same, held-apart n (j + 1) (omega arith), owns-free free))
  ]

-- The registers and the counters own nothing.
pub held-frame :
    (q : Region) (s : Session) (pc count_steps : ℕ) (guest : GuestState) (starts : ℕ → ℕ) (n i : ℕ)
    → held q (record s { pc = pc; taken_steps = count_steps; guest = guest }) starts n i
      ≡ held q s starts n i
unfolding held
held-frame q s pc count_steps guest starts zero i = refl
held-frame q s pc count_steps guest starts (suc n) i =
    ap (λ (k : ℕ). owns q s starts i + k) (held-frame q s pc count_steps guest starts n (i + 1))

pub held-none :
    (q : Region) (s : Session) (starts : ℕ → ℕ) (n i : ℕ)
    → ((j : ℕ) → (s.slots j).used ≡ false)
    → held q s starts n i ≡ 0
unfolding held
held-none q s starts zero i free = refl
held-none q s starts (suc n) i free =
    rw (free i) (omega (arith, held-none q s starts n (i + 1) free))

-- The slots that the loops of the block cache give are slots of the table.
next_slot_bound : (i : ℕ) → next_slot i < 16384
next_slot_bound i = rw (bit_and_low 14 (i + 1)) (omega arith)

find_loop-slot :
    (n : ℕ) (t : Table) (pc i j : ℕ) → i < 16384 → find_loop n t pc i ≡ some j → j < 16384
unfolding find_loop
find_loop-slot zero t pc i j small h = cc
find_loop-slot (suc n) t pc i j small h =
    ground (arith, find_loop-slot n t pc (next_slot i) j (next_slot_bound i))

insert_loop-slot :
    (n : ℕ) (t : Table) (i j : ℕ)
    → i < 16384
    → insert_loop n t i ≡ some j
    → (j < 16384) × ((t j).used ≡ false)
unfolding insert_loop
insert_loop-slot zero t i j small h = cc
insert_loop-slot (suc n) t i j small h = elim (Bool-cases (t i).used) [
  | inl full ↦ insert_loop-slot n t (next_slot i) j (next_slot_bound i) (rw full at h)
  | inr free ↦
      let here : i ≡ j = ground (arith, h, free) in
      subst (λ (k : ℕ). (k < 16384) × ((t k).used ≡ false)) here (small, free)
]

masked : (pc : ℕ) → bit_and (pc_hash pc) (cache_slots - 1) < 16384
masked pc = rw (bit_and_low 14 (pc_hash pc)) (omega arith)

pub cache_find-slot : (t : Table) (pc j : ℕ) → cache_find t pc ≡ some j → j < cache_slots
unfolding cache_find
cache_find-slot t pc j h = find_loop-slot cache_slots t pc _ j (masked pc) h

pub cache_insert-slot :
    (t : Table) (pc j : ℕ) → cache_insert t pc ≡ some j → (j < cache_slots) × ((t j).used ≡ false)
unfolding cache_insert
cache_insert-slot t pc j h = insert_loop-slot cache_slots t _ j (masked pc) h
