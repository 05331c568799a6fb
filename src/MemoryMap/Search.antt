-- ===== src/MemoryMap/Search.antt =====
-- `oryx_mmap_lookup`: the binary search stays inside the array, ends within 33 rounds, and on ascending
-- entries finds exactly the entry of an address.
use oryx.Prelude.{
  ℕ, zero, suc, ◌+◌, ◌-◌, ◌/◌, ◌^◌, ◌≤◌, ◌<◌, ◌≡◌, ◌≢◌, refl, sym, ap, ◌∙◌, if◌then◌else◌, inl, inr,
  Option, none, some, List, [], ◌∷◌, length, get_elem?, ltb, ◌==◌, Bool-cases, ==_iff, le→ltb_false,
  ltb→lt, arith,
}
use oryx.Errors.{returns}
use native.Mathlib.Decide.{dec_lt}
use native.Mathlib.Nat.{pow-suc}
use oryx.MemoryMap.Entries.{Entry, MemMap, lookup_loop, lookup}

-- Strictly ascending addresses, as the format demands.
abbrev pub IsAscending : List Entry → Type 0
IsAscending [] = Unit
IsAscending (e ∷ []) = Unit
IsAscending (e ∷ f ∷ es) = (e.guest_pc < f.guest_pc) × IsAscending (f ∷ es)

get_elem?-lt {ℓ} :
    {A : Type ℓ} (xs : List A) (i : ℕ) → i < length xs → (x : A) × (get_elem? xs i ≡ some x)
get_elem?-lt [] i h = absurd (omega arith)
get_elem?-lt (x ∷ xs) zero h = (x, refl)
get_elem?-lt (x ∷ xs) (suc i) h = get_elem?-lt xs i (omega arith)

past_end {ℓ} : {A : Type ℓ} {x : A} (xs : List A) (i : ℕ) → length xs ≤ i → get_elem? xs i ≢ some x
past_end [] i h q = cc
past_end (y ∷ ys) zero h q = omega arith
past_end (y ∷ ys) (suc i) h q = past_end ys i (omega arith) q

pub head-lt :
    (e : Entry) (es : List Entry) (j : ℕ) {b : Entry}
    → IsAscending (e ∷ es)
    → get_elem? es j ≡ some b
    → e.guest_pc < b.guest_pc
head-lt e [] j h q = cc
head-lt e (f ∷ es) zero h q = ground arith
head-lt e (f ∷ es) (suc j) h q = omega (arith, head-lt f es j h.1 q)

pub tail-IsAscending : (e : Entry) (es : List Entry) → IsAscending (e ∷ es) → IsAscending es
tail-IsAscending e [] h = tt
tail-IsAscending e (f ∷ es) h = h.1

pub get_elem?-ascending :
    (es : List Entry) (i j : ℕ) {a b : Entry}
    → IsAscending es
    → get_elem? es i ≡ some a
    → get_elem? es j ≡ some b
    → i < j
    → a.guest_pc < b.guest_pc
get_elem?-ascending [] i j h p q lt = cc
get_elem?-ascending (e ∷ es) zero zero h p q lt = absurd (omega arith)
get_elem?-ascending (e ∷ es) zero (suc j) {a} {b} h p q lt =
    ground (arith, head-lt e es j {b = b} h q)
get_elem?-ascending (e ∷ es) (suc i) zero h p q lt = absurd (omega arith)
get_elem?-ascending (e ∷ es) (suc i) (suc j) h p q lt =
    get_elem?-ascending es i j (tail-IsAscending e es h) p q (omega arith)

-- `o` is the entry of `pc` in `es`, or `es` has none.
abbrev pub Describes : List Entry → ℕ → Option Entry → Type 0
Describes es pc (some e) = (e.guest_pc ≡ pc) × ((i : ℕ) × (get_elem? es i ≡ some e))
Describes es pc none = (i : ℕ) (e : Entry) → get_elem? es i ≡ some e → e.guest_pc ≢ pc

module _ (es : List Entry) (pc : ℕ) (sorted : IsAscending es) where
  -- What the loop knows of the entries outside [lo, hi).
  record Outside (lo hi : ℕ) : Type 0 where
    inside : hi ≤ length es
    below : (i : ℕ) (e : Entry) → i < lo → get_elem? es i ≡ some e → e.guest_pc < pc
    above : (i : ℕ) (e : Entry) → hi ≤ i → get_elem? es i ≡ some e → pc < e.guest_pc

  raise_lo :
      {lo hi : ℕ} (mid : ℕ) (e : Entry)
      → Outside lo hi
      → get_elem? es mid ≡ some e
      → e.guest_pc < pc
      → Outside (mid + 1) hi
  raise_lo mid e out at small = record {
    inside = out.inside;
    above = out.above;
    below = λ i f h q. ground (arith, get_elem?-ascending es i mid sorted q at);
  }

  lower_hi :
      {lo hi : ℕ} (mid : ℕ) (e : Entry)
      → Outside lo hi
      → mid ≤ hi
      → get_elem? es mid ≡ some e
      → pc < e.guest_pc
      → Outside lo mid
  lower_hi mid e out le at big = record {
    inside = omega arith;
    below = out.below;
    above = λ i f h q. ground (arith, get_elem?-ascending es mid i sorted at q);
  }

  empty-Describes : {lo hi : ℕ} → Outside lo hi → hi ≤ lo → Describes es pc none
  empty-Describes {lo} {hi} out h i e q = elim (dec_lt i lo) [
    | yes p ↦ omega (arith, out.below i e p q)
    | no p ↦ omega (arith, out.above i e (omega arith) q)
  ]

  -- The loop returns, from any range that `fuel` halvings exhaust.
  lookup_loop-Describes :
      (fuel lo hi : ℕ)
      → hi - lo < 2 ^ fuel
      → Outside lo hi
      → (o : Option Entry) × (lookup_loop (suc fuel) es pc lo hi ≡ returns o) × Describes es pc o
  unfolding lookup_loop
  lookup_loop-Describes zero lo hi narrow out =
      (none, rw (le→ltb_false lo hi (omega arith), lookup_loop), empty-Describes out (omega arith))
  lookup_loop-Describes (suc fuel) lo hi narrow out = elim (Bool-cases (ltb lo hi)) [
    | inr done ↦ (none, rw (done, lookup_loop), empty-Describes out (ground arith))
    | inl more ↦
        let (e, at) = get_elem?-lt es (lo + (hi - lo) / 2) (ground arith) in
        elim (Bool-cases (e.guest_pc == pc)) [
          | inl hit ↦ (some e, rw (more, lookup_loop, at, hit), ((==_iff _ _).0 hit, (_, at)))
          | inr miss ↦ elim (Bool-cases (ltb e.guest_pc pc)) [
            | inl small ↦
                let (o, run, found) =
                  lookup_loop-Describes fuel (lo + (hi - lo) / 2 + 1) hi
                    (ground (arith, pow-suc 2 fuel)) (raise_lo _ e out at (ltb→lt _ _ small)) in
                (o, rw (more, lookup_loop, at, miss, small) run, found)
            | inr big ↦
                let (o, run, found) =
                  lookup_loop-Describes fuel lo (lo + (hi - lo) / 2)
                    (ground (arith, pow-suc 2 fuel))
                    (lower_hi _ e out (ground arith) at (ground arith)) in
                (o, rw (more, lookup_loop, at, miss, big) run, found)
          ]
        ]
  ]

-- On ascending entries the search of any 32-bit array returns, with the entry of the address if there
-- is one and with NULL exactly when there is none.
pub lookup-Describes :
    (m : MemMap) (pc : ℕ)
    → IsAscending m.entries
    → length m.entries < 2 ^ 32
    → (o : Option Entry) × (lookup m pc ≡ returns o) × Describes m.entries pc o
unfolding lookup
lookup-Describes m pc sorted small =
    lookup_loop-Describes m.entries pc sorted 32 0 (length m.entries) (omega arith) (record {
      inside = omega arith;
      below = λ i e h q. absurd (omega arith);
      above = λ i e h q. absurd (past_end m.entries i h q);
    })

-- The entry of an address by a walk through the array.
unfoldable pub find : ℕ → List Entry → Option Entry
find pc [] = none
find pc (e ∷ es) = if e.guest_pc == pc then some e else find pc es

find_present :
    (es : List Entry) (i pc : ℕ) (e : Entry)
    → IsAscending es
    → get_elem? es i ≡ some e
    → e.guest_pc ≡ pc
    → find pc es ≡ some e
unfolding find
find_present [] i pc e up q h = cc
find_present (d ∷ es) zero pc e up q h = ground arith
find_present (d ∷ es) (suc i) pc e up q h =
    ground (arith, head-lt d es i up q, find_present es i pc e (tail-IsAscending d es up) q h)

find_absent : (es : List Entry) (pc : ℕ) → Describes es pc none → find pc es ≡ none
unfolding find
find_absent [] pc h = refl
find_absent (d ∷ es) pc h = ground (arith, h 0 d refl, find_absent es pc (λ i e q. h (suc i) e q))

Describes-find :
    (es : List Entry) (pc : ℕ) (o : Option Entry)
    → IsAscending es
    → Describes es pc o
    → o ≡ find pc es
Describes-find es pc none up h = sym (find_absent es pc h)
Describes-find es pc (some e) up (h, (i, q)) = sym (find_present es i pc e up q h)

-- On ascending entries the binary search of any 32-bit array returns what a walk through it finds.
pub lookup-find :
    (m : MemMap) (pc : ℕ)
    → IsAscending m.entries
    → length m.entries < 2 ^ 32
    → lookup m pc ≡ returns (find pc m.entries)
lookup-find m pc up small =
    let (o, run, found) = lookup-Describes m pc up small in
    run ∙ ap returns (Describes-find m.entries pc o up found)
