-- ===== src/Litmus/Half.antt =====
-- A thread of the store-buffer test of oryx_litmus.c whose load waits for its store, under the mapping `sc` or between full
-- barriers, on the TSO machine.
use oryx.Prelude.{ℕ, ◌≡◌, refl, ap, ◌≢◌, true, List, [], ◌∷◌, ◌++◌}
use oryx.Litmus.Harness.{Loc, Reg, Instr, ra, str, stlr, ldr, ldar, dmb_ish}
use oryx.Litmus.Machine.{access, is_ldar, stores, loads, waits, nothing}

-- A thread that stores to `own` and loads from `other`, by what it has to do, what waits and what the memory has at `own`.
pub data Half (own other : Loc) (prog : List Instr) (q : List (Loc × ℕ)) (m : ℕ) : Type 0 where
  fresh : prog ≡ stlr own 1 ∷ ldar other ra ∷ [] → q ≡ [] → Half own other prog q m
  fresh_fenced : prog ≡ str own 1 ∷ dmb_ish ∷ ldr other ra ∷ [] → q ≡ [] → Half own other prog q m
  waiting_fenced : prog ≡ dmb_ish ∷ ldr other ra ∷ [] → q ≡ (own, 1) ∷ [] → Half own other prog q m
  flushed : prog ≡ dmb_ish ∷ ldr other ra ∷ [] → q ≡ [] → m ≡ 1 → Half own other prog q m
  visible_fenced : prog ≡ ldr other ra ∷ [] → q ≡ [] → m ≡ 1 → Half own other prog q m
  waiting : prog ≡ ldar other ra ∷ [] → q ≡ (own, 1) ∷ [] → Half own other prog q m
  visible : prog ≡ ldar other ra ∷ [] → q ≡ [] → m ≡ 1 → Half own other prog q m
  ended : prog ≡ [] → q ≡ [] → m ≡ 1 → Half own other prog q m

module _ (own other : Loc) (i : Instr) (rest : List Instr) (q : List (Loc × ℕ)) (m : ℕ) where
  pub Half-issue :
      (l : Loc) (v : ℕ)
      → access i ≡ stores l v
      → Half own other (i ∷ rest) q m
      → Half own other rest (q ++ (l, v) ∷ []) m × (rest ≢ [])
  Half-issue l v f (fresh e h) =
      let which : i ≡ stlr own 1 = cc in
      let as_store : access i ≡ stores own 1 = ap access which in
      (waiting (cc) (rw h (cc)), λ none_left. cc)
  Half-issue l v f (waiting e h) =
      let which : i ≡ ldar other ra = cc in
      let as_load : access i ≡ loads other ra = ap access which in cc
  Half-issue l v f (visible e h k) =
      let which : i ≡ ldar other ra = cc in
      let as_load : access i ≡ loads other ra = ap access which in cc
  Half-issue l v f (fresh_fenced e h) =
      let which : i ≡ str own 1 = cc in
      let as_store : access i ≡ stores own 1 = ap access which in
      (waiting_fenced (cc) (rw h (cc)), λ none_left. cc)
  Half-issue l v f (waiting_fenced e h) =
      let which : i ≡ dmb_ish = cc in let as_barrier : access i ≡ waits = ap access which in cc
  Half-issue l v f (flushed e h k) =
      let which : i ≡ dmb_ish = cc in let as_barrier : access i ≡ waits = ap access which in cc
  Half-issue l v f (visible_fenced e h k) =
      let which : i ≡ ldr other ra = cc in
      let as_load : access i ≡ loads other ra = ap access which in cc
  Half-issue l v f (ended e h k) = cc

  pub Half-load :
      (l : Loc) (r : Reg)
      → access i ≡ loads l r
      → (is_ldar i ≡ true → q ≡ [])
      → Half own other (i ∷ rest) q m
      → (l ≡ other) × (r ≡ ra) × (m ≡ 1) × (q ≡ []) × (rest ≡ [])
  Half-load l r f drained (fresh e h) =
      let which : i ≡ stlr own 1 = cc in
      let as_store : access i ≡ stores own 1 = ap access which in cc
  Half-load l r f drained (waiting e h) =
      let which : i ≡ ldar other ra = cc in let empty : q ≡ [] = drained (ap is_ldar which) in cc
  Half-load l r f drained (visible e h k) =
      let which : i ≡ ldar other ra = cc in
      let as_load : access i ≡ loads other ra = ap access which in (cc, cc, k, h, cc)
  Half-load l r f drained (fresh_fenced e h) =
      let which : i ≡ str own 1 = cc in
      let as_store : access i ≡ stores own 1 = ap access which in cc
  Half-load l r f drained (waiting_fenced e h) =
      let which : i ≡ dmb_ish = cc in let as_barrier : access i ≡ waits = ap access which in cc
  Half-load l r f drained (flushed e h k) =
      let which : i ≡ dmb_ish = cc in let as_barrier : access i ≡ waits = ap access which in cc
  Half-load l r f drained (visible_fenced e h k) =
      let which : i ≡ ldr other ra = cc in
      let as_load : access i ≡ loads other ra = ap access which in (cc, cc, k, h, cc)
  Half-load l r f drained (ended e h k) = cc

  -- A barrier is passed when nothing waits.
  pub Half-wait :
      access i ≡ waits
      → q ≡ []
      → Half own other (i ∷ rest) q m
      → Half own other rest q m × (rest ≢ [])
  Half-wait f none_waits (fresh e h) =
      let which : i ≡ stlr own 1 = cc in
      let as_store : access i ≡ stores own 1 = ap access which in cc
  Half-wait f none_waits (waiting e h) = cc
  Half-wait f none_waits (visible e h k) =
      let which : i ≡ ldar other ra = cc in
      let as_load : access i ≡ loads other ra = ap access which in cc
  Half-wait f none_waits (fresh_fenced e h) =
      let which : i ≡ str own 1 = cc in
      let as_store : access i ≡ stores own 1 = ap access which in cc
  Half-wait f none_waits (waiting_fenced e h) = cc
  Half-wait f none_waits (flushed e h k) = (visible_fenced (cc) h k, λ none_left. cc)
  Half-wait f none_waits (visible_fenced e h k) =
      let which : i ≡ ldr other ra = cc in
      let as_load : access i ≡ loads other ra = ap access which in cc
  Half-wait f none_waits (ended e h k) = cc

  pub Half-skip : access i ≡ nothing → Half own other (i ∷ rest) q m → ⊥
  Half-skip f (fresh e h) =
      let which : i ≡ stlr own 1 = cc in
      let same : access i ≡ access (stlr own 1) = ap access which in cc
  Half-skip f (waiting e h) =
      let which : i ≡ ldr other ra = cc in
      let same : access i ≡ access (ldar other ra) = ap access which in cc
  Half-skip f (visible e h k) =
      let which : i ≡ ldar other ra = cc in
      let same : access i ≡ access (ldar other ra) = ap access which in cc
  Half-skip f (fresh_fenced e h) =
      let which : i ≡ str own 1 = cc in
      let same : access i ≡ access (str own 1) = ap access which in cc
  Half-skip f (waiting_fenced e h) =
      let which : i ≡ dmb_ish = cc in let same : access i ≡ access dmb_ish = ap access which in cc
  Half-skip f (flushed e h k) =
      let which : i ≡ dmb_ish = cc in let same : access i ≡ access dmb_ish = ap access which in cc
  Half-skip f (visible_fenced e h k) =
      let which : i ≡ ldr other ra = cc in
      let same : access i ≡ access (ldr other ra) = ap access which in cc
  Half-skip f (ended e h k) = cc

pub Half-drain :
    (own other : Loc) (prog : List Instr) (l : Loc) (v : ℕ) (q : List (Loc × ℕ)) (m : ℕ)
    → Half own other prog ((l, v) ∷ q) m
    → (l ≡ own) × (v ≡ 1) × Half own other prog q 1
Half-drain own other prog l v q m (fresh e h) = cc
Half-drain own other prog l v q m (waiting e h) = (cc, cc, visible e (cc) refl)
Half-drain own other prog l v q m (visible e h k) = cc
Half-drain own other prog l v q m (fresh_fenced e h) = cc
Half-drain own other prog l v q m (waiting_fenced e h) = (cc, cc, flushed e (cc) refl)
Half-drain own other prog l v q m (flushed e h k) = cc
Half-drain own other prog l v q m (visible_fenced e h k) = cc
Half-drain own other prog l v q m (ended e h k) = cc

pub Half-ends :
    {own other : Loc} {prog : List Instr} {q : List (Loc × ℕ)} {m : ℕ}
    → Half own other prog q m
    → prog ≡ []
    → m ≡ 1
Half-ends (fresh e h) none_left = cc
Half-ends (waiting e h) none_left = cc
Half-ends (visible e h k) none_left = k
Half-ends (fresh_fenced e h) none_left = cc
Half-ends (waiting_fenced e h) none_left = cc
Half-ends (flushed e h k) none_left = k
Half-ends (visible_fenced e h k) none_left = k
Half-ends (ended e h k) none_left = k
