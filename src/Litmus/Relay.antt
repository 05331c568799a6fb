-- ===== src/Litmus/Relay.antt =====
-- The write-to-read-causality test of oryx_litmus.c on the TSO machine.
use oryx.Prelude.{
  ◌==◌, ==_iff, Bool-cases, ℕ, ◌≡◌, refl, ◌≢◌, ◌⊎◌, inl, inr, List, [], ◌∷◌, ◌++◌, arith,
}
use oryx.Litmus.Harness.{Loc, Reg, x, y, ra, rb}
use oryx.Litmus.Machine.{Access, stores, loads}

-- What is known of a result `a` and a later value `v` of the data: if the first is the new data, so is the second.
abbrev pub Follows : ℕ → ℕ → Type 0
Follows a v = (a ≢ 1) ⊎ (v ≡ 1)

pub data Writer (t : List Access) (q : List (Loc × ℕ)) : Type 0 where
  fresh : t ≡ stores x 1 ∷ [] → q ≡ [] → Writer t q
  one_queued : t ≡ [] → q ≡ (x, 1) ∷ [] → Writer t q
  finished : t ≡ [] → q ≡ [] → Writer t q

-- The middle thread passes on what it has seen.
pub data Relay (t : List Access) (q : List (Loc × ℕ)) (a mx my : ℕ) : Type 0 where
  fresh : t ≡ loads x ra ∷ stores y 1 ∷ [] → q ≡ [] → my ≡ 0 → Relay t q a mx my
  seen_data : t ≡ stores y 1 ∷ [] → q ≡ [] → my ≡ 0 → Follows a mx → Relay t q a mx my
  flag_queued : t ≡ [] → q ≡ (y, 1) ∷ [] → my ≡ 0 → Follows a mx → Relay t q a mx my
  finished : t ≡ [] → q ≡ [] → my ≡ 1 → Follows a mx → Relay t q a mx my

-- The last thread, with the result `a` of the middle one.
pub data Reader (t : List Access) (a c d mx my : ℕ) : Type 0 where
  fresh : t ≡ loads y ra ∷ loads x rb ∷ [] → Reader t a c d mx my
  between : t ≡ loads x rb ∷ [] → (c ≢ 1) ⊎ ((my ≡ 1) × Follows a mx) → Reader t a c d mx my
  finished : t ≡ [] → (c ≢ 1) ⊎ ((my ≡ 1) × Follows a d) → Reader t a c d mx my

pub is_Follows : (v : ℕ) → Follows v v
is_Follows v = elim (Bool-cases (v == 1)) [
  | inl e ↦ inr ((==_iff v 1).0 e)
  | inr e ↦ inl (λ h. ground arith)
]

pub Writer-issue :
    (t : List Access) (l : Loc) (v : ℕ) (q : List (Loc × ℕ))
    → Writer (stores l v ∷ t) q
    → Writer t (q ++ (l, v) ∷ [])
Writer-issue t l v q (fresh e f) = one_queued (cc) (rw f (cc))
Writer-issue t l v q (one_queued e f) = cc
Writer-issue t l v q (finished e f) = cc

pub Writer-load :
    (t : List Access) (l : Loc) (r : Reg) (q : List (Loc × ℕ)) → Writer (loads l r ∷ t) q → ⊥
Writer-load t l r q (fresh e f) = cc
Writer-load t l r q (one_queued e f) = cc
Writer-load t l r q (finished e f) = cc

pub Writer-drain :
    (t : List Access) (l : Loc) (v : ℕ) (q : List (Loc × ℕ))
    → Writer t ((l, v) ∷ q)
    → Writer t q × (l ≡ x) × (v ≡ 1)
Writer-drain t l v q (fresh e f) = cc
Writer-drain t l v q (one_queued e f) = (finished e (cc), cc, cc)
Writer-drain t l v q (finished e f) = cc

pub Relay-issue :
    (t : List Access) (l : Loc) (v : ℕ) (q : List (Loc × ℕ)) (a mx my : ℕ)
    → Relay (stores l v ∷ t) q a mx my
    → Relay t (q ++ (l, v) ∷ []) a mx my
Relay-issue t l v q a mx my (fresh e f h) = cc
Relay-issue t l v q a mx my (seen_data e f h k) = flag_queued (cc) (rw f (cc)) h k
Relay-issue t l v q a mx my (flag_queued e f h k) = cc
Relay-issue t l v q a mx my (finished e f h k) = cc

-- Its only load is the one of the data, with an empty queue and before the flag is set.
pub Relay-load :
    (t : List Access) (l : Loc) (r : Reg) (q : List (Loc × ℕ)) (a mx my : ℕ)
    → Relay (loads l r ∷ t) q a mx my
    → (l ≡ x) × (r ≡ ra) × (q ≡ []) × (my ≡ 0) × Relay t q mx mx my
Relay-load t l r q a mx my (fresh e f h) = (cc, cc, f, h, seen_data (cc) f h (is_Follows mx))
Relay-load t l r q a mx my (seen_data e f h k) = cc
Relay-load t l r q a mx my (flag_queued e f h k) = cc
Relay-load t l r q a mx my (finished e f h k) = cc

pub Relay-drain :
    (t : List Access) (l : Loc) (v : ℕ) (q : List (Loc × ℕ)) (a mx my : ℕ)
    → Relay t ((l, v) ∷ q) a mx my
    → (l ≡ y) × (v ≡ 1) × Relay t q a mx 1
Relay-drain t l v q a mx my (fresh e f h) = cc
Relay-drain t l v q a mx my (seen_data e f h k) = cc
Relay-drain t l v q a mx my (flag_queued e f h k) = (cc, cc, finished e (cc) refl k)
Relay-drain t l v q a mx my (finished e f h k) = cc

pub Relay-set :
    (t : List Access) (q : List (Loc × ℕ)) (a mx my : ℕ) → Relay t q a mx my → Relay t q a 1 my
Relay-set t q a mx my (fresh e f h) = fresh e f h
Relay-set t q a mx my (seen_data e f h k) = seen_data e f h (inr refl)
Relay-set t q a mx my (flag_queued e f h k) = flag_queued e f h (inr refl)
Relay-set t q a mx my (finished e f h k) = finished e f h (inr refl)

pub flag_then_known :
    {t : List Access} {q : List (Loc × ℕ)} {a mx my : ℕ}
    → Relay t q a mx my
    → (my ≢ 1) ⊎ ((my ≡ 1) × Follows a mx)
flag_then_known (fresh e f h) = inl (λ k. omega arith)
flag_then_known (seen_data e f h k) = inl (λ m. omega arith)
flag_then_known (flag_queued e f h k) = inl (λ m. omega arith)
flag_then_known (finished e f h k) = inr (h, k)

pub Reader-store :
    (t : List Access) (l : Loc) (v a c d mx my : ℕ) → Reader (stores l v ∷ t) a c d mx my → ⊥
Reader-store t l v a c d mx my (fresh e) = cc
Reader-store t l v a c d mx my (between e h) = cc
Reader-store t l v a c d mx my (finished e h) = cc

-- The data and the flag can only be set.
pub Reader-set_data :
    (t : List Access) (a c d mx my : ℕ) → Reader t a c d mx my → Reader t a c d 1 my
Reader-set_data t a c d mx my (fresh e) = fresh e
Reader-set_data t a c d mx my (between e (inl h)) = between e (inl h)
Reader-set_data t a c d mx my (between e (inr h)) = between e (inr (h.0, inr refl))
Reader-set_data t a c d mx my (finished e h) = finished e h

pub Reader-set_flag :
    (t : List Access) (a c d mx my : ℕ) → Reader t a c d mx my → Reader t a c d mx 1
Reader-set_flag t a c d mx my (fresh e) = fresh e
Reader-set_flag t a c d mx my (between e (inl h)) = between e (inl h)
Reader-set_flag t a c d mx my (between e (inr h)) = between e (inr (refl, h.1))
Reader-set_flag t a c d mx my (finished e (inl h)) = finished e (inl h)
Reader-set_flag t a c d mx my (finished e (inr h)) = finished e (inr (refl, h.1))

-- Before the flag is set, the reader knows nothing of the middle thread.
pub Reader-relay :
    (t : List Access) (a b c d mx my : ℕ) → my ≡ 0 → Reader t a c d mx my → Reader t b c d mx my
Reader-relay t a b c d mx my none_set (fresh e) = fresh e
Reader-relay t a b c d mx my none_set (between e (inl h)) = between e (inl h)
Reader-relay t a b c d mx my none_set (between e (inr h)) = absurd (omega (arith, h.0))
Reader-relay t a b c d mx my none_set (finished e (inl h)) = finished e (inl h)
Reader-relay t a b c d mx my none_set (finished e (inr h)) = absurd (omega (arith, h.0))

pub Reader-load_flag :
    (t : List Access) (r : Reg) (a c d mx my : ℕ)
    → (my ≢ 1) ⊎ ((my ≡ 1) × Follows a mx)
    → Reader (loads y r ∷ t) a c d mx my
    → (r ≡ ra) × Reader t a my d mx my
Reader-load_flag t r a c d mx my known (fresh e) = (cc, between (cc) known)
Reader-load_flag t r a c d mx my known (between e h) = cc
Reader-load_flag t r a c d mx my known (finished e h) = cc

pub Reader-load_data :
    (t : List Access) (r : Reg) (a c d mx my : ℕ)
    → Reader (loads x r ∷ t) a c d mx my
    → (r ≡ rb) × Reader t a c mx mx my
Reader-load_data t r a c d mx my (fresh e) = cc
Reader-load_data t r a c d mx my (between e h) = (cc, finished (cc) h)
Reader-load_data t r a c d mx my (finished e h) = cc
