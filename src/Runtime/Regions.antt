-- ===== src/Runtime/Regions.antt =====
-- The account of the calls of `mmap` and `munmap` that src/liboryxrun/oryxrun.c makes; whether a mapping can be had is for
-- the host to say. A mapping is known by its number, how many were made before it, which stands for its address; so what
-- was unmapped is never a mapping again, and a second `munmap` of it, or a call into it, is a fault.
use oryx.Prelude.{
  ◌==◌, if◌then◌else◌, ==_refl, Bool-cases, length, ℕ, ◌+◌, ◌<◌, max, ◌≡◌, refl, ap, inl, inr, Bool,
  true, false, ◌&&◌, ◌||◌, List, [], ◌∷◌, arith,
}
use oryx.Errors.{Run, returns, fault}

-- `code` and `map_len` of `struct oryx_exec`, as `munmap` gets them.
pub record Region : Type 0 where
  pub start : ℕ
  pub map_len : ℕ

-- The mappings that are open, the newest first, how many were made, and the most that were open at once.
pub record Space : Type 0 where
  pub made : ℕ
  pub open_regions : List Region
  pub peak : ℕ

unfoldable pub same_region : Region → Region → Bool
same_region a b = a.start == b.start && a.map_len == b.map_len

unfoldable pub is_open : Region → List Region → Bool
is_open r [] = false
is_open r (x ∷ xs) = same_region r x || is_open r xs

unfoldable pub closed : Region → List Region → List Region
closed r [] = []
closed r (x ∷ xs) = let rest = x ∷ closed r xs in if same_region r x then xs else rest

abbrev pub mapping : Space → ℕ → Region
mapping sp map_len = record { start = sp.made; map_len = map_len }

-- A successful `mmap`.
unfoldable pub mmap : ℕ → Space → Space
mmap map_len sp = record {
  made = sp.made + 1;
  open_regions = mapping sp map_len ∷ sp.open_regions;
  peak = max sp.peak (length sp.open_regions + 1);
}

-- `munmap` of what is no mapping is a fault.
unfoldable pub munmap : Region → Space → Run Space
munmap r sp =
    if is_open r sp.open_regions
    then returns (record sp { open_regions = closed r sp.open_regions })
    else fault

-- A run and the rest, which reads its result.
infixl 5 ◌>>!◌
abbrev pub ◌>>!◌ {ℓ ν} : {X : Type ℓ} {Y : Type ν} → Run X → (X → Run Y) → Run Y
fault >>! rest = fault
returns x >>! rest = rest x

-- How often a region is open.
abbrev pub one : Region → Region → ℕ
one q x = if same_region q x then 1 else 0

unfoldable pub count : Region → List Region → ℕ
count q [] = 0
count q (x ∷ xs) = one q x + count q xs

pub same_region_refl : (r : Region) → same_region r r ≡ true
unfolding same_region
same_region_refl r = rw (==_refl r.start, ==_refl r.map_len) refl

pub same_region-eq : (a b : Region) → same_region a b ≡ true → a ≡ b
unfolding same_region
same_region-eq a b h = ground arith

one_other : (q x : Region) → same_region q x ≡ false → one q x ≡ 0
one_other q x h = rw h refl

pub count-is_open : (r : Region) (xs : List Region) → 0 < count r xs → is_open r xs ≡ true
unfolding count is_open
count-is_open r [] h = absurd (omega arith)
count-is_open r (x ∷ xs) h = elim (Bool-cases (same_region r x)) [
  | inl same ↦ rw same refl
  | inr other ↦
      let more : 0 < count r xs = omega (arith, one_other r x other) in
      rw other (count-is_open r xs more)
]

count-closed :
    (q r : Region) (xs : List Region)
    → is_open r xs ≡ true
    → one q r + count q (closed r xs) ≡ count q xs
unfolding count is_open closed
count-closed q r [] h = cc
count-closed q r (x ∷ xs) h = elim (Bool-cases (same_region r x)) [
  | inl same ↦ rw same (ap (λ (y : Region). one q y + count q xs) (same_region-eq r x same))
  | inr other ↦ rw other (omega (arith, count-closed q r xs (rw other at h)))
]

length-closed :
    (r : Region) (xs : List Region) → is_open r xs ≡ true → length (closed r xs) + 1 ≡ length xs
unfolding is_open closed
length-closed r [] h = cc
length-closed r (x ∷ xs) h = elim (Bool-cases (same_region r x)) [
  | inl same ↦ rw same (omega arith)
  | inr other ↦ rw other (omega (arith, length-closed r xs (rw other at h)))
]

-- An open region can be unmapped.
pub munmap-open :
    (r : Region) (sp : Space)
    → 0 < count r sp.open_regions
    → (sp' : Space) × (munmap r sp ≡ returns sp')
      × ((q : Region) → one q r + count q sp'.open_regions ≡ count q sp.open_regions)
      × (length sp'.open_regions + 1 ≡ length sp.open_regions)
      × (sp'.peak ≡ sp.peak)
unfolding munmap
munmap-open r sp h =
    let held = count-is_open r sp.open_regions h in
    (
      record sp { open_regions = closed r sp.open_regions },
      rw held refl,
      λ q. count-closed q r sp.open_regions held,
      length-closed r sp.open_regions held,
      refl,
    )

pub one_refl : (r : Region) → one r r ≡ 1
one_refl r = rw (same_region_refl r) refl

pub none_open : (xs : List Region) → ((q : Region) → count q xs ≡ 0) → xs ≡ []
unfolding count
none_open [] h = refl
none_open (x ∷ xs) h = absurd (omega (arith, h x, one_refl x))

pub one_open :
    (x : Region) (xs : List Region) → ((q : Region) → count q xs ≡ one q x) → length xs ≡ 1
unfolding count
one_open x [] h = absurd (omega (arith, h x, one_refl x))
one_open x (y ∷ ys) h =
    let same : y ≡ x = elim (Bool-cases (same_region y x)) [
      | inl e ↦ same_region-eq y x e
      | inr e ↦ absurd (omega (arith, h y, one_refl y, one_other y x e))
    ] in
    let rest : ys ≡ [] = none_open ys (λ q. omega (arith, h q, ap (one q) same)) in rw rest refl
