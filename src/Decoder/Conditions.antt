-- ===== src/Decoder/Conditions.antt =====
-- Conditional branches from src/liboryxdec/oryxdec.c to src/liboryxtu/oryxtu.c: the x86 condition of a Jcc becomes the
-- condition field of a B.cond, under which the architectures' manuals name the same flags.
use oryx.Prelude.{
  ◌==◌, if◌then◌else◌, ℕ, zero, suc, ◌/◌, ◌%◌, ◌^◌, ◌≡◌, refl, ◌⊎◌, inl, inr, Bool, true, false,
  ◌&&◌, ◌||◌, not, some, List, [], ◌∷◌, arith,
}
use oryx.Decoder.Instructions.{x86cc_to_gcc}
use oryx.Translator.Encoders.{enc_bcond, arm_cond}
use oryx.Guest.{gcc_eq, gcc_ne, gcc_lt, gcc_ge, gcc_le, gcc_gt}

abbrev agree : Bool → Bool → Bool
agree true b = b
agree false b = not b

abbrev pick : ℕ → List Bool → Bool
pick zero (b ∷ bs) = b
pick (suc k) (b ∷ bs) = pick k bs
pick _ [] = false

-- The upper three bits of a condition pick a test, the lowest one negates it.
abbrev holds : List Bool → ℕ → Bool
holds tests code = let test = pick (code / 2) tests in if code % 2 == 1 then not test else test

-- `ConditionHolds` of the AArch64 manual, on the flags N, Z, C and V; 15 is as 14.
unfoldable pub arm_holds : Bool → Bool → Bool → Bool → ℕ → Bool
arm_holds n z c v code =
    let tests = z ∷ c ∷ n ∷ v ∷ (c && not z) ∷ agree n v ∷ (agree n v && not z) ∷ true ∷ [] in
    if code == 15 then true else holds tests code

-- The conditions of a Jcc in the x86 manual, on the flags SF, ZF, CF, OF and PF.
unfoldable pub x86_holds : Bool → Bool → Bool → Bool → Bool → ℕ → Bool
x86_holds sf zf cf of pf code =
    let differ = not (agree sf of) in
    holds (of ∷ cf ∷ zf ∷ (cf || zf) ∷ sf ∷ pf ∷ differ ∷ (zf || differ) ∷ []) code

-- The field of a B.cond.
abbrev pub cond_field : ℕ → ℕ
cond_field w = w % 2 ^ 4

-- The codes that the decoder knows.
known_codes :
    (code gcc : ℕ)
    → x86cc_to_gcc code ≡ some gcc
    → ((code ≡ 4) × (gcc ≡ gcc_eq))
      ⊎ ((code ≡ 5) × (gcc ≡ gcc_ne))
      ⊎ ((code ≡ 12) × (gcc ≡ gcc_lt))
      ⊎ ((code ≡ 13) × (gcc ≡ gcc_ge))
      ⊎ ((code ≡ 14) × (gcc ≡ gcc_le))
      ⊎ ((code ≡ 15) × (gcc ≡ gcc_gt))
unfolding x86cc_to_gcc
known_codes code gcc h = ground arith

not-not : (b : Bool) → b ≡ not (not b)
not-not true = refl
not-not false = refl

negated_and : (a b : Bool) → not (a && not b) ≡ (b || not a)
negated_and true true = refl
negated_and true false = refl
negated_and false true = refl
negated_and false false = refl

neither : (a b : Bool) → (a && not b) ≡ not (b || not a)
neither true true = refl
neither true false = refl
neither false true = refl
neither false false = refl

-- If the decoder knows the condition code of a Jcc, then the B.cond that the translator emits for
-- its condition is taken exactly when the Jcc would be, on host flags N, Z and V that are the
-- guest's SF, ZF and OF, whatever the other flags are.
pub arm_cond-x86cc_to_gcc :
    (code gcc : ℕ) (n z v c cf pf : Bool)
    → x86cc_to_gcc code ≡ some gcc
    → arm_holds n z c v (cond_field (enc_bcond (arm_cond gcc))) ≡ x86_holds n z cf v pf code
unfolding arm_holds x86_holds enc_bcond arm_cond
arm_cond-x86cc_to_gcc code gcc n z v c cf pf h = elim (known_codes code gcc h) [
  | inl e ↦ rw (e.0, e.1) refl
  | inr (inl e) ↦ rw (e.0, e.1) refl
  | inr (inr (inl e)) ↦ rw (e.0, e.1) refl
  | inr (inr (inr (inl e))) ↦ rw (e.0, e.1) (not-not (agree n v))
  | inr (inr (inr (inr (inl e)))) ↦ rw (e.0, e.1) (negated_and (agree n v) z)
  | inr (inr (inr (inr (inr e)))) ↦ rw (e.0, e.1) (neither (agree n v) z)
]
