-- ===== src/MemModel/Control.antt =====
-- The control bit of a register under `oryx_apply`.
use oryx.Prelude.{
  table-lookup, sym, ℕ, zero, suc, ◌-◌, ◌/◌, ◌%◌, ◌^◌, ◌<◌, ◌≡◌, refl, ap, ◌∙◌, bit_and, bit_or,
  bit_or_digit, bit_and_digit, Bool, true, false, ◌==◌, ==_iff, Bool-cases, inl, inr, arith,
}
use native.Mathlib.Nat.{pow-succ', div-div-eq-div-mul}
use oryx.MemModel.Machine.{Params, applied, apply}

-- The control bit of a register value.
unfoldable pub control : Params → ℕ → Bool
control p v = v / 2 ^ p.control_bit % 2 == 1

half_pow : (k v : ℕ) → v / 2 ^ suc k ≡ v / 2 / 2 ^ k
half_pow k v = rw (pow-succ' 2 k) (sym (div-div-eq-div-mul v 2 (2 ^ k)))

set_bit : (k v : ℕ) → bit_or v (2 ^ k) / 2 ^ k % 2 ≡ 1
set_bit zero v = ground (arith, bit_or_digit v 1)
set_bit (suc k) v =
    let step : bit_or v (2 ^ suc k) / 2 ≡ bit_or (v / 2) (2 ^ k) =
      ground (arith, bit_or_digit v (2 ^ suc k), pow-succ' 2 k) in
    rw (half_pow k (bit_or v (2 ^ suc k)), step) (set_bit k (v / 2))

clear_bit : (k v m : ℕ) → m / 2 ^ k % 2 ≡ 0 → bit_and v m / 2 ^ k % 2 ≡ 0
clear_bit zero v m h = ground (arith, bit_and_digit v m)
clear_bit (suc k) v m h =
    let step : bit_and v m / 2 ≡ bit_and (v / 2) (m / 2) = ground (arith, bit_and_digit v m) in
    rw (half_pow k (bit_and v m), step)
      (clear_bit k (v / 2) (m / 2) (sym (ap (λ t. t % 2) (half_pow k m)) ∙ h))

mask_bit : (k : ℕ) → k < 64 → (2 ^ 64 - 1 - 2 ^ k) / 2 ^ k % 2 ≡ 0
mask_bit k h =
    (==_iff _ _).0 (table-lookup (λ b. (2 ^ 64 - 1 - 2 ^ b) / 2 ^ b % 2 == 0) 64 k h refl)

module _ (p : Params) (fits : p.control_bit < 64) where
  control-applied : (on : Bool) (v : ℕ) → control p (applied p on v) ≡ on
  unfolding control applied
  control-applied true v = (==_iff _ _).1 (set_bit p.control_bit v)
  control-applied false v =
      rw (clear_bit p.control_bit v (2 ^ 64 - 1 - 2 ^ p.control_bit) (mask_bit p.control_bit fits))
        refl

  -- `apply` leaves the control bit as it is told to.
  pub control-apply : (on : Bool) (v : ℕ) → control p (apply p on v) ≡ on
  unfolding apply
  control-apply on v = elim (Bool-cases (applied p on v == v)) [
    | inl same ↦ rw same (ap (control p) (sym ((==_iff _ _).0 same)) ∙ control-applied on v)
    | inr other ↦ rw other (control-applied on v)
  ]
