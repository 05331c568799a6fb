-- ===== src/Probe/Bits.antt =====
-- A poke changes one bit of a value.
use oryx.Prelude.{
  ◌==◌, if◌then◌else◌, table, table-lookup, bit_or_digit, bit_and_digit, ℕ, zero, suc, ◌-◌, ◌/◌,
  ◌%◌, ◌^◌, ◌<◌, bit_and, bit_or, min, max, ◌≡◌, refl, sym, ap, Bool, true, false, ◌&&◌, arith,
}
use native.Mathlib.Nat.{pow-succ', div-div-eq-div-mul}
use oryx.Probe.Commands.{poked}

abbrev pub bit_at : ℕ → ℕ → ℕ
bit_at j v = v / 2 ^ j % 2

bit_at-suc : (j v : ℕ) → bit_at (suc j) v ≡ bit_at j (v / 2)
bit_at-suc j v = rw (pow-succ' 2 j) (ap (λ t. t % 2) (sym (div-div-eq-div-mul v 2 (2 ^ j))))

bit_at-bit_or : (j v w : ℕ) → bit_at j (bit_or v w) ≡ max (bit_at j v) (bit_at j w)
bit_at-bit_or zero v w = ground (arith, bit_or_digit v w)
bit_at-bit_or (suc j) v w =
    let half : bit_or v w / 2 ≡ bit_or (v / 2) (w / 2) = ground (arith, bit_or_digit v w) in
    rw (bit_at-suc j (bit_or v w), half, bit_at-suc j v, bit_at-suc j w)
      (bit_at-bit_or j (v / 2) (w / 2))

bit_at-bit_and : (j v w : ℕ) → bit_at j (bit_and v w) ≡ min (bit_at j v) (bit_at j w)
bit_at-bit_and zero v w = ground (arith, bit_and_digit v w)
bit_at-bit_and (suc j) v w =
    let half : bit_and v w / 2 ≡ bit_and (v / 2) (w / 2) = ground (arith, bit_and_digit v w) in
    rw (bit_at-suc j (bit_and v w), half, bit_at-suc j v, bit_at-suc j w)
      (bit_at-bit_and j (v / 2) (w / 2))

-- The two masks, by evaluation.
abbrev mask_test : ℕ → ℕ → Bool
mask_test b j =
    bit_at j (2 ^ b) == (if j == b then 1 else 0)
    && bit_at j (2 ^ 64 - 1 - 2 ^ b) == (if j == b then 0 else 1)

mask_lem : (b j : ℕ) → b < 64 → j < 64 → mask_test b j ≡ true
mask_lem b j hb hj =
    table-lookup (mask_test b) 64 j hj (table-lookup (λ b. table (mask_test b) 64) 64 b hb refl)

-- The bits of a poked value: the chosen one is as told, the others are as before.
pub bit_at-poked :
    (b : ℕ) (on : Bool) (v j : ℕ)
    → b < 64
    → j < 64
    → bit_at j (poked b on v) ≡ (if j == b then (if on then 1 else 0) else bit_at j v)
unfolding poked
bit_at-poked b true v j hb hj = rw (bit_at-bit_or j v (2 ^ b)) (ground (arith, mask_lem b j hb hj))
bit_at-poked b false v j hb hj =
    rw (bit_at-bit_and j v (2 ^ 64 - 1 - 2 ^ b)) (ground (arith, mask_lem b j hb hj))
