-- ===== src/MoveWide.antt =====
-- What the AArch64 instructions MOVZ and MOVK do to a 64-bit register, as the architecture's manual says. The constants that
-- src/liboryxtu/oryxtu.c and src/liboryxrun/oryxrun.c load are made of them.
use oryx.Prelude.{
  ◌==◌, if◌then◌else◌, ==_refl, bit_or-high, ℕ, ◌+◌, ◌*◌, ◌/◌, ◌%◌, ◌^◌, ◌<◌, bit_or, ◌≡◌, refl, ap,
  ◌∙◌, not, Option, none, some, List, [], ◌∷◌, ◌++◌, arith,
}
use oryx.Wire.{IsU32, byte_at, put_u32}

-- `x` with the 16 bits at the power `p` of 2 replaced.
abbrev pub with_lane : ℕ → ℕ → ℕ → ℕ
with_lane x p lane = x / (p * 2 ^ 16) * (p * 2 ^ 16) + lane * p + x % p

-- The register `rd`, which holds `x`, after the instruction `w`; `none` if `w` is another instruction or
-- moves to another register. The fields are Rd, imm16, hw and the opcode with sf.
unfoldable pub move_wide : ℕ → ℕ → ℕ → Option ℕ
move_wide rd w x =
    let lane = w / 2 ^ 5 % 2 ^ 16 in
    let p = 2 ^ (16 * (w / 2 ^ 21 % 4)) in
    if not (w % 2 ^ 5 == rd)
    then none
    else (if w / 2 ^ 23 == 0x1A5
        then some (lane * p)
        else (if w / 2 ^ 23 == 0x1E5 then some (with_lane x p lane) else none))

-- A run of little-endian words, all of which move to the register `rd`.
unfoldable pub run_moves : ℕ → List ℕ → ℕ → Option ℕ
run_moves rd [] x = some x
run_moves rd (a ∷ b ∷ c ∷ d ∷ rest) x =
    elim (move_wide rd (a + b * 2 ^ 8 + c * 2 ^ 16 + d * 2 ^ 24) x) [
      | none ↦ none
      | some y ↦ run_moves rd rest y
    ]
run_moves rd _ x = none

-- The word that the two encoders join by `|`.
abbrev pub move_word : ℕ → ℕ → ℕ → ℕ
move_word top lane rd = bit_or (bit_or (top * 2 ^ 21) (lane * 2 ^ 5)) rd

module _ (top lane rd : ℕ) (small : lane < 2 ^ 16) (register : rd < 2 ^ 5) where
  move_word-fields : move_word top lane rd ≡ top * 2 ^ 21 + lane * 2 ^ 5 + rd
  move_word-fields = rw (bit_or-high 21 top (lane * 2 ^ 5) (omega arith)) (
      let joined : top * 2 ^ 21 + lane * 2 ^ 5 ≡ (top * 2 ^ 16 + lane) * 2 ^ 5 = omega arith in
      rw joined (bit_or-high 5 (top * 2 ^ 16 + lane) rd register))

  pub move_word-IsU32 : top < 2 ^ 11 → IsU32 (move_word top lane rd)
  move_word-IsU32 h = omega (arith, move_word-fields)

module _ (rd lane x : ℕ) (register : rd < 2 ^ 5) (small : lane < 2 ^ 16) where
  pub move_wide-movz : move_wide rd (move_word 0x694 lane rd) x ≡ some lane
  unfolding move_wide
  move_wide-movz =
      let w = 0x694 * 2 ^ 21 + lane * 2 ^ 5 + rd in
      let f1 : w % 2 ^ 5 ≡ rd = omega arith in
      let f2 : w / 2 ^ 5 % 2 ^ 16 ≡ lane = omega arith in
      let f3 : w / 2 ^ 21 % 4 ≡ 0 = omega arith in
      let f4 : w / 2 ^ 23 ≡ 0x1A5 = omega arith in
      rw (move_word-fields 0x694 lane rd small register)
        (rw (f1, f2, f3, f4, ==_refl rd) (ap some (omega arith)))

  pub move_wide-movk :
      (hw : ℕ)
      → hw < 4
      → move_wide rd (move_word (0x794 + hw) lane rd) x ≡ some (with_lane x (2 ^ (16 * hw)) lane)
  unfolding move_wide
  move_wide-movk hw h =
      let w = (0x794 + hw) * 2 ^ 21 + lane * 2 ^ 5 + rd in
      let f1 : w % 2 ^ 5 ≡ rd = omega arith in
      let f2 : w / 2 ^ 5 % 2 ^ 16 ≡ lane = omega arith in
      let f3 : w / 2 ^ 21 % 4 ≡ hw = omega arith in
      let f4 : w / 2 ^ 23 ≡ 0x1E5 = omega arith in
      rw (move_word-fields (0x794 + hw) lane rd small register)
        (rw (f1, f2, f3, f4, ==_refl rd) refl)

pub run_moves-put_u32 :
    (rd w x y : ℕ) (rest : List ℕ)
    → IsU32 w
    → move_wide rd w x ≡ some y
    → run_moves rd (put_u32 w ++ rest) x ≡ run_moves rd rest y
unfolding run_moves put_u32
run_moves-put_u32 rd w x y rest small h =
    let whole : byte_at w 0 + byte_at w 8 * 2 ^ 8 + byte_at w 16 * 2 ^ 16 + byte_at w 24 * 2 ^ 24
        ≡ w =
      omega arith in
    ap (λ (o : Option ℕ). elim o [ none ↦ none | some z ↦ run_moves rd rest z ])
      (ap (λ (word : ℕ). move_wide rd word x) whole ∙ h)
