-- ===== src/Translator/Constants.antt =====
-- The constants that `emit_movimm` of src/liboryxtu/oryxtu.c loads.
use oryx.Prelude.{
  ◌==◌, Bool-cases, bit_and_low, ℕ, ◌+◌, ◌*◌, ◌/◌, ◌%◌, ◌^◌, ◌<◌, bit_and, bit_or, ◌≡◌, subst, refl,
  sym, ap, ◌∙◌, inl, inr, Bool, true, some, List, [], ◌++◌, append_assoc, append-nil, arith,
}
use oryx.Errors.{ok}
use oryx.Wire.{IsU32, IsU64, put_u32}
use oryx.MoveWide.{
  with_lane, move_wide, run_moves, move_word, move_word-IsU32, move_wide-movz, move_wide-movk,
  run_moves-put_u32,
}
use oryx.Translator.Encoders.{enc_movz, enc_movk}
use oryx.Translator.Emitter.{
  Emitter, Step, ◌>=>◌, is_full, next_cap, appended, buf_emit32, emit, emit_lane, emit_movimm,
}

-- A step that emits moves to the register `rd`, which take it from `x` to `y`.
record Loads (rd x y : ℕ) (f : Step) : Type 0 where
  run :
      (st : Emitter)
      → (st' : Emitter) × (bs : List ℕ) × (f st ≡ ok st')
        × (st'.code.bytes ≡ st.code.bytes ++ bs)
        × ((rest : List ℕ) → run_moves rd (bs ++ rest) x ≡ run_moves rd rest y)

Loads-then : (rd x y z : ℕ) (f g : Step) → Loads rd x y f → Loads rd y z g → Loads rd x z (f >=> g)
Loads-then rd x y z f g p q = record {
  run = λ st.
      let (a, bs, fa, ba, ra) = p.run st in
      let (b, cs, gb, bb, rb) = q.run a in
      (
        b,
        bs ++ cs,
        rw fa gb,
        bb ∙ ap (λ t. t ++ cs) ba ∙ append_assoc st.code.bytes bs cs,
        λ rest. ap (λ t. run_moves rd t x) (append_assoc bs cs rest) ∙ ra (cs ++ rest) ∙ rb rest,
      );
}

Loads-nothing : (rd x : ℕ) → Loads rd x x ok
Loads-nothing rd x = record {
  run = λ st. (st, [], refl, sym (append-nil st.code.bytes), λ rest. refl);
}

Loads-same :
    (rd x y : ℕ) (f g : Step) → ((st : Emitter) → g st ≡ f st) → Loads rd x y f → Loads rd x y g
Loads-same rd x y f g same p = record {
  run = λ st. let (a, bs, fa, ba, ra) = p.run st in (a, bs, same st ∙ fa, ba, ra);
}

enc_movk-move_word :
    (rd hw lane : ℕ)
    → bit_or 0xF2800000 (hw * 2 ^ 21) ≡ (0x794 + hw) * 2 ^ 21
    → lane < 2 ^ 16
    → enc_movk rd lane hw ≡ move_word (0x794 + hw) lane rd
unfolding enc_movk
enc_movk-move_word rd hw lane top small =
    rw (bit_and_low 16 lane) (
      rw top (ap (λ (k : ℕ). bit_or (bit_or ((0x794 + hw) * 2 ^ 21) (k * 2 ^ 5)) rd) (omega arith)))

enc_movz-move_word : (rd v : ℕ) → enc_movz rd (bit_and v 0xffff) 0 ≡ move_word 0x694 (v % 2 ^ 16) rd
unfolding enc_movz
enc_movz-move_word rd v = rw (bit_and_low 16 v) (
    rw (bit_and_low 16 (v % 2 ^ 16))
      (ap (λ (k : ℕ). bit_or (bit_or 0xD2800000 (k * 2 ^ 5)) rd) (omega arith)))

module _ (realloc : ℕ → Bool) (room : (n : ℕ) → realloc n ≡ true) where
  Loads-emit : (rd x y w : ℕ) → IsU32 w → move_wide rd w x ≡ some y → Loads rd x y (emit realloc w)
  unfolding emit buf_emit32 appended
  Loads-emit rd x y w small h = record {
    run = λ st. (
      record st { code = appended w st.code },
      put_u32 w,
      elim (Bool-cases (is_full st.code)) [
        | inl full ↦ rw (full, room (next_cap st.code)) refl
        | inr free ↦ rw free refl
      ],
      refl,
      λ rest. run_moves-put_u32 rd w x y rest small h,
    );
  }

  module _ (rd v : ℕ) (register : rd < 31) where
    first_lane : (x : ℕ) → Loads rd x (v % 2 ^ 16) (emit realloc (enc_movz rd (bit_and v 0xffff) 0))
    first_lane x = rw (enc_movz-move_word rd v) (
        Loads-emit rd x (v % 2 ^ 16) _
          (move_word-IsU32 0x694 (v % 2 ^ 16) rd (omega arith) (omega arith) (omega arith))
          (move_wide-movz rd (v % 2 ^ 16) x (omega arith) (omega arith)))

    module _ (hw x y : ℕ) (few : hw < 4)
        (top : bit_or 0xF2800000 (hw * 2 ^ 21) ≡ (0x794 + hw) * 2 ^ 21)
        (joined : with_lane x (2 ^ (16 * hw)) (v / 2 ^ (16 * hw) % 2 ^ 16) ≡ y) where
      abbrev lane : ℕ
      lane = v / 2 ^ (16 * hw) % 2 ^ 16

      moved : Loads rd x y (emit realloc (enc_movk rd lane hw))
      moved = rw (enc_movk-move_word rd hw lane top (omega arith)) (
          Loads-emit rd x y _
            (move_word-IsU32 (0x794 + hw) lane rd (omega arith) (omega arith) (omega arith))
            (move_wide-movk rd lane x (omega arith) (omega arith) hw few ∙ ap some joined))

      -- The code skips a lane that is 0.
      later_lane : (lane ≡ 0 → x ≡ y) → Loads rd x y (emit_lane realloc rd v hw)
      unfolding emit_lane
      later_lane skipped =
          let low : bit_and (v / 2 ^ (16 * hw)) 0xffff ≡ lane =
            bit_and_low 16 (v / 2 ^ (16 * hw)) in
          elim (Bool-cases (lane == 0)) [
            | inl empty ↦
                Loads-same rd x y ok _ (λ st. rw (low, empty) refl)
                  (subst (λ t. Loads rd x t ok) (skipped (ground (arith, empty)))
                    (Loads-nothing rd x))
            | inr full ↦ Loads-same rd x y _ _ (λ st. rw (low, full) refl) moved
          ]

  -- If memory can be had, then the code that `emit_movimm` appends for a register below 31 is a run
  -- of MOVZ and MOVK of this register, and whatever the register holds before it, it holds the
  -- 64-bit constant after it.
  pub emit_movimm-run_moves :
      (rd v x : ℕ) (st : Emitter)
      → rd < 31
      → IsU64 v
      → (st' : Emitter) × (bs : List ℕ) × (emit_movimm realloc rd v st ≡ ok st')
        × (st'.code.bytes ≡ st.code.bytes ++ bs)
        × (run_moves rd bs x ≡ some v)
  unfolding emit_movimm run_moves
  emit_movimm-run_moves rd v x st register fits =
      let moves = Loads-then rd x _ v _ _ (first_lane rd v register x) (
        Loads-then rd _ (v % 2 ^ 32) v _ _
          (later_lane rd v register 1 _ _ (omega arith) refl (omega arith) (λ e. omega arith))
          (Loads-then rd _ (v % 2 ^ 48) v _ _
            (later_lane rd v register 2 _ _ (omega arith) refl (omega arith) (λ e. omega arith))
            (later_lane rd v register 3 _ _ (omega arith) refl (omega arith)
              (λ e. omega arith)))) in
      let (st', bs, emitted, appends, loads) = moves.run st in
      (st', bs, emitted, appends, ap (λ t. run_moves rd t x) (sym (append-nil bs)) ∙ loads [])
