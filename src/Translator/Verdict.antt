-- ===== src/Translator/Verdict.antt =====
-- `oryx_translate_ex` of src/liboryxtu/oryxtu.c translates the basic blocks, and refuses every other list.
use oryx.Prelude.{
  ltb, leb, ◌==◌, if◌then◌else◌, length, ℕ, ◌^◌, ◌≡◌, refl, ◌∙◌, ◌⊎◌, inl, inr, Bool, true, false,
  ◌&&◌, ◌||◌, not, List, [], ◌∷◌, arith,
}
use oryx.Errors.{Result, ◌>>=◌, inval, err, ok}
use oryx.Guest.{gr_count, Insn, Policy, Strength}
use oryx.TransUnit.{Tu}
use oryx.Translator.Emitter.{Stats, Emitter, start, Step}
use oryx.Translator.Lowering.{Config}
use oryx.Translator.Block.{finish, config, translate_ops, translate_ex}
use oryx.Translator.Accepts.{
  ends, fits, has_registers, is_empty, is_basic_block, Lowers, lower-Lowers,
}

-- The loop's end, as `accepted` foretells it: the block is complete, or it is refused now or at the end.
abbrev Loops : Bool → Result Emitter → Type 0
Loops true r = (st : Emitter) × (r ≡ ok st) × (st.terminated ≡ true)
Loops false r = (r ≡ err inval) ⊎ ((st : Emitter) × (r ≡ ok st) × (st.terminated ≡ false))

module _ (realloc : ℕ → Bool) (room : (n : ℕ) → realloc n ≡ true) (cfg : Config) where
  -- Behind the end of a block there can be no instruction.
  at_end :
      (ops : List Insn) (st : Emitter)
      → st.terminated ≡ true
      → Loops (is_empty ops) (translate_ops realloc cfg ops st)
  unfolding translate_ops
  at_end [] st t = (st, refl, t)
  at_end (i ∷ ops) st t = inl (rw t refl)

  module _ (ops : List Insn) (st : Emitter) (going : st.terminated ≡ false)
      (ih : (b : Emitter)
        → b.terminated ≡ false
        → Loops (is_basic_block cfg ops) (translate_ops realloc cfg ops b)) where
    after :
        (good last : Bool) (f : Step)
        → Lowers good last f
        → Loops
            (good && (if last then is_empty ops else is_basic_block cfg ops))
            (f st >>= translate_ops realloc cfg ops)
    after true true f p = let (b, fb, tb) = p.run st in rw fb (at_end ops b tb)
    after true false f p = let (b, fb, tb) = p.run st in rw fb (ih b (tb ∙ going))
    after false last f p = inl (rw (p.run st) refl)

  registers : (rd rn : ℕ) → (leb gr_count rd || leb gr_count rn) ≡ not (ltb rd 16 && ltb rn 16)
  registers rd rn = ground arith

  guarded :
      (bad good rest : Bool) (r : Result Emitter)
      → bad ≡ not good
      → Loops rest r
      → Loops (good && rest) (if bad then err inval else r)
  guarded true true rest r e p = cc
  guarded true false rest r e p = inl refl
  guarded false true rest r e p = p
  guarded false false rest r e p = cc

  still_going :
      (b rest : Bool) (r : Result Emitter)
      → b ≡ false
      → Loops rest r
      → Loops rest (if b then err inval else r)
  still_going true rest r e p = cc
  still_going false rest r e p = p

  pub translate_ops-Loops :
      (ops : List Insn) (st : Emitter)
      → st.terminated ≡ false
      → Loops (is_basic_block cfg ops) (translate_ops realloc cfg ops st)
  unfolding translate_ops is_basic_block
  translate_ops-Loops [] st going = inr (st, refl, going)
  translate_ops-Loops (i ∷ ops) st going =
      still_going st.terminated (is_basic_block cfg (i ∷ ops)) _ going (
        guarded (leb gr_count i.rd || leb gr_count i.rn) (has_registers i) _ _ (registers i.rd i.rn)
          (after ops st going (translate_ops-Loops ops) (fits cfg i.op i) (ends i.op) _
            (lower-Lowers realloc room cfg i.op i)))

-- The answer of the translator: a unit, or the refusal of its argument.
abbrev pub Verdict {ℓ} : {A : Type ℓ} → Bool → Result A → Type ℓ
Verdict {A = A} true r = (v : A) × (r ≡ ok v)
Verdict false r = r ≡ err inval

module _ (ops : List Insn) (guest_pc guest_len profile_id : ℕ) (policy : Policy)
    (strength : Strength) where
  abbrev done : Emitter → Result (Tu × Stats)
  done = finish ops guest_pc guest_len profile_id policy strength

  finish-Verdict : (b : Bool) (r : Result Emitter) → Loops b r → Verdict b (r >>= done)
  unfolding finish
  finish-Verdict true r (st, e, t) = rw (e, t) (_, refl)
  finish-Verdict false r (inl refused) = rw refused refl
  finish-Verdict false r (inr (st, e, t)) = rw (e, t) refl

-- The guard on the length, in front of the rest.
sized {ℓ} :
    {A : Type ℓ} (none_given too_many fit good : Bool) (r : Result A)
    → fit ≡ not too_many
    → (none_given ≡ true → good ≡ false)
    → Verdict good r
    → Verdict (fit && good) (if none_given || too_many then err inval else r)
sized true true true good r e empty v = cc
sized true true false good r e empty v = refl
sized true false true true r e empty v = cc (empty refl)
sized true false true false r e empty v = refl
sized true false false good r e empty v = cc
sized false true true good r e empty v = cc
sized false true false good r e empty v = refl
sized false false true good r e empty v = v
sized false false false good r e empty v = cc

no_block :
    (cfg : Config) (ops : List Insn) → (length ops == 0) ≡ true → is_basic_block cfg ops ≡ false
unfolding is_basic_block
no_block cfg [] h = refl
no_block cfg (i ∷ ops) h = ground arith

at_most : (n : ℕ) → leb n (2 ^ 20) ≡ not (ltb (2 ^ 20) n)
at_most n = ground arith

-- If memory can be had, `translate_ex` translates a list of instructions if and only if it is a basic
-- block of at most 2^20 of them, and refuses every other list as invalid.
pub translate_ex-Verdict :
    (realloc : ℕ → Bool) (ops : List Insn) (guest_pc guest_len profile_id : ℕ) (policy : Policy)
    (strength : Strength)
    → ((n : ℕ) → realloc n ≡ true)
    → Verdict
        (leb (length ops) (2 ^ 20)
          && is_basic_block (config guest_pc guest_len policy strength) ops)
        (translate_ex realloc ops guest_pc guest_len profile_id policy strength)
unfolding translate_ex
translate_ex-Verdict realloc ops guest_pc guest_len profile_id policy strength room =
    sized (length ops == 0) (ltb (2 ^ 20) (length ops)) (leb (length ops) (2 ^ 20)) _ _
      (at_most (length ops)) (no_block (config guest_pc guest_len policy strength) ops)
      (finish-Verdict ops guest_pc guest_len profile_id policy strength _ _ (
        translate_ops-Loops realloc room (config guest_pc guest_len policy strength) ops start
          refl))
