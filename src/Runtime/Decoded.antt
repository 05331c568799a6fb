-- ===== src/Runtime/Decoded.antt =====
-- From x86 bytes to a mapped region: what src/liboryxdec decodes, src/liboryxtu translates and
-- src/liboryxrun links.
use oryx.Prelude.{
  ltb, leb, ◌==◌, lt→ltb, le→leb, length, All, length-append, ℕ, ◌^◌, ◌≤◌, ◌<◌, ◌≡◌, subst, refl,
  sym, ap, inl, inr, Bool, true, false, ◌&&◌, ◌||◌, List, [], ◌∷◌, ◌++◌, arith,
}
use oryx.Errors.{Result, err, ok, returns}
use oryx.Guest.{Op, Insn, Policy, Strength, load}
use oryx.Wire.{IsByte, IsU64}
use oryx.Decoder.Reader.{Image}
use oryx.Decoder.Block.{decode_block}
use oryx.Decoder.Labels.{is_straight, is_last, IsDecoded}
use oryx.Decoder.Total.{IsRun, decode_block-IsBlock}
use oryx.TransUnit.{Tu}
use oryx.Translator.Emitter.{Stats}
use oryx.Translator.Lowering.{Config}
use oryx.Translator.Block.{config, translate_ex}
use oryx.Translator.Accepts.{ends, fits, is_basic_block}
use oryx.Translator.Verdict.{Verdict, translate_ex-Verdict}
use oryx.Runtime.Linker.{Host, Exec, exec_map_linked, granted}
use oryx.Runtime.BlockCache.{cache_insert}
use oryx.Runtime.Dispatcher.{max_block_ops, GuestState, Session, make_room, placed, load_block}
use oryx.Runtime.Units.{exec_map_linked-translate_ex}

-- Nothing that the decoder emits is refused for its operands.
straight-fits :
    (cfg : Config) (op : Op) (i : Insn)
    → is_straight op ≡ true
    → (fits cfg op i ≡ true) × (ends op ≡ false)
straight-fits cfg load i h = cc
straight-fits cfg _ i h = ground arith

last-fits :
    (cfg : Config) (op : Op) (i : Insn)
    → is_last op ≡ true
    → (fits cfg op i ≡ true) × (ends op ≡ true)
last-fits cfg load i h = cc
last-fits cfg _ i h = ground arith

run-is_basic_block :
    (cfg : Config) (body : List Insn) (last : Insn)
    → All (IsDecoded false) body
    → IsDecoded true last
    → is_basic_block cfg (body ++ last ∷ []) ≡ true
unfolding is_basic_block
run-is_basic_block cfg [] last all d =
    let (fit, end) = last-fits cfg last.op last d.role in
    rw (lt→ltb _ _ d.rd, lt→ltb _ _ d.rn, fit, end) refl
run-is_basic_block cfg (i ∷ body) last (d, all) e =
    let (fit, end) = straight-fits cfg i.op i d.role in
    rw (lt→ltb _ _ d.rd, lt→ltb _ _ d.rn, fit, end) (run-is_basic_block cfg body last all e)

-- What the dispatcher does with the address: it hands on the decoder's code, or has the block in a region.
abbrev pub Serves :
    Host
    → (ℕ → Bool)
    → Policy
    → Strength
    → Session
    → Result (List Insn × ℕ)
    → Result (Session × Exec)
    → Type 0
Serves host realloc policy strength s (err e) r = r ≡ err e
Serves host realloc policy strength s (ok block) r =
    (tu : Tu) × (stats : Stats) × (e : Exec) × (translate_ex realloc block.0 s.pc block.1 0 policy
        strength
      ≡ ok (tu, stats))
    × (exec_map_linked host tu ≡ ok e)
    × (r ≡ placed (make_room s) e (cache_insert (make_room s).slots s.pc))

module _ (fetch : GuestState → ℕ → Result (List Insn × ℕ)) (realloc : ℕ → ℕ → Bool)
    (host : ℕ → Host) (policy : Policy) (strength : Strength)
    (tramp : Exec → GuestState → GuestState × ℕ) (memory : (t n : ℕ) → realloc t n ≡ true)
    (room : (t n : ℕ) → (host t).can_map n ≡ true)
    (allowed : (t n : ℕ) → (host t).protect n ≡ granted) (s : Session) where
  block-Serves :
      (ops : List Insn) (len : ℕ)
      → fetch s.guest s.pc ≡ ok (ops, len)
      → IsRun true ops
      → length ops ≤ max_block_ops
      → Serves
          (host s.taken_steps)
          (realloc s.taken_steps)
          policy
          strength
          s
          (ok (ops, len))
          (load_block fetch realloc host policy strength tramp s)
  unfolding load_block
  block-Serves ops len fetched (body, last, split, all, d) few =
      let block : is_basic_block (config s.pc len policy strength) ops ≡ true =
        rw split (run-is_basic_block (config s.pc len policy strength) body last all d) in
      let accepted : (leb (length ops) (2 ^ 20)
            && is_basic_block (config s.pc len policy strength) ops)
          ≡ true =
        rw (le→leb (length ops) (2 ^ 20) (omega arith), block) refl in
      let ((tu, stats), translated) =
        subst (λ b. Verdict b (translate_ex (realloc s.taken_steps) ops s.pc len 0 policy strength))
          accepted
          (translate_ex-Verdict (realloc s.taken_steps) ops s.pc len 0 policy strength
            (memory s.taken_steps)) in
      let (e, linked, region) =
        exec_map_linked-translate_ex tu (host s.taken_steps) (room s.taken_steps)
          (allowed s.taken_steps) (realloc s.taken_steps) ops s.pc len 0 policy strength stats
          translated in
      let some_ops : (length ops == 0 || ltb max_block_ops (length ops)) ≡ false =
        ground (arith, ap length split, length-append body (last ∷ [])) in
      (tu, stats, e, translated, linked, rw (fetched, some_ops, translated, linked) refl)

  -- If the dispatcher fetches through the decoder and memory and mappings can be had, then loading the
  -- block at an address of an image fails only with the code of the decoder: a block that is
  -- decoded is translated, linked and handed to the block cache.
  pub load_block-decode_block :
      (img : Image)
      → All IsByte img.bytes
      → length img.bytes < 2 ^ 64
      → IsU64 img.base
      → IsU64 s.pc
      → decode_block img max_block_ops s.pc ≡ returns (fetch s.guest s.pc)
      → Serves
          (host s.taken_steps)
          (realloc s.taken_steps)
          policy
          strength
          s
          (fetch s.guest s.pc)
          (load_block fetch realloc host policy strength tramp s)
  unfolding load_block
  load_block-decode_block img bytes small base word fetched =
      elim (decode_block-IsBlock img max_block_ops s.pc bytes small base word) [
        | inl (e, refused) ↦ let same : fetch s.guest s.pc ≡ err e = cc in rw same refl
        | inr (r, gave, block) ↦
            let same : fetch s.guest s.pc ≡ ok r = cc in
            subst
              (λ f.
                Serves (host s.taken_steps) (realloc s.taken_steps) policy strength s f
                  (load_block fetch realloc host policy strength tramp s))
              (sym same) (block-Serves r.0 r.1 same block.run block.few)
      ]
