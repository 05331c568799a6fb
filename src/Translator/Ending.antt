-- ===== src/Translator/Ending.antt =====
-- How a terminator leaves the buffers: the code ends in RET, or in one branch whose relocation names it
-- and whose target is the first exit.
use oryx.Prelude.{
  ℕ, ◌+◌, ◌*◌, ◌%◌, ◌^◌, ◌≤◌, ◌<◌, ◌≡◌, refl, sym, ap, ap₂, ◌∙◌, ◌⊎◌, inl, inr, Bool, true, List,
  [], ◌∷◌, ◌++◌, length, length-append, append_assoc, append-nil, ◌==◌, ◌||◌, not, if◌then◌else◌,
  Bool-cases, bit_or-high, bit_and_low, arith,
}
use oryx.Errors.{◌>>=◌, Ensures}
use oryx.Wire.{put_u32}
use oryx.TransUnit.{Reloc, reloc_branch_guest_pc}
use oryx.Translator.Encoders.{enc_ret, enc_b, enc_bcond}
use oryx.Translator.Emitter.{
  Emitter, Step, ◌>=>◌, is_full, next_cap, appended, buf_emit32, emit, add_reloc, add_exit,
  terminate,
}
use oryx.Translator.Growth.{bytes_of, append-bytes_of, Grows}

-- The word of an unlinked B or B.cond: its offset field is 0.
abbrev pub IsBranch : ℕ → Type 0
IsBranch w = (w ≡ enc_b) ⊎ ((c : ℕ) × (c < 16) × (w ≡ 0x54000000 + c))

pub enc_bcond-IsBranch : (cond : ℕ) → IsBranch (enc_bcond cond)
unfolding enc_bcond
enc_bcond-IsBranch cond = inr (
  cond % 16,
  omega arith,
  rw (bit_and_low 4 cond) (bit_or-high 4 0x5400000 (cond % 16) (omega arith)),
)

abbrev pub site : ℕ → ℕ → Reloc
site offset target = record {
  offset = offset % 2 ^ 32;
  kind = reloc_branch_guest_pc;
  guest_target = target;
}

pub record EndsInRet (k : ℕ) (st st' : Emitter) : Type 0 where
  pub words :
      (ws : List ℕ) × (length ws ≤ k)
      × (st'.code.bytes ≡ st.code.bytes ++ bytes_of (ws ++ enc_ret ∷ []))
  pub same_relocs : st'.relocs ≡ st.relocs
  pub same_exits : st'.exits ≡ st.exits
  pub ended : st'.terminated ≡ true

pub record EndsInBranch (k : ℕ) (st st' : Emitter) : Type 0 where
  pub ws : List ℕ
  pub few : length ws ≤ k
  pub w : ℕ
  pub branch : IsBranch w
  pub target : ℕ
  pub others : List ℕ
  pub code : st'.code.bytes ≡ st.code.bytes ++ bytes_of (ws ++ w ∷ [])
  pub relocs : st'.relocs ≡ st.relocs ++ site (length (st.code.bytes ++ bytes_of ws)) target ∷ []
  pub exits : st'.exits ≡ st.exits ++ target ∷ others
  pub ended : st'.terminated ≡ true

after_words :
    (xs us vs : List ℕ) (w : ℕ)
    → (xs ++ bytes_of us) ++ bytes_of (vs ++ w ∷ []) ≡ xs ++ bytes_of ((us ++ vs) ++ w ∷ [])
after_words xs us vs w =
    append-bytes_of xs us (vs ++ w ∷ [])
    ∙ ap (λ t. xs ++ bytes_of t) (sym (append_assoc us vs (w ∷ [])))

-- Straight code in front of a terminator.
pub EndsInRet-after :
    (j k : ℕ) (a b c : Emitter) → Grows j a b → EndsInRet k b c → EndsInRet (j + k) a c
EndsInRet-after j k a b c p q =
    let (us, small_us, pu) = p.words in
    let (vs, small_vs, pv) = q.words in
    record {
      words = (
        us ++ vs,
        omega (arith, length-append us vs),
        pv
            ∙ ap (λ t. t ++ bytes_of (vs ++ enc_ret ∷ [])) pu
            ∙ after_words a.code.bytes us vs enc_ret,
      );
      same_relocs = q.same_relocs ∙ p.same_relocs;
      same_exits = q.same_exits ∙ p.same_exits;
      ended = q.ended;
    }

pub EndsInBranch-after :
    (j k : ℕ) (a b c : Emitter) → Grows j a b → EndsInBranch k b c → EndsInBranch (j + k) a c
EndsInBranch-after j k a b c p q =
    let (us, small_us, pu) = p.words in
    record {
      ws = us ++ q.ws;
      few = omega (arith, length-append us q.ws, q.few);
      w = q.w;
      branch = q.branch;
      target = q.target;
      others = q.others;
      code =
          q.code
          ∙ ap (λ t. t ++ bytes_of (q.ws ++ q.w ∷ [])) pu
          ∙ after_words a.code.bytes us q.ws q.w;
      relocs =
          q.relocs
          ∙ ap₂ (λ r (t : List ℕ). r ++ site (length t) q.target ∷ []) p.same_relocs
              (ap (λ t. t ++ bytes_of q.ws) pu ∙ append-bytes_of a.code.bytes us q.ws);
      exits = q.exits ∙ ap (λ t. t ++ q.target ∷ q.others) p.same_exits;
      ended = q.ended;
    }

-- The state behind ADD_RELOC and ADD_EXIT, where they do not fail.
with_reloc : ℕ → Emitter → Emitter
with_reloc target st = record st {
  relocs = st.relocs ++ site (length st.code.bytes) target ∷ [];
  reloc_cap =
      if length st.relocs == st.reloc_cap
      then (if st.reloc_cap == 0 then 4 else st.reloc_cap * 2)
      else st.reloc_cap;
}

with_exit : ℕ → Emitter → Emitter
with_exit pc st = record st {
  exits = st.exits ++ pc ∷ [];
  exit_cap =
      if length st.exits == st.exit_cap
      then (if st.exit_cap == 0 then 4 else st.exit_cap * 2)
      else st.exit_cap;
}

with_word : ℕ → Emitter → Emitter
with_word w st = record st { code = appended w st.code }

module _ (realloc : ℕ → Bool) (P : Emitter → Type 0) (st : Emitter) (g : Step) where
  add_reloc-then :
      (target : ℕ)
      → Ensures (g (with_reloc target st)) P
      → Ensures (add_reloc realloc target st >>= g) P
  unfolding add_reloc with_reloc
  add_reloc-then target h =
      elim (Bool-cases (
        not (length st.relocs == st.reloc_cap)
        || realloc ((if st.reloc_cap == 0 then 4 else st.reloc_cap * 2) * 16))) [
          | inl room ↦ rw room h
          | inr stuck ↦ rw stuck tt
        ]

  add_exit-then :
      (pc : ℕ) → Ensures (g (with_exit pc st)) P → Ensures (add_exit realloc pc st >>= g) P
  unfolding add_exit with_exit
  add_exit-then pc h =
      elim (Bool-cases (
        not (length st.exits == st.exit_cap)
        || realloc ((if st.exit_cap == 0 then 4 else st.exit_cap * 2) * 8))) [
          | inl room ↦ rw room h
          | inr stuck ↦ rw stuck tt
        ]

  emit-then : (w : ℕ) → Ensures (g (with_word w st)) P → Ensures (emit realloc w st >>= g) P
  unfolding emit buf_emit32 with_word
  emit-then w h = elim (Bool-cases (not (is_full st.code) || realloc (next_cap st.code))) [
    | inl room ↦ rw room h
    | inr stuck ↦ rw stuck tt
  ]

module _ (realloc : ℕ → Bool) (st : Emitter) where
  pub ret_tail : Ensures ((emit realloc enc_ret >=> terminate) st) (EndsInRet 0 st)
  ret_tail = emit-then realloc (EndsInRet 0 st) st terminate enc_ret (record {
    words = ([], omega arith, unfold with_word appended put_u32 in refl);
    same_relocs = unfold with_word in refl;
    same_exits = unfold with_word in refl;
    ended = refl;
  })

  module _ (target w : ℕ) (branch : IsBranch w) where
    abbrev jumped : Emitter
    jumped = with_exit target (with_word w (with_reloc target st))

    -- JMP and CALL have one exit, BR a second for the fall-through.
    pub jump_tail :
        Ensures
          ((add_reloc realloc target >=> emit realloc w >=> add_exit realloc target >=> terminate)
            st)
          (EndsInBranch 0 st)
    jump_tail = add_reloc-then realloc (EndsInBranch 0 st) st _ target (
        emit-then realloc (EndsInBranch 0 st) (with_reloc target st) _ w (
          add_exit-then realloc (EndsInBranch 0 st) (with_word w (with_reloc target st)) _ target
            (record {
              ws = [];
              few = omega arith;
              w = w;
              branch = branch;
              target = target;
              others = [];
              code =
                  unfold with_exit with_word with_reloc appended in
                  ap (λ t. st.code.bytes ++ t) (sym (append-nil (put_u32 w)));
              relocs = unfold with_exit with_word with_reloc in rw append-nil;
              exits = unfold with_exit with_word with_reloc in refl;
              ended = refl;
            })))

    pub cond_tail :
        (fallthrough : ℕ)
        → Ensures
            ((add_reloc realloc target
                >=> emit realloc w
                >=> add_exit realloc target
                >=> add_exit realloc fallthrough
                >=> terminate)
              st)
            (EndsInBranch 0 st)
    cond_tail fallthrough = add_reloc-then realloc (EndsInBranch 0 st) st _ target (
        emit-then realloc (EndsInBranch 0 st) (with_reloc target st) _ w (
          add_exit-then realloc (EndsInBranch 0 st) (with_word w (with_reloc target st)) _ target (
            add_exit-then realloc (EndsInBranch 0 st) jumped terminate fallthrough (record {
              ws = [];
              few = omega arith;
              w = w;
              branch = branch;
              target = target;
              others = fallthrough ∷ [];
              code =
                  unfold with_exit with_word with_reloc appended in
                  ap (λ t. st.code.bytes ++ t) (sym (append-nil (put_u32 w)));
              relocs = unfold with_exit with_word with_reloc in rw append-nil;
              exits =
                  unfold with_exit with_word with_reloc in
                  append_assoc st.exits (target ∷ []) (fallthrough ∷ []);
              ended = refl;
            }))))
