-- ===== src/Translator/Growth.antt =====
-- What a step of the translator does to its buffers: a straight piece of code appends whole words and
-- leaves the relocations and the exits alone; a terminator ends in RET, or in one relocated branch.
use oryx.Prelude.{
  ℕ, ◌+◌, ◌*◌, ◌/◌, bit_and, ◌^◌, ◌≤◌, ◌≡◌, refl, sym, ap, ◌∙◌, inl, inr, Bool, true, false, List,
  [], ◌∷◌, ◌++◌, length, length-append, append_assoc, append-nil, ◌==◌, ◌||◌, not, if◌then◌else◌,
  Bool-cases, arith,
}
use oryx.Errors.{Error, Ensures, Ensures-bind, Ensures-weaken}
use oryx.Wire.{put_u32}
use oryx.Wire.Codec.{length-put_u32}
use oryx.Translator.Encoders.{enc_movk}
use oryx.Translator.Emitter.{
  Emitter, Stats, Step, ◌>=>◌, fail, is_full, next_cap, appended, buf_emit32, emit, emit_lane,
  emit_movimm, count,
}

-- The bytes of a sequence of instruction words.
abbrev pub bytes_of : List ℕ → List ℕ
bytes_of [] = []
bytes_of (w ∷ ws) = put_u32 w ++ bytes_of ws

pub bytes_of-append : (xs ys : List ℕ) → bytes_of (xs ++ ys) ≡ bytes_of xs ++ bytes_of ys
bytes_of-append [] ys = refl
bytes_of-append (x ∷ xs) ys =
    ap (λ t. put_u32 x ++ t) (bytes_of-append xs ys) ∙ sym (append_assoc (put_u32 x) _ _)

pub append-bytes_of :
    (xs us vs : List ℕ) → (xs ++ bytes_of us) ++ bytes_of vs ≡ xs ++ bytes_of (us ++ vs)
append-bytes_of xs us vs =
    append_assoc xs (bytes_of us) (bytes_of vs) ∙ ap (λ t. xs ++ t) (sym (bytes_of-append us vs))

pub length-bytes_of : (ws : List ℕ) → length (bytes_of ws) ≡ 4 * length ws
length-bytes_of [] = refl
length-bytes_of (w ∷ ws) =
    omega (arith, length-append (put_u32 w) (bytes_of ws), length-put_u32 w, length-bytes_of ws)

-- At most `k` words are appended, and nothing else of the loop's locals but the counts changes.
pub record Grows (k : ℕ) (st st' : Emitter) : Type 0 where
  pub words : (ws : List ℕ) × (length ws ≤ k) × (st'.code.bytes ≡ st.code.bytes ++ bytes_of ws)
  pub same_relocs : st'.relocs ≡ st.relocs
  pub same_exits : st'.exits ≡ st.exits
  pub same_terminated : st'.terminated ≡ st.terminated

pub record GrowsBy (k : ℕ) (f : Step) : Type 0 where
  pub run : (st : Emitter) → Ensures (f st) (Grows k st)

pub Grows-trans : (j k : ℕ) (a b c : Emitter) → Grows j a b → Grows k b c → Grows (j + k) a c
Grows-trans j k a b c p q =
    let (us, small_us, pu) = p.words in
    let (vs, small_vs, pv) = q.words in
    record {
      words = (
        us ++ vs,
        omega (arith, length-append us vs),
        pv ∙ ap (λ t. t ++ bytes_of vs) pu ∙ append-bytes_of a.code.bytes us vs,
      );
      same_relocs = q.same_relocs ∙ p.same_relocs;
      same_exits = q.same_exits ∙ p.same_exits;
      same_terminated = q.same_terminated ∙ p.same_terminated;
    }

Grows-le : (j k : ℕ) (a b : Emitter) → j ≤ k → Grows j a b → Grows k a b
Grows-le j k a b h p =
    let (ws, small, e) = p.words in
    record {
      words = (ws, omega arith, e);
      same_relocs = p.same_relocs;
      same_exits = p.same_exits;
      same_terminated = p.same_terminated;
    }

pub GrowsBy-le : (j k : ℕ) (f : Step) → j ≤ k → GrowsBy j f → GrowsBy k f
GrowsBy-le j k f h p = record {
  run = λ st. Ensures-weaken (Grows j st) (Grows k st) (f st) (p.run st) (λ b. Grows-le j k st b h);
}

pub GrowsBy-then : (j k : ℕ) (f g : Step) → GrowsBy j f → GrowsBy k g → GrowsBy (j + k) (f >=> g)
GrowsBy-then j k f g p q = record {
  run = λ st. Ensures-bind (Grows j st) (Grows (j + k) st) (f st) g (p.run st) (λ b r.
      Ensures-weaken (Grows k b) (Grows (j + k) st) (g b) (q.run b)
        (λ c. Grows-trans j k st b c r));
}

pub GrowsBy-if :
    (k : ℕ) (b : Bool) (f g : Step) → GrowsBy k f → GrowsBy k g → GrowsBy k (if b then f else g)
GrowsBy-if k true f g p q = p
GrowsBy-if k false f g p q = q

pub GrowsBy-fail : (k : ℕ) (e : Error) → GrowsBy k (fail e)
GrowsBy-fail k e = record { run = λ st. tt }

pub Grows-refl : (st : Emitter) → Grows 0 st st
Grows-refl st = record {
  words = ([], omega arith, sym (append-nil st.code.bytes));
  same_relocs = refl;
  same_exits = refl;
  same_terminated = refl;
}

pub GrowsBy-count : (f : Stats → Stats) → GrowsBy 0 (count f)
GrowsBy-count f = record {
  run = λ st. record {
    words = ([], omega arith, sym (append-nil st.code.bytes));
    same_relocs = refl;
    same_exits = refl;
    same_terminated = refl;
  };
}

module _ (realloc : ℕ → Bool) where
  emit-Grows : (w : ℕ) (st : Emitter) → Ensures (emit realloc w st) (Grows 1 st)
  unfolding emit buf_emit32 appended
  emit-Grows w st = elim (Bool-cases (not (is_full st.code) || realloc (next_cap st.code))) [
    | inr stuck ↦ rw stuck tt
    | inl room ↦ rw room (record {
      words = (w ∷ [], omega arith, ap (λ t. st.code.bytes ++ t) (sym (append-nil (put_u32 w))));
      same_relocs = refl;
      same_exits = refl;
      same_terminated = refl;
    })
  ]

  pub GrowsBy-emit : (w : ℕ) → GrowsBy 1 (emit realloc w)
  GrowsBy-emit w = record { run = emit-Grows w }

  emit_lane-Grows :
      (reg v hw : ℕ) (st : Emitter) → Ensures (emit_lane realloc reg v hw st) (Grows 1 st)
  unfolding emit_lane
  emit_lane-Grows reg v hw st =
      let lane = bit_and (v / 2 ^ (16 * hw)) 0xffff in
      elim (Bool-cases (lane == 0)) [
        | inl zero_lane ↦ rw zero_lane (Grows-le 0 1 st st (omega arith) (Grows-refl st))
        | inr more ↦ rw more (emit-Grows (enc_movk reg lane hw) st)
      ]

  GrowsBy-emit_lane : (reg v hw : ℕ) → GrowsBy 1 (emit_lane realloc reg v hw)
  GrowsBy-emit_lane reg v hw = record { run = emit_lane-Grows reg v hw }

  pub GrowsBy-emit_movimm : (reg v : ℕ) → GrowsBy 4 (emit_movimm realloc reg v)
  unfolding emit_movimm
  GrowsBy-emit_movimm reg v = GrowsBy-then 1 3 _ _ (GrowsBy-emit _) (
      GrowsBy-then 1 2 _ _ (GrowsBy-emit_lane reg v 1)
        (GrowsBy-then 1 1 _ _ (GrowsBy-emit_lane reg v 2) (GrowsBy-emit_lane reg v 3)))
