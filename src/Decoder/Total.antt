-- ===== src/Decoder/Total.antt =====
-- `oryx_x86_decode_block` of src/liboryxdec/oryxdec.c ends, reads inside the image only, and returns a
-- block of the shape that the translator wants.
use oryx.Prelude.{
  ltb, leb, ltb_false→le, Bool-cases, length, take, drop, All, length-append, All-append, ℕ, zero,
  suc, ◌+◌, ◌-◌, ◌%◌, ◌^◌, ◌≤◌, ◌<◌, ◌≡◌, subst, refl, ap, ◌⊎◌, inl, inr, Bool, true, false, ◌&&◌,
  ◌||◌, List, [], ◌∷◌, ◌++◌, arith,
}
use oryx.Errors.{Error, ok, err, fault, returns}
use oryx.Wire.{IsByte, IsU64, get_byte}
use oryx.Guest.{Insn}
use oryx.Decoder.Reader.{Image, Cursor, advance, Read, gives, refuses, span, next_u8, is_endbr64}
use oryx.Decoder.Instructions.{Decoded, form, opcode, decode_insn}
use oryx.Decoder.Block.{Progress, emit_insn, round, decode_loop, decode_block}
use oryx.Decoder.Bounds.{
  Yields, Yields-bind, Yields-weaken, Yields-if, On, Passed, Number, IsRex, rex_of-IsRex,
  Passed-trans, Passed-le, span-Yields, next_u8-Yields, is_endbr64-Yields,
}
use oryx.Decoder.Labels.{IsDecoded, Emits, form-IsForm}
use oryx.Decoder.Forms.{decode_form-Yields}

-- Straight instructions, and behind them one that ends the block if `done` is set.
abbrev pub IsRun : Bool → List Insn → Type 0
IsRun false ops = All (IsDecoded false) ops
IsRun true ops =
    (body : List Insn) × (last : Insn) × (ops ≡ body ++ last ∷ [])
    × All (IsDecoded false) body
    × IsDecoded true last

IsRun-emit_insn :
    (ops : List Insn) (done : Bool) (i : Insn)
    → IsRun false ops
    → IsDecoded done i
    → IsRun done (ops ++ i ∷ [])
IsRun-emit_insn ops true i run d = (ops, i, refl, run, d)
IsRun-emit_insn ops false i run d = All-append (IsDecoded false) ops (i ∷ []) run (d, tt)

module _ (img : Image) (bytes : All IsByte img.bytes) where
  opcode-Yields :
      (b : ℕ) (c : Cursor)
      → On img c
      → Yields (opcode img b c) (λ o. IsRex o.0 × Passed img 0 c o.2)
  unfolding opcode
  opcode-Yields b c at =
      Yields-if _ (leb 0x40 b && leb b 0x4F) _ _
        (λ rex.
          Yields-bind (Number img 1 (2 ^ 8) c) _ (next_u8 img c) _ (next_u8-Yields img bytes c at)
            (λ o p. (rex_of-IsRex b, Passed-le img 0 1 c o.1 (omega arith) p.1)))
        (λ plain. (record { r = omega arith; b = omega arith }, (at, omega arith)))

  advance-Passed :
      (k : ℕ) (c : Cursor) → On img c → c.off + k ≤ length img.bytes → Passed img k c (advance k c)
  unfolding advance
  advance-Passed k c at room = ((room, omega (arith, at.1)), omega arith)

  pub decode_insn-Yields :
      (c : Cursor)
      → On img c
      → c.off < length img.bytes
      → Yields (decode_insn img c) (Emits img 1 c)
  unfolding decode_insn
  decode_insn-Yields c at inside =
      let a = advance-Passed 1 c at (omega arith) in
      Yields-bind (λ s. s ≡ take 1 (drop c.off img.bytes)) (Emits img 1 c) (span img c.off 1) _
        (span-Yields img bytes c.off 1 (omega arith))
        (λ first e.
          Yields-bind (λ o. IsRex o.0 × Passed img 0 (advance 1 c) o.2) (Emits img 1 c)
            (opcode img (get_byte first) (advance 1 c)) _
            (opcode-Yields (get_byte first) (advance 1 c) a.0)
            (λ o p.
              Yields-weaken (Emits img 0 o.2) (Emits img 1 c) _
                (decode_form-Yields img bytes o.0 p.0 o.2 p.1.0 (form o.1) (form-IsForm o.1))
                (λ d q. record {
                  insn = q.insn;
                  passed =
                      Passed-trans img 1 0 c (advance 1 c) d.rest a
                        (Passed-trans img 0 0 (advance 1 c) o.2 d.rest p.1 q.passed);
                })))

  module _ (cap : ℕ) where
    -- What the loop's locals hold after a round that began at `c`.
    record Round (c : Cursor) (p : Progress) : Type 0 where
      moved : Passed img 1 c p.position
      run : IsRun p.done p.ops
      few : length p.ops ≤ cap

    emit_insn-Yields :
        (c : Cursor) (ops : List Insn) (d : Decoded)
        → IsRun false ops
        → length ops ≤ cap
        → Emits img 1 c d
        → Yields (emit_insn cap ops d) (Round c)
    unfolding emit_insn
    emit_insn-Yields c ops d run few e = elim (Bool-cases (leb cap (length ops))) [
      | inl full ↦ rw full tt
      | inr room ↦ rw room (record {
        moved = e.passed;
        run = IsRun-emit_insn ops d.done d.insn run e.insn;
        few = ground (arith, length-append ops (d.insn ∷ []));
      })
    ]

    round-Yields :
        (c : Cursor) (ops : List Insn)
        → On img c
        → IsRun false ops
        → length ops ≤ cap
        → Yields (round img cap c ops) (Round c)
    unfolding round
    round-Yields c ops at run few =
        Yields-if (Round c) (ltb (length img.bytes) (c.off + 1)) _ _ (λ truncated. tt)
          (λ more_bytes.
            let inside : c.off < length img.bytes = omega (arith, ltb_false→le _ _ more_bytes) in
            Yields-bind (λ e. e ≡ true → c.off + 4 ≤ length img.bytes) (Round c) (is_endbr64 img c)
              _ (is_endbr64-Yields img bytes c inside)
              (λ e room.
                Yields-if (Round c) e _ _
                  (λ is. record {
                    moved = Passed-le img 1 4 c _ (omega arith) (advance-Passed 4 c at (room is));
                    run = run;
                    few = few;
                  })
                  (λ other.
                    Yields-bind (Emits img 1 c) (Round c) (decode_insn img c) (emit_insn cap ops)
                      (decode_insn-Yields c at inside) (λ d. emit_insn-Yields c ops d run few))))

    -- What the loop leaves, if it began at `c`.
    record Ended (c : Cursor) (p : Progress) : Type 0 where
      moved : Passed img 1 c p.position
      run : IsRun true p.ops
      few : length p.ops ≤ cap

    decode_loop-Yields :
        (fuel : ℕ) (c : Cursor) (ops : List Insn)
        → length img.bytes - c.off < fuel
        → On img c
        → IsRun false ops
        → length ops ≤ cap
        → Yields (decode_loop img cap fuel c ops) (Ended c)
    unfolding decode_loop
    decode_loop-Yields zero c ops enough at run few = absurd (omega arith)
    decode_loop-Yields (suc fuel) c ops enough at run few =
        Yields-bind (Round c) (Ended c) (round img cap c ops) _ (round-Yields c ops at run few)
          (λ p r.
            Yields-if (Ended c) p.done (gives p) _
              (λ ended. record {
                moved = r.moved;
                run = subst (λ b. IsRun b p.ops) ended r.run;
                few = r.few;
              })
              (λ going.
                Yields-weaken (Ended p.position) (Ended c) _
                  (decode_loop-Yields fuel p.position p.ops (omega (arith, r.moved.0.0, r.moved.1))
                    r.moved.0 (subst (λ b. IsRun b p.ops) going r.run) r.few)
                  (λ q e. record {
                    moved =
                        Passed-le img 1 2 c q.position (omega arith)
                          (Passed-trans img 1 1 c p.position q.position r.moved e.moved);
                    run = e.run;
                    few = e.few;
                  })))

-- A basic block that the decoder returns: at most `cap` instructions, straight ones and then one that
-- ends it; its bytes stand in the image from `off` on, and `len` is their number as a uint32_t.
pub record IsBlock (img : Image) (cap off : ℕ) (r : List Insn × ℕ) : Type 0 where
  pub run : IsRun true r.0
  pub few : length r.0 ≤ cap
  pub size : ℕ
  pub nonempty : 1 ≤ size
  pub inside : off + size ≤ length img.bytes
  pub len : r.1 ≡ size % 2 ^ 32

module _ (img : Image) (cap pc : ℕ) where
  spanned :
      (base cur off : ℕ)
      → base ≤ pc
      → pc < 2 ^ 64
      → off < 2 ^ 64
      → pc - base ≤ off
      → cur ≡ (base + off) % 2 ^ 64
      → (cur + 2 ^ 64 - pc) % 2 ^ 64 ≡ off - (pc - base)
  spanned base cur off h word small past at = omega arith

  decode_block-Yields :
      All IsByte img.bytes
      → length img.bytes < 2 ^ 64
      → IsU64 img.base
      → IsU64 pc
      → Yields (decode_block img cap pc) (IsBlock img cap (pc - img.base))
  unfolding decode_block
  decode_block-Yields bytes small base word =
      Yields-if _ (ltb pc img.base || leb ((img.base + length img.bytes) % 2 ^ 64) pc) _ _
        (λ outside. tt)
        (λ inside.
          let start : Cursor = record { off = pc - img.base; cur = pc } in
          Yields-bind (Ended img bytes cap start) _
            (decode_loop img cap (length img.bytes + 1) start []) _
            (decode_loop-Yields img bytes cap (length img.bytes + 1) start [] (omega arith)
              (ground arith) tt (omega arith))
            (λ p e. record {
              run = e.run;
              few = e.few;
              size = p.position.off - (pc - img.base);
              nonempty = omega (arith, e.moved.1);
              inside = omega (arith, e.moved.0.0, e.moved.1);
              len =
                  ap (λ n. n % 2 ^ 32)
                    (spanned img.base p.position.cur p.position.off (ground arith) word
                      (omega (arith, e.moved.0.0)) (omega (arith, e.moved.1)) e.moved.0.1);
            }))

pub Yields-cases {ℓ} :
    {A : Type ℓ} (P : A → Type 0) (m : Read A)
    → Yields m P
    → ((e : Error) × (m ≡ refuses e)) ⊎ ((a : A) × (m ≡ gives a) × P a)
Yields-cases P fault h = absurd h
Yields-cases P (returns (err e)) h = inl (e, refl)
Yields-cases P (returns (ok a)) h = inr (a, refl, h)

-- Whatever the bytes of an image, the decoder ends at every address and reads no byte outside the
-- image: it returns an error code or a basic block.
pub decode_block-IsBlock :
    (img : Image) (cap pc : ℕ)
    → All IsByte img.bytes
    → length img.bytes < 2 ^ 64
    → IsU64 img.base
    → IsU64 pc
    → ((e : Error) × (decode_block img cap pc ≡ refuses e))
      ⊎ ((r : List Insn × ℕ) × (decode_block img cap pc ≡ gives r)
          × IsBlock img cap (pc - img.base) r)
decode_block-IsBlock img cap pc bytes small base word =
    Yields-cases (IsBlock img cap (pc - img.base)) (decode_block img cap pc)
      (decode_block-Yields img cap pc bytes small base word)
