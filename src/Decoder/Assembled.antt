-- ===== src/Decoder/Assembled.antt =====
-- Whole blocks: src/liboryxdec/oryxdec.c decodes the bytes of an assembled basic block to its IR.
use oryx.Prelude.{
  ltb, leb, le→ltb_false, ==_ne, length, drop, All, length-append, length-drop, ℕ, zero, suc, ◌+◌,
  ◌-◌, ◌%◌, ◌^◌, ◌≤◌, ◌<◌, ◌≡◌, subst, refl, sym, ap, ap₂, ◌∙◌, ◌≢◌, true, false, ◌||◌, List, [],
  ◌∷◌, ◌++◌, append_assoc, append-nil, arith,
}
use oryx.Guest.{Insn}
use oryx.Wire.{get_byte}
use oryx.Decoder.Reader.{Image, Cursor, advance, ◌>>-◌, gives, is_endbr64}
use oryx.Decoder.Instructions.{decode_insn}
use oryx.Decoder.Block.{Progress, emit_insn, round, decode_loop, decode_block}
use oryx.Decoder.Encoding.{
  X86, encode, IsX86, ir_of, is_terminator, reg_reg, reg_imm, movabs, lea_disp, push_r, pop_r,
  call_rel, jcc_rel, jmp_rel, return,
}
use oryx.Decoder.Reading.{Ahead, Ahead-advance, span-Ahead}
use oryx.Decoder.RoundTrip.{advance-advance, decode_insn-encode}

-- The bytes of a sequence of instructions, and its IR from the address `pc` on.
unfoldable pub assemble : List X86 → List ℕ
assemble [] = []
assemble (x ∷ xs) = encode x ++ assemble xs

unfoldable pub ir_from : ℕ → List X86 → List Insn
ir_from pc [] = []
ir_from pc (x ∷ xs) =
    ir_of ((pc + length (encode x)) % 2 ^ 64) x ∷ ir_from ((pc + length (encode x)) % 2 ^ 64) xs

-- Instructions before the last one.
abbrev pub IsBody : List X86 → Type 0
IsBody body = All (λ x. IsX86 x × (is_terminator x ≡ false)) body

-- The first byte of an encoding is none of endbr64.
first_byte : (x : X86) → IsX86 x → (b : ℕ) × (bs : List ℕ) × (encode x ≡ b ∷ bs) × (b ≢ 0xF3)
first_byte (reg_reg a rm reg) h = (_, _, refl, omega arith)
first_byte (reg_imm i rm v) h = (_, _, refl, omega arith)
first_byte (movabs r v) h = (_, _, refl, omega arith)
first_byte (lea_disp r base v) h = (_, _, refl, omega arith)
first_byte (push_r r) h = (_, _, refl, omega arith)
first_byte (pop_r r) h = (_, _, refl, omega arith)
first_byte (call_rel v) h = (_, _, refl, omega arith)
first_byte (jcc_rel c v) h = (_, _, refl, omega arith)
first_byte (jmp_rel v) h = (_, _, refl, omega arith)
first_byte return h = (_, _, refl, omega arith)

cur-advance : (n : ℕ) (c : Cursor) → (advance n c).cur ≡ (c.cur + n) % 2 ^ 64
unfolding advance
cur-advance n c = refl

not_full : (cap n : ℕ) → n < cap → leb cap n ≡ false
not_full cap n h = ground arith

one_more :
    (ops : List Insn) (i : Insn) (n cap : ℕ)
    → length ops + suc n < cap
    → length (ops ++ i ∷ []) + n < cap
one_more ops i n cap h = omega (arith, length-append ops (i ∷ []))

joined_bytes :
    (c : Cursor) (x : X86) (xs : List X86)
    → advance (length (assemble xs)) (advance (length (encode x)) c)
      ≡ advance (length (encode x ++ assemble xs)) c
joined_bytes c x xs =
    advance-advance (length (assemble xs)) (length (encode x)) c
    ∙ ap (λ (k : ℕ). advance k c) (sym (length-append (encode x) (assemble xs)))

joined_ir :
    (c : Cursor) (x : X86) (xs : List X86) (ops : List Insn)
    → (ops ++ ir_of (advance (length (encode x)) c).cur x ∷ [])
        ++ ir_from (advance (length (encode x)) c).cur xs
      ≡ ops
        ++ (ir_of ((c.cur + length (encode x)) % 2 ^ 64) x
            ∷ ir_from ((c.cur + length (encode x)) % 2 ^ 64) xs)
joined_ir c x xs ops =
    append_assoc ops _ _
    ∙ ap (λ (k : ℕ). ops ++ ir_of k x ∷ ir_from k xs) (cur-advance (length (encode x)) c)

-- The loop's locals behind one instruction.
abbrev after_insn : Cursor → X86 → List Insn → Progress
after_insn c x ops = record {
  position = advance (length (encode x)) c;
  ops = ops ++ ir_of (advance (length (encode x)) c).cur x ∷ [];
  done = is_terminator x;
}

module _ (img : Image) (cap : ℕ) where
  more_bytes :
      (c : Cursor) (b : ℕ) (bs : List ℕ)
      → Ahead img c (b ∷ bs)
      → ltb (length img.bytes) (c.off + 1) ≡ false
  more_bytes c b bs h =
      le→ltb_false _ _ (omega (arith, length-drop c.off img.bytes, ap length h.ys_ahead, h.inside))

  no_endbr64 :
      (c : Cursor) (b : ℕ) (bs : List ℕ)
      → b ≢ 0xF3
      → Ahead img c (b ∷ bs)
      → is_endbr64 img c ≡ gives false
  unfolding is_endbr64 get_byte
  no_endbr64 c b bs ne h = rw (span-Ahead img c (b ∷ []) bs h) (rw (==_ne b 0xF3 ne) refl)

  module _ (c : Cursor) (x : X86) (ys : List ℕ) (ops : List Insn) (good : IsX86 x)
      (ahead : Ahead img c (encode x ++ ys)) (room : length ops < cap) where
    decodes : (decode_insn img c >>- emit_insn cap ops) ≡ gives (after_insn c x ops)
    unfolding emit_insn
    decodes =
        rw (decode_insn-encode img c ys x good ahead) (rw (not_full cap (length ops) room) refl)

    round-encode : round img cap c ops ≡ gives (after_insn c x ops)
    unfolding round
    round-encode =
        let (b, bs, split, ne) = first_byte x good in
        let at : Ahead img c (b ∷ (bs ++ ys)) = subst (λ t. Ahead img c (t ++ ys)) split ahead in
        rw (more_bytes c b (bs ++ ys) at, no_endbr64 c b (bs ++ ys) ne at) decodes

  decode_loop-assemble :
      (body : List X86) (last : X86) (fuel : ℕ) (c : Cursor) (ops : List Insn) (ys : List ℕ)
      → IsBody body
      → IsX86 last
      → is_terminator last ≡ true
      → length body < fuel
      → length ops + length body < cap
      → Ahead img c (assemble (body ++ last ∷ []) ++ ys)
      → decode_loop img cap fuel c ops
        ≡ gives (record {
          position = advance (length (assemble (body ++ last ∷ []))) c;
          ops = ops ++ ir_from c.cur (body ++ last ∷ []);
          done = true;
        })
  unfolding decode_loop assemble ir_from
  decode_loop-assemble body last zero c ops ys all good ends enough room ahead =
      absurd (omega arith)
  decode_loop-assemble [] last (suc fuel) c ops ys all good ends enough room ahead =
      rw
        (round-encode c last ys ops good
          (subst (λ t. Ahead img c (t ++ ys)) (append-nil (encode last)) ahead) (omega arith))
        (rw (ends, append-nil (encode last), cur-advance (length (encode last)) c) refl)
  decode_loop-assemble (x ∷ body) last (suc fuel) c ops ys all good ends enough room ahead =
      let rest = assemble (body ++ last ∷ []) ++ ys in
      let at : Ahead img c (encode x ++ rest) =
        subst (Ahead img c) (append_assoc (encode x) (assemble (body ++ last ∷ [])) ys) ahead in
      rw (round-encode c x rest ops all.0.0 at (omega arith)) (
        rw all.0.1 (
          decode_loop-assemble body last fuel (advance (length (encode x)) c)
            (ops ++ ir_of (advance (length (encode x)) c).cur x ∷ []) ys all.1 good ends
            (omega arith)
            (one_more ops (ir_of (advance (length (encode x)) c).cur x) (length body) cap room)
            (Ahead-advance img c (encode x) rest at)
          ∙ ap₂
              (λ (position : Cursor) (ir : List Insn).
                gives (record { position = position; ops = ir; done = true }))
              (joined_bytes c x (body ++ last ∷ [])) (joined_ir c x (body ++ last ∷ []) ops)))

-- No instruction is encoded by nothing.
body_fits : (body rest : List X86) → IsBody body → length body ≤ length (assemble (body ++ rest))
unfolding assemble
body_fits [] rest all = omega arith
body_fits (x ∷ body) rest all =
    let (b, bs, split, other) = first_byte x all.0.0 in
    omega (
      arith,
      ap length split,
      length-append (encode x) (assemble (body ++ rest)),
      body_fits body rest all.1,
    )

inside_image :
    {pc : ℕ} (base len : ℕ)
    → base ≤ pc
    → pc < base + len
    → base + len < 2 ^ 64
    → (ltb pc base || leb ((base + len) % 2 ^ 64) pc) ≡ false
inside_image base len low high unwrapped = ground arith

-- The number of bytes that the decoder reports, from its two addresses.
spanned : (pc n : ℕ) → pc < 2 ^ 64 → n < 2 ^ 64 → ((pc + n) % 2 ^ 64 + 2 ^ 64 - pc) % 2 ^ 64 ≡ n
spanned pc n low small = omega arith

module _ (img : Image) (cap pc : ℕ) (body : List X86) (last : X86) (ys : List ℕ) where
  abbrev program : List X86
  program = body ++ last ∷ []

  at_entry : Cursor
  at_entry = record { off = pc - img.base; cur = pc }

  program_fits :
      drop (pc - img.base) img.bytes ≡ assemble program ++ ys
      → pc - img.base ≤ length img.bytes
      → length (assemble program) ≤ length img.bytes
  program_fits bytes inside = omega (
    arith,
    length-drop (pc - img.base) img.bytes,
    ap length bytes,
    length-append (assemble program) ys,
  )

  -- If an image does not wrap round the address space and its bytes from an address inside it on
  -- begin with the encodings of a basic block of at most `cap` instructions, whose operands fit,
  -- whose last instruction branches or returns and whose others do not, then the decoder gives the
  -- IR of these instructions and the number of their bytes modulo 2^32, whatever follows.
  pub decode_block-assemble :
      IsBody body
      → IsX86 last
      → is_terminator last ≡ true
      → length body < cap
      → img.base ≤ pc
      → pc < img.base + length img.bytes
      → img.base + length img.bytes < 2 ^ 64
      → drop (pc - img.base) img.bytes ≡ assemble program ++ ys
      → decode_block img cap pc ≡ gives (ir_from pc program, length (assemble program) % 2 ^ 32)
  unfolding decode_block at_entry advance
  decode_block-assemble all good ends room low high unwrapped bytes =
      let fits = program_fits bytes (omega arith) in
      let loop =
        decode_loop-assemble img cap body last (length img.bytes + 1) at_entry [] ys all good ends
          (omega (arith, body_fits body (last ∷ []) all, fits)) (omega arith)
          (record { ys_ahead = bytes; inside = omega arith }) in
      rw (inside_image img.base (length img.bytes) low high unwrapped) (
        rw loop (
          ap (λ (n : ℕ). gives (ir_from pc program, n))
            (ap (λ (n : ℕ). n % 2 ^ 32)
              (spanned pc (length (assemble program)) (omega arith) (omega arith)))))
