-- ===== src/Decoder/Reading.antt =====
-- What the reads of src/liboryxdec/oryxdec.c give where the bytes ahead are known.
use oryx.Prelude.{
  ◌==◌, le→leb, le→ltb_false, ==_ne, length, drop, length-append, take-append, drop-append,
  length-drop, bit_or-low, ℕ, zero, suc, ◌+◌, ◌*◌, ◌/◌, ◌%◌, ◌^◌, ◌≤◌, ◌<◌, bit_or, ◌≡◌, subst,
  refl, sym, ap, ◌∙◌, ◌≢◌, Bool, true, false, ◌&&◌, List, [], ◌∷◌, ◌++◌, append-nil, arith,
}
use oryx.Wire.{IsU32, IsU64, put_u32, put_u64, get_u32, get_u64, get_byte}
use oryx.Wire.Codec.{get_u32-put_u32, get_u64-put_u64, length-put_u32, length-put_u64}
use oryx.Decoder.Reader.{
  Image, Cursor, advance, gives, span, next, sext32, next_u8, next_i32, next_u64, Rex, rex_of,
  displacement, modrm_operand, decode_modrm, direct, memory,
}
use oryx.Decoder.Encoding.{rex_byte, modrm_byte}

drop-nil {ℓ} : {A : Type ℓ} (n : ℕ) → drop {A = A} n [] ≡ []
drop-nil zero = refl
drop-nil (suc n) = refl

drop-drop {ℓ} : {A : Type ℓ} (m n : ℕ) (xs : List A) → drop (m + n) xs ≡ drop n (drop m xs)
drop-drop zero n xs = ap (λ (k : ℕ). drop k xs) (omega arith)
drop-drop (suc m) n [] = drop-nil (suc m + n) ∙ sym (drop-nil n)
drop-drop (suc m) n (x ∷ xs) =
    let e : suc m + n ≡ suc (m + n) = omega arith in
    ap (λ (k : ℕ). drop k (x ∷ xs)) e ∙ drop-drop m n xs

pub low_rex :
    (reg rm : ℕ)
    → reg < 16
    → rm < 16
    → rex_of (rex_byte reg rm) ≡ record { w = true; r = reg / 8; b = rm / 8 }
unfolding rex_of
low_rex reg rm p q = ground arith

pub rejoined : (r : ℕ) → r < 16 → bit_or (r % 8) (r / 8 * 2 ^ 3) ≡ r
rejoined r h = omega (arith, bit_or-low 3 (r / 8) (r % 8))

module _ (img : Image) where
  -- From the cursor on the image has `ys`.
  pub record Ahead (c : Cursor) (ys : List ℕ) : Type 0 where
    pub ys_ahead : drop c.off img.bytes ≡ ys
    pub inside : c.off ≤ length img.bytes

  module _ (c : Cursor) (xs ys : List ℕ) (h : Ahead c (xs ++ ys)) where
    left : length img.bytes ≡ c.off + length xs + length ys
    left =
        omega
          (arith, length-drop c.off img.bytes, ap length h.ys_ahead, length-append xs ys, h.inside)

    pub Ahead-advance : Ahead (advance (length xs) c) ys
    unfolding advance
    Ahead-advance = record {
      ys_ahead =
          drop-drop c.off (length xs) img.bytes
          ∙ ap (drop (length xs)) h.ys_ahead
          ∙ drop-append (length xs) xs ys refl;
      inside = omega (arith, left);
    }

    pub span-Ahead : span img c.off (length xs) ≡ gives xs
    unfolding span
    span-Ahead =
        rw (le→leb (c.off + length xs) (length img.bytes) (omega (arith, left)), h.ys_ahead)
          (ap (λ s. gives s) (take-append (length xs) xs ys refl))

    pub next-Ahead : next img (length xs) c ≡ gives (xs, advance (length xs) c)
    unfolding next
    next-Ahead =
        rw (le→ltb_false (length img.bytes) (c.off + length xs) (omega (arith, left)), span-Ahead)
          refl

  -- No operand in mode 2 is relative to the instruction pointer.
  based : (rm : ℕ) → (rm == 5 && 2 == 0) ≡ false
  based rm = ground arith

  module _ (c : Cursor) (ys : List ℕ) where
    pub next_u8-Ahead : (b : ℕ) → Ahead c (b ∷ ys) → next_u8 img c ≡ gives (b, advance 1 c)
    unfolding next_u8 get_byte
    next_u8-Ahead b h = rw (next-Ahead c (b ∷ []) ys h) refl

    pub next_i32-Ahead :
        (v : ℕ)
        → IsU32 v
        → Ahead c (put_u32 v ++ ys)
        → next_i32 img c ≡ gives (sext32 v, advance 4 c)
    unfolding next_i32
    next_i32-Ahead v small h =
        let read : next img 4 c ≡ gives (put_u32 v, advance 4 c) =
          subst (λ k. next img k c ≡ gives (put_u32 v, advance k c)) (length-put_u32 v)
            (next-Ahead c (put_u32 v) ys h) in
        let value : get_u32 (put_u32 v) ≡ v =
          ap get_u32 (sym (append-nil (put_u32 v))) ∙ get_u32-put_u32 v [] small in
        rw (read, value) refl

    pub next_u64-Ahead :
        (v : ℕ) → IsU64 v → Ahead c (put_u64 v ++ ys) → next_u64 img c ≡ gives (v, advance 8 c)
    unfolding next_u64
    next_u64-Ahead v small h =
        let read : next img 8 c ≡ gives (put_u64 v, advance 8 c) =
          subst (λ k. next img k c ≡ gives (put_u64 v, advance k c)) (length-put_u64 v)
            (next-Ahead c (put_u64 v) ys h) in
        let value : get_u64 (put_u64 v) ≡ v =
          ap get_u64 (sym (append-nil (put_u64 v))) ∙ get_u64-put_u64 v [] small in
        rw (read, value) refl

  module _ (c : Cursor) (ys : List ℕ) (w : Bool) (reg rm : ℕ) (p : reg < 16) (q : rm < 16) where
    abbrev pub rex_for : Rex
    rex_for = record { w = w; r = reg / 8; b = rm / 8 }

    pub decode_modrm-direct :
        Ahead c (modrm_byte 3 reg rm ∷ ys)
        → decode_modrm img rex_for c
          ≡ gives (record { reg = reg; operand = direct rm }, advance 1 c)
    unfolding decode_modrm modrm_operand
    decode_modrm-direct h =
        let mode : modrm_byte 3 reg rm / 2 ^ 6 ≡ 3 = omega arith in
        let low : modrm_byte 3 reg rm % 2 ^ 3 ≡ rm % 8 = omega arith in
        let mid : modrm_byte 3 reg rm / 2 ^ 3 % 2 ^ 3 ≡ reg % 8 = omega arith in
        rw (next_u8-Ahead c ys (modrm_byte 3 reg rm) h)
          (rw (mode, low, mid, rejoined reg p, rejoined rm q) refl)

    pub decode_modrm-memory :
        (v : ℕ)
        → rm % 8 ≢ 4
        → IsU32 v
        → Ahead c (modrm_byte 2 reg rm ∷ (put_u32 v ++ ys))
        → decode_modrm img rex_for c
          ≡ gives (record { reg = reg; operand = memory rm (sext32 v) }, advance 4 (advance 1 c))
    unfolding decode_modrm modrm_operand displacement
    decode_modrm-memory v no_sib small h =
        let mode : modrm_byte 2 reg rm / 2 ^ 6 ≡ 2 = omega arith in
        let low : modrm_byte 2 reg rm % 2 ^ 3 ≡ rm % 8 = omega arith in
        let mid : modrm_byte 2 reg rm / 2 ^ 3 % 2 ^ 3 ≡ reg % 8 = omega arith in
        let after : Ahead (advance 1 c) (put_u32 v ++ ys) =
          Ahead-advance c (modrm_byte 2 reg rm ∷ []) (put_u32 v ++ ys) h in
        rw (next_u8-Ahead c (put_u32 v ++ ys) (modrm_byte 2 reg rm) h) (
          rw (mode, low, mid)
            (rw (==_ne (rm % 8) 4 no_sib, based (rm % 8))
              (rw (next_i32-Ahead (advance 1 c) ys v small after, rejoined reg p, rejoined rm q)
                refl)))
