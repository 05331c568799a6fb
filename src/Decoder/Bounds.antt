-- ===== src/Decoder/Bounds.antt =====
-- The reads of src/liboryxdec/oryxdec.c stay inside the image, and the cursor behind them is where the guest
-- address says.
use oryx.Prelude.{
  ℕ, ◌+◌, ◌*◌, ◌/◌, ◌%◌, ◌^◌, ◌≤◌, ◌<◌, ◌≡◌, refl, bit_or, bit_or-low, Bool, true, false, ◌&&◌,
  List, [], ◌∷◌, length, take, drop, All, All-drop, leb, ltb, le→leb, ltb_false→le, ◌==◌,
  if◌then◌else◌, Bool-cases, arith, zero, suc, inl, inr,
}
use oryx.Errors.{ok, err, returns, fault}
use oryx.Wire.{IsByte, IsU32, IsU64, get_byte, get_u32, get_u64}
use oryx.Wire.Codec.{get_byte-IsByte, get_u32-IsU32, get_u64-IsU64}
use oryx.Decoder.Reader.{
  Image, Cursor, advance, Read, ◌>>-◌, gives, span, next, sext8, sext32, next_u8, next_i8, next_u32,
  next_i32, next_u64, Rex, rex_of, Operand, direct, memory, Modrm, displacement, modrm_operand,
  decode_modrm, is_endbr64,
}

-- The code does not read outside the image, and a value that it gives satisfies `P`.
abbrev pub Yields {ℓ} : {A : Type ℓ} → Read A → (A → Type 0) → Type 0
Yields fault P = ⊥
Yields (returns (err e)) P = Unit
Yields (returns (ok a)) P = P a

pub Yields-bind {ℓ κ} :
    {A : Type ℓ} {B : Type κ} (P : A → Type 0) (Q : B → Type 0) (m : Read A) (f : A → Read B)
    → Yields m P
    → ((a : A) → P a → Yields (f a) Q)
    → Yields (m >>- f) Q
Yields-bind P Q fault f h k = absurd h
Yields-bind P Q (returns (err e)) f h k = tt
Yields-bind P Q (returns (ok a)) f h k = k a h

pub Yields-weaken {ℓ} :
    {A : Type ℓ} (P : A → Type 0) (Q : A → Type 0) (m : Read A)
    → Yields m P
    → ((a : A) → P a → Q a)
    → Yields m Q
Yields-weaken P Q fault h k = absurd h
Yields-weaken P Q (returns (err e)) h k = tt
Yields-weaken P Q (returns (ok a)) h k = k a h

pub Yields-if {ℓ} :
    {A : Type ℓ} (P : A → Type 0) (b : Bool) (m n : Read A)
    → (b ≡ true → Yields m P)
    → (b ≡ false → Yields n P)
    → Yields (if b then m else n) P
Yields-if P true m n h k = h refl
Yields-if P false m n h k = k refl

-- The cursor stands in the image or at its end, and `cur` is the guest address of `off`.
abbrev pub On : Image → Cursor → Type 0
On img c = (c.off ≤ length img.bytes) × (c.cur ≡ (img.base + c.off) % 2 ^ 64)

-- The cursor has gone on by `k` bytes or more.
abbrev pub Passed : Image → ℕ → Cursor → Cursor → Type 0
Passed img k c c' = On img c' × (c.off + k ≤ c'.off)

-- A number below `bound`, read behind `c`.
abbrev pub Number : Image → ℕ → ℕ → Cursor → ℕ × Cursor → Type 0
Number img k bound c r = (r.0 < bound) × Passed img k c r.1

pub record IsRex (rex : Rex) : Type 0 where
  pub r : rex.r < 2
  pub b : rex.b < 2

pub rex_of-IsRex : (b : ℕ) → IsRex (rex_of b)
unfolding rex_of
rex_of-IsRex b = record { r = omega arith; b = omega arith }

pub extended : (low high : ℕ) → low < 8 → high < 2 → bit_or low (high * 2 ^ 3) < 16
extended low high p q = omega (arith, bit_or-low 3 high low p)

All-take {ℓ κ} : {A : Type ℓ} (P : A → Type κ) (n : ℕ) (xs : List A) → All P xs → All P (take n xs)
All-take P zero xs h = tt
All-take P (suc n) [] h = tt
All-take P (suc n) (x ∷ xs) h = (h.0, All-take P n xs h.1)

pub sext8-IsU64 : (b : ℕ) → IsByte b → IsU64 (sext8 b)
sext8-IsU64 b h = ground arith

pub sext32-IsU64 : (v : ℕ) → IsU32 v → IsU64 (sext32 v)
sext32-IsU64 v h = ground arith

pub Passed-trans :
    (img : Image) (j k : ℕ) (a b c : Cursor)
    → Passed img j a b
    → Passed img k b c
    → Passed img (j + k) a c
Passed-trans img j k a b c p q = (q.0, omega (arith, p.1, q.1))

pub Passed-le : (img : Image) (j k : ℕ) (a b : Cursor) → j ≤ k → Passed img k a b → Passed img j a b
Passed-le img j k a b h p = (p.0, omega (arith, p.1))

abbrev pub IsOperand : Operand → Type 0
IsOperand (direct r) = r < 16
IsOperand (memory base disp) = (base < 16) × IsU64 disp

abbrev pub Operands : Image → Cursor → Modrm × Cursor → Type 0
Operands img c m = (m.0.reg < 16) × IsOperand m.0.operand × Passed img 1 c m.1

module _ (img : Image) (bytes : All IsByte img.bytes) where
  pub span-Yields :
      (off n : ℕ)
      → off + n ≤ length img.bytes
      → Yields (span img off n) (λ s. s ≡ take n (drop off img.bytes))
  unfolding span
  span-Yields off n h = rw (le→leb _ _ h) refl

  next-Yields :
      (n : ℕ) (c : Cursor)
      → On img c
      → Yields (next img n c) (λ r. All IsByte r.0 × Passed img n c r.1)
  unfolding next span advance
  next-Yields n c at = elim (Bool-cases (ltb (length img.bytes) (c.off + n))) [
    | inl short ↦ rw short tt
    | inr room ↦
        rw (room, le→leb _ _ (ltb_false→le _ _ room))
          (
            All-take IsByte n _ (All-drop IsByte c.off img.bytes bytes),
            ((ltb_false→le _ _ room, omega (arith, at.1)), omega arith),
          )
  ]

  -- A value computed from the bytes.
  value-Yields :
      (n bound : ℕ) (f : List ℕ → ℕ) (c : Cursor)
      → ((s : List ℕ) → All IsByte s → f s < bound)
      → On img c
      → Yields (next img n c >>- λ r. gives (f r.0, r.1)) (Number img n bound c)
  value-Yields n bound f c small at =
      Yields-bind (λ r. All IsByte r.0 × Passed img n c r.1) (Number img n bound c) (next img n c)
        (λ r. gives (f r.0, r.1)) (next-Yields n c at) (λ r p. (small r.0 p.0, p.1))

  pub next_u8-Yields : (c : Cursor) → On img c → Yields (next_u8 img c) (Number img 1 (2 ^ 8) c)
  unfolding next_u8
  next_u8-Yields c at = value-Yields 1 (2 ^ 8) get_byte c get_byte-IsByte at

  pub next_i8-Yields : (c : Cursor) → On img c → Yields (next_i8 img c) (Number img 1 (2 ^ 64) c)
  unfolding next_i8
  next_i8-Yields c at =
      value-Yields 1 (2 ^ 64) (λ s. sext8 (get_byte s)) c
        (λ s h. sext8-IsU64 (get_byte s) (get_byte-IsByte s h)) at

  pub next_u32-Yields : (c : Cursor) → On img c → Yields (next_u32 img c) (Number img 4 (2 ^ 64) c)
  unfolding next_u32
  next_u32-Yields c at =
      value-Yields 4 (2 ^ 64) get_u32 c (λ s h. omega (arith, get_u32-IsU32 s h)) at

  pub next_i32-Yields : (c : Cursor) → On img c → Yields (next_i32 img c) (Number img 4 (2 ^ 64) c)
  unfolding next_i32
  next_i32-Yields c at =
      value-Yields 4 (2 ^ 64) (λ s. sext32 (get_u32 s)) c
        (λ s h. sext32-IsU64 (get_u32 s) (get_u32-IsU32 s h)) at

  pub next_u64-Yields : (c : Cursor) → On img c → Yields (next_u64 img c) (Number img 8 (2 ^ 64) c)
  unfolding next_u64
  next_u64-Yields c at = value-Yields 8 (2 ^ 64) get_u64 c get_u64-IsU64 at

  displacement-Yields :
      (mode : ℕ) (c : Cursor)
      → On img c
      → Yields (displacement img mode c) (Number img 0 (2 ^ 64) c)
  unfolding displacement
  displacement-Yields mode c at =
      Yields-if _ (mode == 1) _ _
        (λ one.
          Yields-weaken _ _ (next_i8 img c) (next_i8-Yields c at)
            (λ r p. (p.0, Passed-le img 0 1 c r.1 (omega arith) p.1)))
        (λ other.
          Yields-if _ (mode == 2) _ _
            (λ two.
              Yields-weaken _ _ (next_i32 img c) (next_i32-Yields c at)
                (λ r p. (p.0, Passed-le img 0 4 c r.1 (omega arith) p.1)))
            (λ zero_disp. (omega arith, (at, omega arith))))

  modrm_operand-Yields :
      (rex : Rex) (mode rm : ℕ) (c : Cursor)
      → IsRex rex
      → rm < 8
      → On img c
      → Yields (modrm_operand img rex mode rm c) (λ m. IsOperand m.0 × Passed img 0 c m.1)
  unfolding modrm_operand
  modrm_operand-Yields rex mode rm c ok_rex small at =
      Yields-if _ (mode == 3) _ _ (λ reg. (extended rm rex.b small ok_rex.b, (at, omega arith)))
        (λ mem.
          Yields-if _ (rm == 4) _ _ (λ sib. tt)
            (λ plain.
              Yields-if _ (rm == 5 && mode == 0) _ _ (λ rip. tt)
                (λ based.
                  Yields-bind (Number img 0 (2 ^ 64) c) _ (displacement img mode c) _
                    (displacement-Yields mode c at)
                    (λ d p. ((extended rm rex.b small ok_rex.b, p.0), p.1)))))

  pub decode_modrm-Yields :
      (rex : Rex) (c : Cursor)
      → IsRex rex
      → On img c
      → Yields (decode_modrm img rex c) (Operands img c)
  unfolding decode_modrm
  decode_modrm-Yields rex c ok_rex at =
      Yields-bind (Number img 1 (2 ^ 8) c) (Operands img c) (next_u8 img c) _ (next_u8-Yields c at)
        (λ r p.
          Yields-bind (λ m. IsOperand m.0 × Passed img 0 r.1 m.1) (Operands img c)
            (modrm_operand img rex (r.0 / 2 ^ 6) (r.0 % 2 ^ 3) r.1) _
            (modrm_operand-Yields rex (r.0 / 2 ^ 6) (r.0 % 2 ^ 3) r.1 ok_rex (omega arith) p.1.0)
            (λ m q. (
              extended (r.0 / 2 ^ 3 % 2 ^ 3) rex.r (omega arith) ok_rex.r,
              q.0,
              Passed-trans img 1 0 c r.1 m.1 p.1 q.1,
            )))

  pub is_endbr64-Yields :
      (c : Cursor)
      → c.off < length img.bytes
      → Yields (is_endbr64 img c) (λ e. e ≡ true → c.off + 4 ≤ length img.bytes)
  unfolding is_endbr64
  is_endbr64-Yields c inside =
      Yields-bind (λ s. s ≡ take 1 (drop c.off img.bytes)) _ (span img c.off 1) _
        (span-Yields c.off 1 (omega arith))
        (λ first e.
          Yields-if _ (get_byte first == 0xF3 && leb (c.off + 4) (length img.bytes)) _ _
            (λ room.
              Yields-bind (λ s. s ≡ take 4 (drop c.off img.bytes)) _ (span img c.off 4) _
                (span-Yields c.off 4 (ground arith)) (λ s same is. ground arith))
            (λ other h. cc))
