-- ===== src/Wire/Codec.antt =====
-- The reads and writes of little-endian words undo one another.
use oryx.Prelude.{
  ==_refl, true, ℕ, ◌+◌, ◌*◌, ◌/◌, ◌%◌, ◌^◌, bit_or, bit_or-low, ◌≡◌, refl, List, [], ◌∷◌, ◌++◌,
  length, All, arith,
}
use oryx.Wire.{
  same_bytes, byte_at, IsByte, IsU16, IsU32, IsU64, put_u16, put_u32, put_u64, get_u16, get_u32,
  get_u64, get_byte,
}

or2 : (a b : ℕ) → IsByte a → bit_or a (b * 2 ^ 8) ≡ a + b * 2 ^ 8
or2 a b h = bit_or-low 8 b a h

or3 :
    (a b c : ℕ)
    → IsByte a
    → IsByte b
    → bit_or (bit_or a (b * 2 ^ 8)) (c * 2 ^ 16) ≡ a + b * 2 ^ 8 + c * 2 ^ 16
or3 a b c ha hb = ground (arith, or2 a b, bit_or-low 16 c (a + b * 2 ^ 8))

pub or4 :
    (a b c d : ℕ)
    → IsByte a
    → IsByte b
    → IsByte c
    → bit_or (bit_or (bit_or a (b * 2 ^ 8)) (c * 2 ^ 16)) (d * 2 ^ 24)
      ≡ a + b * 2 ^ 8 + c * 2 ^ 16 + d * 2 ^ 24
or4 a b c d ha hb hc = ground (arith, or3 a b c, bit_or-low 24 d (a + b * 2 ^ 8 + c * 2 ^ 16))

module _ (x e f g h : ℕ) (hx : IsU32 x) where
  or8 :
      IsByte e
      → IsByte f
      → IsByte g
      → bit_or (bit_or (bit_or (bit_or x (e * 2 ^ 32)) (f * 2 ^ 40)) (g * 2 ^ 48)) (h * 2 ^ 56)
        ≡ x + e * 2 ^ 32 + f * 2 ^ 40 + g * 2 ^ 48 + h * 2 ^ 56
  or8 he hf hg = ground (
    arith,
    bit_or-low 32 e x,
    bit_or-low 40 f (x + e * 2 ^ 32),
    bit_or-low 48 g (x + e * 2 ^ 32 + f * 2 ^ 40),
    bit_or-low 56 h (x + e * 2 ^ 32 + f * 2 ^ 40 + g * 2 ^ 48),
  )

pub get_u16-put_u16 : (v : ℕ) (rest : List ℕ) → IsU16 v → get_u16 (put_u16 v ++ rest) ≡ v
unfolding get_u16 put_u16
get_u16-put_u16 v rest h = omega (arith, or2 (v / 2 ^ 0 % 2 ^ 8) (v / 2 ^ 8 % 2 ^ 8) (omega arith))

pub get_u32-put_u32 : (v : ℕ) (rest : List ℕ) → IsU32 v → get_u32 (put_u32 v ++ rest) ≡ v
unfolding get_u32 put_u32
get_u32-put_u32 v rest h = omega (
  arith,
  or4 (v / 2 ^ 0 % 2 ^ 8) (v / 2 ^ 8 % 2 ^ 8) (v / 2 ^ 16 % 2 ^ 8) (v / 2 ^ 24 % 2 ^ 8)
      (omega arith) (omega arith) (omega arith),
)

low_word :
    (v : ℕ)
    → bit_or
        (bit_or (bit_or (byte_at v 0) (byte_at v 8 * 2 ^ 8)) (byte_at v 16 * 2 ^ 16))
        (byte_at v 24 * 2 ^ 24)
      ≡ v % 2 ^ 32
low_word v = omega (
  arith,
  or4 (byte_at v 0) (byte_at v 8) (byte_at v 16) (byte_at v 24) (omega arith) (omega arith)
      (omega arith),
)

pub get_u64-put_u64 : (v : ℕ) (rest : List ℕ) → IsU64 v → get_u64 (put_u64 v ++ rest) ≡ v
unfolding get_u64 put_u64
get_u64-put_u64 v rest h = rw (low_word v) (
    omega (
      arith,
      or8 (v % 2 ^ 32) (byte_at v 32) (byte_at v 40) (byte_at v 48) (byte_at v 56) (omega arith)
          (omega arith) (omega arith) (omega arith),
    ))

-- A 32-bit word is read as the sum of its bytes.
pub get_u32_sum :
    (a b c d : ℕ) (rest : List ℕ)
    → IsByte a
    → IsByte b
    → IsByte c
    → get_u32 (a ∷ b ∷ c ∷ d ∷ rest) ≡ a + b * 2 ^ 8 + c * 2 ^ 16 + d * 2 ^ 24
unfolding get_u32
get_u32_sum a b c d rest = or4 a b c d

pub length-put_u16 : (v : ℕ) → length (put_u16 v) ≡ 2
unfolding put_u16
length-put_u16 v = refl

pub length-put_u32 : (v : ℕ) → length (put_u32 v) ≡ 4
unfolding put_u32
length-put_u32 v = refl

pub length-put_u64 : (v : ℕ) → length (put_u64 v) ≡ 8
unfolding put_u64
length-put_u64 v = refl

pub put_u32-IsByte : (v : ℕ) → All IsByte (put_u32 v)
unfolding put_u32
put_u32-IsByte v = omega arith

-- Words read from bytes fit their width.
pub get_u16-IsU16 : (p : List ℕ) → All IsByte p → IsU16 (get_u16 p)
unfolding get_u16
get_u16-IsU16 [] h = omega arith
get_u16-IsU16 (a ∷ []) h = omega arith
get_u16-IsU16 (a ∷ b ∷ p) h = ground (arith, or2 a b)

pub get_u32-IsU32 : (p : List ℕ) → All IsByte p → IsU32 (get_u32 p)
unfolding get_u32
get_u32-IsU32 (a ∷ b ∷ c ∷ d ∷ p) h = ground (arith, or4 a b c d)
get_u32-IsU32 (a ∷ b ∷ c ∷ []) h = omega arith
get_u32-IsU32 (a ∷ b ∷ []) h = omega arith
get_u32-IsU32 (a ∷ []) h = omega arith
get_u32-IsU32 [] h = omega arith

pub get_u64-IsU64 : (p : List ℕ) → All IsByte p → IsU64 (get_u64 p)
unfolding get_u64
get_u64-IsU64 (a ∷ b ∷ c ∷ d ∷ e ∷ f ∷ g ∷ k ∷ p)
      (ha, (hb, (hc, (hd, (he, (hf, (hg, (hk, hp)))))))) =
    rw (or4 a b c d ha hb hc)
      (omega (arith, or8 (a + b * 2 ^ 8 + c * 2 ^ 16 + d * 2 ^ 24) e f g k (omega arith) he hf hg))
get_u64-IsU64 (a ∷ b ∷ c ∷ d ∷ e ∷ f ∷ g ∷ []) h = omega arith
get_u64-IsU64 (a ∷ b ∷ c ∷ d ∷ e ∷ f ∷ []) h = omega arith
get_u64-IsU64 (a ∷ b ∷ c ∷ d ∷ e ∷ []) h = omega arith
get_u64-IsU64 (a ∷ b ∷ c ∷ d ∷ []) h = omega arith
get_u64-IsU64 (a ∷ b ∷ c ∷ []) h = omega arith
get_u64-IsU64 (a ∷ b ∷ []) h = omega arith
get_u64-IsU64 (a ∷ []) h = omega arith
get_u64-IsU64 [] h = omega arith

pub get_byte-IsByte : (p : List ℕ) → All IsByte p → IsByte (get_byte p)
unfolding get_byte
get_byte-IsByte [] h = omega arith
get_byte-IsByte (a ∷ p) h = h.0

pub same_bytes-eq : (xs ys : List ℕ) → same_bytes xs ys ≡ true → xs ≡ ys
unfolding same_bytes
same_bytes-eq [] [] h = refl
same_bytes-eq [] (y ∷ ys) h = cc
same_bytes-eq (x ∷ xs) [] h = cc
same_bytes-eq (x ∷ xs) (y ∷ ys) h = ground (arith, same_bytes-eq xs ys)

pub same_bytes_refl : (xs : List ℕ) → same_bytes xs xs ≡ true
unfolding same_bytes
same_bytes_refl [] = refl
same_bytes_refl (x ∷ xs) = rw (==_refl x, same_bytes_refl xs) refl
