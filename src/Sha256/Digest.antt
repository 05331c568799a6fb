-- ===== src/Sha256/Digest.antt =====
-- The shape of a digest and of its hexadecimal form.
use oryx.Prelude.{
  ℕ, ◌*◌, ◌/◌, ◌^◌, ◌<◌, ◌≡◌, refl, List, [], ◌∷◌, length, All, arith, bit_and_low, bit_and, leb,
  Bool, true, ◌&&◌, ◌||◌,
}
use oryx.Wire.{IsByte}
use oryx.Sha256.{emit_digest, hex_digit, sha256, sha256_hex}

pub length-sha256 : (bytes : List ℕ) → length (sha256 bytes) ≡ 32
unfolding sha256
length-sha256 bytes = refl

emit_digest-IsByte : (s : _) → All IsByte (emit_digest s)
unfolding emit_digest
emit_digest-IsByte s = omega arith

pub sha256-IsByte : (bytes : List ℕ) → All IsByte (sha256 bytes)
unfolding sha256
sha256-IsByte bytes = unfold emit_digest in (omega arith)

-- `is_hex64` of oryxcache.c accepts a character by this test.
abbrev pub is_hex_char : ℕ → Bool
is_hex_char ch = (leb b'0' ch && leb ch b'9') || (leb b'a' ch && leb ch b'f')

hex_digit-is_hex_char : (n : ℕ) → n < 16 → is_hex_char (hex_digit n) ≡ true
unfolding hex_digit
hex_digit-is_hex_char n h = ground arith

-- The text of any byte string, a digest among them, consists of lower-case hexadecimal digits, the
-- characters that the cache accepts in a name.
pub sha256_hex-is_hex_char :
    (bytes : List ℕ) → All IsByte bytes → All (λ ch. is_hex_char ch ≡ true) (sha256_hex bytes)
unfolding sha256_hex
sha256_hex-is_hex_char [] h = tt
sha256_hex-is_hex_char (x ∷ xs) (hx, hxs) = (
  hex_digit-is_hex_char (x / 2 ^ 4) (omega arith),
  (
    hex_digit-is_hex_char (bit_and x 0xf) (omega (arith, bit_and_low 4 x)),
    sha256_hex-is_hex_char xs hxs,
  ),
)

pub length-sha256_hex : (bytes : List ℕ) → length (sha256_hex bytes) ≡ 2 * length bytes
unfolding sha256_hex
length-sha256_hex [] = refl
length-sha256_hex (x ∷ xs) = omega (arith, length-sha256_hex xs)
