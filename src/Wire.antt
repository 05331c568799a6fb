-- ===== src/Wire.antt =====
-- src/liboryxcache/oryxcache.c, "little-endian encode/decode" (the same static helpers stand in
-- src/liboryxmap/oryxmap.c, and the reads in liboryxdec and liboryxrun). A buffer is the list of its
-- bytes, a pointer into it the rest of the list. A read past the end has no C meaning: it is 0 here,
-- and every caller compares lengths first.
pub mod Codec
use oryx.Prelude.{ℕ, ◌*◌, ◌/◌, ◌%◌, ◌^◌, ◌<◌, ◌==◌, bit_or, Bool, true, false, ◌&&◌, List, [], ◌∷◌}

abbrev pub IsByte : ℕ → Type 0
IsByte b = b < 2 ^ 8

abbrev pub IsU16 : ℕ → Type 0
IsU16 v = v < 2 ^ 16

abbrev pub IsU32 : ℕ → Type 0
IsU32 v = v < 2 ^ 32

abbrev pub IsU64 : ℕ → Type 0
IsU64 v = v < 2 ^ 64

-- `(uint8_t)(v >> k)`
abbrev pub byte_at : ℕ → ℕ → ℕ
byte_at v k = v / 2 ^ k % 2 ^ 8

unfoldable pub put_u16 : ℕ → List ℕ
put_u16 v = byte_at v 0 ∷ byte_at v 8 ∷ []

unfoldable pub put_u32 : ℕ → List ℕ
put_u32 v = byte_at v 0 ∷ byte_at v 8 ∷ byte_at v 16 ∷ byte_at v 24 ∷ []

unfoldable pub put_u64 : ℕ → List ℕ
put_u64 v =
    byte_at v 0
    ∷ byte_at v 8
    ∷ byte_at v 16
    ∷ byte_at v 24
    ∷ byte_at v 32
    ∷ byte_at v 40
    ∷ byte_at v 48
    ∷ byte_at v 56
    ∷ []

unfoldable pub get_u16 : List ℕ → ℕ
get_u16 (a ∷ b ∷ _) = bit_or a (b * 2 ^ 8)
get_u16 _ = 0

unfoldable pub get_u32 : List ℕ → ℕ
get_u32 (a ∷ b ∷ c ∷ d ∷ _) = bit_or (bit_or (bit_or a (b * 2 ^ 8)) (c * 2 ^ 16)) (d * 2 ^ 24)
get_u32 _ = 0

unfoldable pub get_u64 : List ℕ → ℕ
get_u64 (a ∷ b ∷ c ∷ d ∷ e ∷ f ∷ g ∷ h ∷ _) =
    let low = bit_or (bit_or (bit_or a (b * 2 ^ 8)) (c * 2 ^ 16)) (d * 2 ^ 24) in
    bit_or (bit_or (bit_or (bit_or low (e * 2 ^ 32)) (f * 2 ^ 40)) (g * 2 ^ 48)) (h * 2 ^ 56)
get_u64 _ = 0

-- `p[0]`
unfoldable pub get_byte : List ℕ → ℕ
get_byte [] = 0
get_byte (x ∷ _) = x

-- `memcmp(a, b, n) == 0` on two arrays of one length
unfoldable pub same_bytes : List ℕ → List ℕ → Bool
same_bytes [] [] = true
same_bytes (x ∷ xs) (y ∷ ys) = x == y && same_bytes xs ys
same_bytes _ _ = false
