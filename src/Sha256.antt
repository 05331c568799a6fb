-- ===== src/Sha256.antt =====
-- src/liboryxcache/sha256.c and sha256.h. `buf[0 .. buflen)` is the list `buf`; the rest of the array
-- is never read. A word is a number below 2 ^ 32, and `+` on words is taken modulo 2 ^ 32.
pub mod Streaming
pub mod Digest
mod Examples
use oryx.Prelude.{
  ℕ, zero, suc, ◌+◌, ◌-◌, ◌*◌, ◌/◌, ◌%◌, ◌^◌, bit_and, bit_or, bit_xor, min, List, [], ◌∷◌, ◌++◌,
  length, take, drop, ltb, ◌==◌, if◌then◌else◌,
}

-- The eight words of `ctx.state`, and the working variables of a block.
pub record Words : Type 0 where
  pub a : ℕ
  pub b : ℕ
  pub c : ℕ
  pub d : ℕ
  pub e : ℕ
  pub f : ℕ
  pub g : ℕ
  pub h : ℕ

pub record Context : Type 0 where
  pub state : Words
  pub bitlen : ℕ
  pub buf : List ℕ

abbrev pub u32 : ℕ → ℕ
u32 v = v % 2 ^ 32

-- `ROR(x, n)`
ror : ℕ → ℕ → ℕ
ror x n = bit_or (x / 2 ^ n) (u32 (x * 2 ^ (32 - n)))

round_constants : List ℕ
round_constants =
    0x428a2f98 ∷ 0x71374491 ∷ 0xb5c0fbcf ∷ 0xe9b5dba5 ∷ 0x3956c25b ∷ 0x59f111f1 ∷ 0x923f82a4
    ∷ 0xab1c5ed5 ∷ 0xd807aa98 ∷ 0x12835b01 ∷ 0x243185be ∷ 0x550c7dc3 ∷ 0x72be5d74 ∷ 0x80deb1fe
    ∷ 0x9bdc06a7 ∷ 0xc19bf174 ∷ 0xe49b69c1 ∷ 0xefbe4786 ∷ 0x0fc19dc6 ∷ 0x240ca1cc ∷ 0x2de92c6f
    ∷ 0x4a7484aa ∷ 0x5cb0a9dc ∷ 0x76f988da ∷ 0x983e5152 ∷ 0xa831c66d ∷ 0xb00327c8 ∷ 0xbf597fc7
    ∷ 0xc6e00bf3 ∷ 0xd5a79147 ∷ 0x06ca6351 ∷ 0x14292967 ∷ 0x27b70a85 ∷ 0x2e1b2138 ∷ 0x4d2c6dfc
    ∷ 0x53380d13 ∷ 0x650a7354 ∷ 0x766a0abb ∷ 0x81c2c92e ∷ 0x92722c85 ∷ 0xa2bfe8a1 ∷ 0xa81a664b
    ∷ 0xc24b8b70 ∷ 0xc76c51a3 ∷ 0xd192e819 ∷ 0xd6990624 ∷ 0xf40e3585 ∷ 0x106aa070 ∷ 0x19a4c116
    ∷ 0x1e376c08 ∷ 0x2748774c ∷ 0x34b0bcb5 ∷ 0x391c0cb3 ∷ 0x4ed8aa4a ∷ 0x5b9cca4f ∷ 0x682e6ff3
    ∷ 0x748f82ee ∷ 0x78a5636f ∷ 0x84c87814 ∷ 0x8cc70208 ∷ 0x90befffa ∷ 0xa4506ceb ∷ 0xbef9a3f7
    ∷ 0xc67178f2 ∷ []

-- `w[i]` of the schedule so far
word_at : List ℕ → ℕ → ℕ
word_at [] i = 0
word_at (x ∷ xs) zero = x
word_at (x ∷ xs) (suc i) = word_at xs i

-- `w[0 .. 16)` from the block's bytes
load_words : ℕ → List ℕ → List ℕ
load_words (suc n) (p ∷ q ∷ r ∷ s ∷ rest) =
    bit_or (bit_or (bit_or (p * 2 ^ 24) (q * 2 ^ 16)) (r * 2 ^ 8)) s ∷ load_words n rest
load_words _ _ = []

-- `w[i]` for i from 16 on
next_word : List ℕ → ℕ → ℕ
unfolding ror word_at
next_word w i =
    let x = word_at w (i - 15) in
    let y = word_at w (i - 2) in
    let s0 = bit_xor (bit_xor (ror x 7) (ror x 18)) (x / 2 ^ 3) in
    let s1 = bit_xor (bit_xor (ror y 17) (ror y 19)) (y / 2 ^ 10) in
    u32 (word_at w (i - 16) + s0 + word_at w (i - 7) + s1)

extend_words : ℕ → ℕ → List ℕ → List ℕ
unfolding next_word
extend_words zero i w = w
extend_words (suc n) i w = extend_words n (i + 1) (w ++ next_word w i ∷ [])

-- One round: `k` is `K[i]` and `w` is `w[i]`.
round : Words → ℕ → ℕ → Words
unfolding ror
round v k w =
    let s1 = bit_xor (bit_xor (ror v.e 6) (ror v.e 11)) (ror v.e 25) in
    let ch = bit_xor (bit_and v.e v.f) (bit_and (2 ^ 32 - 1 - v.e) v.g) in
    let t1 = u32 (v.h + s1 + ch + k + w) in
    let s0 = bit_xor (bit_xor (ror v.a 2) (ror v.a 13)) (ror v.a 22) in
    let maj = bit_xor (bit_xor (bit_and v.a v.b) (bit_and v.a v.c)) (bit_and v.b v.c) in
    let t2 = u32 (s0 + maj) in
    record {
      a = u32 (t1 + t2);
      b = v.a;
      c = v.b;
      d = v.c;
      e = u32 (v.d + t1);
      f = v.e;
      g = v.f;
      h = v.g;
    }

rounds : Words → List ℕ → List ℕ → Words
unfolding round
rounds v (k ∷ ks) (w ∷ ws) = rounds (round v k w) ks ws
rounds v _ _ = v

unfoldable pub block : Words → List ℕ → Words
unfolding load_words extend_words rounds round_constants
block s p =
    let v = rounds s round_constants (extend_words 48 16 (load_words 16 p)) in
    record {
      a = u32 (s.a + v.a);
      b = u32 (s.b + v.b);
      c = u32 (s.c + v.c);
      d = u32 (s.d + v.d);
      e = u32 (s.e + v.e);
      f = u32 (s.f + v.f);
      g = u32 (s.g + v.g);
      h = u32 (s.h + v.h);
    }

abbrev pub init : Context
init = record {
  state = record {
    a = 0x6a09e667;
    b = 0xbb67ae85;
    c = 0x3c6ef372;
    d = 0xa54ff53a;
    e = 0x510e527f;
    f = 0x9b05688c;
    g = 0x1f83d9ab;
    h = 0x5be0cd19;
  };
  bitlen = 0;
  buf = [];
}

-- A full buffer is compressed and emptied.
flush_if_full : Context → Context
flush_if_full c =
    if length c.buf == 64 then record c { state = block c.state c.buf; buf = [] } else c

-- The `while (len > 0)` of `sha256_update`; every pass takes at least one byte.
update_loop : ℕ → Context → List ℕ → Context
unfolding flush_if_full
update_loop zero c bytes = c
update_loop (suc fuel) c [] = c
update_loop (suc fuel) c (x ∷ xs) =
    let n = min (64 - length c.buf) (length (x ∷ xs)) in
    update_loop fuel (flush_if_full (record c { buf = c.buf ++ take n (x ∷ xs) })) (drop n (x ∷ xs))

unfoldable pub update : Context → List ℕ → Context
unfolding update_loop
update c bytes =
    update_loop (length bytes) (record c { bitlen = (c.bitlen + length bytes * 8) % 2 ^ 64 }) bytes

zeros : ℕ → List ℕ
zeros zero = []
zeros (suc n) = 0 ∷ zeros n

-- `(uint8_t)(bitlen >> (i * 8))` for i from 7 down to 0
big_endian64 : ℕ → List ℕ
big_endian64 v =
    v / 2 ^ 56 % 2 ^ 8
    ∷ v / 2 ^ 48 % 2 ^ 8
    ∷ v / 2 ^ 40 % 2 ^ 8
    ∷ v / 2 ^ 32 % 2 ^ 8
    ∷ v / 2 ^ 24 % 2 ^ 8
    ∷ v / 2 ^ 16 % 2 ^ 8
    ∷ v / 2 ^ 8 % 2 ^ 8
    ∷ v % 2 ^ 8
    ∷ []

big_endian32 : ℕ → List ℕ
big_endian32 v = v / 2 ^ 24 % 2 ^ 8 ∷ v / 2 ^ 16 % 2 ^ 8 ∷ v / 2 ^ 8 % 2 ^ 8 ∷ v % 2 ^ 8 ∷ []

-- The padding of `sha256_final`, up to the length field.
pad : Context → Context
unfolding zeros
pad c =
    let marked = c.buf ++ 0x80 ∷ [] in
    if ltb 56 (length marked)
    then record c { state = block c.state (marked ++ zeros (64 - length marked)); buf = zeros 56 }
    else record c { buf = marked ++ zeros (56 - length marked) }

emit_digest : Words → List ℕ
unfolding big_endian32
emit_digest s =
    big_endian32 s.a
    ++ big_endian32 s.b
    ++ big_endian32 s.c
    ++ big_endian32 s.d
    ++ big_endian32 s.e
    ++ big_endian32 s.f
    ++ big_endian32 s.g
    ++ big_endian32 s.h

unfoldable pub final : Context → List ℕ
unfolding pad big_endian64 emit_digest
final c = let p = pad c in emit_digest (block p.state (p.buf ++ big_endian64 c.bitlen))

unfoldable pub sha256 : List ℕ → List ℕ
unfolding update final
sha256 bytes = final (update init bytes)

-- `h[n]`, the digit's character code
hex_digit : ℕ → ℕ
hex_digit n = if ltb n 10 then n + b'0' else n - 10 + b'a'

-- The 64 characters of `sha256_hex`, without the terminating NUL.
unfoldable pub sha256_hex : List ℕ → List ℕ
unfolding hex_digit
sha256_hex [] = []
sha256_hex (x ∷ xs) = hex_digit (x / 2 ^ 4) ∷ hex_digit (bit_and x 0xf) ∷ sha256_hex xs
