-- ===== src/Sha256/Examples.antt =====
-- Runs of sha256.c.
use oryx.Prelude.{◌≡◌, refl, [], ◌∷◌, arith}
use oryx.Sha256.{init, block, update, sha256}
use oryx.Sha256.Streaming.{HasRoom, update-append}

-- FIPS 180-4: the digest of "abc".
sha256_abc :
    sha256 (b'a' ∷ b'b' ∷ b'c' ∷ [])
    ≡ 0xba ∷ 0x78 ∷ 0x16 ∷ 0xbf ∷ 0x8f ∷ 0x01 ∷ 0xcf ∷ 0xea ∷ 0x41 ∷ 0x41 ∷ 0x40 ∷ 0xde ∷ 0x5d
      ∷ 0xae ∷ 0x22 ∷ 0x23 ∷ 0xb0 ∷ 0x03 ∷ 0x61 ∷ 0xa3 ∷ 0x96 ∷ 0x17 ∷ 0x7a ∷ 0x9c ∷ 0xb4 ∷ 0x10
      ∷ 0xff ∷ 0x61 ∷ 0xf2 ∷ 0x00 ∷ 0x15 ∷ 0xad ∷ []
unfolding sha256 block
sha256_abc = refl

init-HasRoom : HasRoom init
init-HasRoom = omega arith

update-append_example : update (update init (1 ∷ 2 ∷ [])) (3 ∷ []) ≡ update init (1 ∷ 2 ∷ 3 ∷ [])
update-append_example = update-append init (1 ∷ 2 ∷ []) (3 ∷ []) init-HasRoom
