-- ===== src/Cache/Reading.antt =====
-- What was put into the store of oryxcache.c is had again.
use oryx.Prelude.{
  subst, ℕ, zero, suc, ◌≡◌, refl, sym, ap, ◌∙◌, Bool, true, false, ◌||◌, some, none, List, [], ◌∷◌,
  length, take, All, arith,
}
use oryx.Errors.{ok}
use oryx.Wire.Codec.{same_bytes_refl}
use oryx.Sha256.{sha256, sha256_hex}
use oryx.Sha256.Digest.{
  is_hex_char, length-sha256, sha256-IsByte, sha256_hex-is_hex_char, length-sha256_hex,
}
use oryx.TransUnit.{Tu}
use oryx.Cache.Format.{content_address, tu_image, tu_serialize, tu_logical_key, section_fits}
use oryx.Cache.RoundTrip.{IsTu, HasMemory, tu_parse-tu_serialize}
use oryx.Cache.Store.{
  Disk, Io, read_bytes, read_file, is_hex, is_hex64, put_blob, get_blob, resolve, put_serialized,
  put_tu, get_tu,
}
use oryx.Cache.Integrity.{IsStore, kept, with_file-name, Put, put_blob-Put}

is_hex-length : (s : List ℕ) → All (λ ch. is_hex_char ch ≡ true) s → is_hex (length s) s ≡ true
unfolding is_hex
is_hex-length [] h = refl
is_hex-length (ch ∷ s) h = rw (h.0, is_hex-length s h.1) refl

-- The text of a digest is a file name that the store accepts.
sha256_hex-is_hex64 : (bytes : List ℕ) → is_hex64 (sha256_hex (sha256 bytes)) ≡ true
unfolding is_hex64
sha256_hex-is_hex64 bytes =
    ap (λ n. is_hex n (sha256_hex (sha256 bytes)))
      (omega (arith, length-sha256_hex (sha256 bytes), length-sha256 bytes))
    ∙ is_hex-length (sha256_hex (sha256 bytes))
        (sha256_hex-is_hex_char (sha256 bytes) (sha256-IsByte bytes))

length-content_address : (bytes : List ℕ) → length (content_address bytes) ≡ 64
unfolding content_address
length-content_address bytes = omega (arith, length-sha256_hex (sha256 bytes), length-sha256 bytes)

pub content_address-is_hex64 : (bytes : List ℕ) → is_hex64 (content_address bytes) ≡ true
unfolding content_address
content_address-is_hex64 bytes = sha256_hex-is_hex64 bytes

pub tu_logical_key-is_hex64 : (tu : Tu) → is_hex64 (tu_logical_key tu) ≡ true
unfolding tu_logical_key
tu_logical_key-is_hex64 tu = sha256_hex-is_hex64 _

take-all {ℓ} : {A : Type ℓ} (n : ℕ) (xs : List A) → length xs ≡ n → take n xs ≡ xs
take-all zero [] h = refl
take-all zero (x ∷ xs) h = absurd (omega arith)
take-all (suc n) [] h = refl
take-all (suc n) (x ∷ xs) h = ap (λ t. x ∷ t) (take-all n xs (omega arith))

-- Memory can be had, and every file that is there can be read.
pub record IsReadable (env : Io) : Type 0 where
  pub memory : (n : ℕ) → env.malloc n ≡ true
  pub files : (name : List ℕ) → env.can_read name ≡ true

module _ (env : Io) (good : IsReadable env) where
  read_bytes-ok : (name bytes : List ℕ) → read_bytes env name (some bytes) ≡ ok bytes
  unfolding read_bytes
  read_bytes-ok name bytes = rw (good.memory, good.files) refl

  get_blob-ok :
      (disk : Disk) (addr bytes : List ℕ)
      → is_hex64 addr ≡ true
      → disk.blobs addr ≡ some bytes
      → content_address bytes ≡ addr
      → get_blob env disk addr ≡ ok bytes
  unfolding get_blob read_file
  get_blob-ok disk addr bytes named there hashed =
      rw (named, there, read_bytes-ok addr bytes, hashed, same_bytes_refl addr) refl

  resolve-ok :
      (disk : Disk) (key addr : List ℕ)
      → is_hex64 key ≡ true
      → disk.index key ≡ some addr
      → length addr ≡ 64
      → is_hex64 addr ≡ true
      → resolve env disk key ≡ ok addr
  unfolding resolve read_file
  resolve-ok disk key addr named there long hex =
      rw (named, there, read_bytes-ok key addr, long, take-all 64 addr long, hex) refl

  -- After a successful put the key resolves to the returned address, and the blob there is the one that
  -- was put or, if the address was in use, the one that was there, with the same hash.
  pub put_blob-read :
      (disk d : Disk) (bytes key addr : List ℕ)
      → IsStore disk
      → put_blob env disk bytes key ≡ (d, ok addr)
      → (resolve env d key ≡ ok addr)
        × (get_blob env d addr ≡ ok (kept (disk.blobs addr) bytes))
        × (content_address (kept (disk.blobs addr) bytes) ≡ content_address bytes)
  put_blob-read disk d bytes key addr stored run =
      let after = subst (Put disk bytes key) run (put_blob-Put env disk bytes key stored) in
      let (whole, same, named, indexed, there) = after in
      let hashed = whole addr (kept (disk.blobs addr) bytes) there in
      (
        resolve-ok d key addr named (ap (λ i. i key) indexed ∙ with_file-name disk.index key addr)
            (ap length same ∙ length-content_address bytes)
            (ap is_hex64 same ∙ content_address-is_hex64 bytes),
        get_blob-ok d addr (kept (disk.blobs addr) bytes)
            (ap is_hex64 same ∙ content_address-is_hex64 bytes) there hashed,
        hashed ∙ same,
      )

  serialize_ok : (tu : Tu) → tu_serialize env.malloc tu ≡ ok (tu_image tu)
  unfolding tu_serialize
  serialize_ok tu = rw good.memory refl

  has_memory : (tu : Tu) → HasMemory env.malloc tu
  unfolding section_fits
  has_memory tu = (always _ _, always _ _, always _ _)
    where
      always : (b : Bool) (n : ℕ) → (b || env.malloc n) ≡ true
      always true n = refl
      always false n = good.memory n

  put_tu-put_blob :
      (disk : Disk) (tu : Tu)
      → put_tu env disk tu ≡ put_blob env disk (tu_image tu) (tu_logical_key tu)
  unfolding put_tu put_serialized
  put_tu-put_blob disk tu = rw (serialize_ok tu) refl

  -- A unit that was put under a fresh address is the unit that its logical key gives back.
  pub get_tu-put_tu :
      (disk d : Disk) (tu : Tu) (addr : List ℕ)
      → IsTu tu
      → IsStore disk
      → disk.blobs (content_address (tu_image tu)) ≡ none
      → put_tu env disk tu ≡ (d, ok addr)
      → get_tu env d (tu_logical_key tu) ≡ ok tu
  unfolding get_tu
  get_tu-put_tu disk d tu addr valid stored fresh run =
      let put = sym (put_tu-put_blob disk tu) ∙ run in
      let after =
        subst (Put disk (tu_image tu) (tu_logical_key tu)) put
          (put_blob-Put env disk (tu_image tu) (tu_logical_key tu) stored) in
      let (resolved, got, hashed) =
        put_blob-read disk d (tu_image tu) (tu_logical_key tu) addr stored put in
      let image_there : kept (disk.blobs addr) (tu_image tu) ≡ tu_image tu =
        ap (λ a. kept (disk.blobs a) (tu_image tu)) after.1
        ∙ ap (λ o. kept o (tu_image tu)) fresh in
      rw (resolved, got, image_there)
        (tu_parse-tu_serialize env.malloc tu (tu_image tu) valid (has_memory tu) (serialize_ok tu))
