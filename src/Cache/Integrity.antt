-- ===== src/Cache/Integrity.antt =====
-- The store of oryxcache.c fails closed: what it returns hashes to the address that was asked for.
use oryx.Prelude.{
  ℕ, ◌≡◌, refl, ap, Bool, true, false, not, Bool-cases, not-eq-false, Option, some, none, List,
  if◌then◌else◌, arith, inl, inr,
}
use oryx.Errors.{Result, ok, err, io, nomem, inval, integrity, Ensures, Ensures-bind, Ensures-guard}
use oryx.Wire.{same_bytes}
use oryx.Wire.Codec.{same_bytes-eq, same_bytes_refl}
use oryx.Cache.Format.{content_address}
use oryx.Cache.Store.{
  Dir, Disk, Io, with_file, write_atomic, read_bytes, read_file, is_hex64, exists, put_content,
  pointed, point_index, put_blob, get_blob,
}

-- Every blob hashes to its name.
abbrev pub IsStore : Disk → Type 0
IsStore disk = (name bytes : List ℕ) → disk.blobs name ≡ some bytes → content_address bytes ≡ name

read_bytes-some :
    (env : Io) (name : List ℕ) (o : Option (List ℕ))
    → Ensures (read_bytes env name o) (λ bytes. o ≡ some bytes)
unfolding read_bytes
read_bytes-some env name none = tt
read_bytes-some env name (some bytes) =
    Ensures-guard (λ b. some bytes ≡ some b) _ nomem
      (if env.can_read name then ok bytes else err io) (λ room. readable (env.can_read name))
  where
    readable : (b : Bool) → Ensures (if b then ok bytes else err io) (λ c. some bytes ≡ some c)
    readable true = refl
    readable false = tt

-- A blob that `get_blob` returns stands on the disk under the address that was asked for, and hashes to
-- that address, whatever the disk holds.
pub get_blob-content_address :
    (env : Io) (disk : Disk) (addr : List ℕ)
    → Ensures
        (get_blob env disk addr)
        (λ bytes. (content_address bytes ≡ addr) × (disk.blobs addr ≡ some bytes))
unfolding get_blob read_file
get_blob-content_address env disk addr =
    let Good : List ℕ → Type 0 =
      λ bytes. (content_address bytes ≡ addr) × (disk.blobs addr ≡ some bytes) in
    Ensures-guard Good (not (is_hex64 addr)) inval _ (λ named.
      Ensures-bind (λ bytes. disk.blobs addr ≡ some bytes) Good
        (read_bytes env addr (disk.blobs addr)) _ (read_bytes-some env addr (disk.blobs addr))
        (λ bytes found.
          Ensures-guard Good (not (same_bytes (content_address bytes) addr)) integrity (ok bytes)
            (λ same. (same_bytes-eq (content_address bytes) addr (not-eq-false _ same), found))))

with_file-IsStore :
    (disk : Disk) (bytes : List ℕ)
    → IsStore disk
    → IsStore (record disk { blobs = with_file disk.blobs (content_address bytes) bytes })
unfolding with_file
with_file-IsStore disk bytes stored name found h =
    elim (Bool-cases (same_bytes name (content_address bytes))) [
      | inl same ↦ ground (arith, same_bytes-eq name (content_address bytes) same)
      | inr other ↦ stored name found (rw other at h)
    ]

-- What stands under an address where `bytes` were put: an old blob is kept.
abbrev pub kept : Option (List ℕ) → List ℕ → List ℕ
kept none bytes = bytes
kept (some old) bytes = old

-- The store is whole, the index is untouched, and there is a blob under the address.
abbrev pub HasContent : Disk → List ℕ → Disk → Type 0
HasContent disk bytes d =
    IsStore d
    × (d.index ≡ disk.index)
    × (d.blobs (content_address bytes) ≡ some (kept (disk.blobs (content_address bytes)) bytes))

exists-kept : (o : Option (List ℕ)) (bytes : List ℕ) → exists o ≡ true → o ≡ some (kept o bytes)
unfolding exists
exists-kept none bytes h = cc
exists-kept (some old) bytes h = refl

absent-kept : (o : Option (List ℕ)) (bytes : List ℕ) → exists o ≡ false → kept o bytes ≡ bytes
unfolding exists
absent-kept none bytes h = refl
absent-kept (some old) bytes h = cc

pub with_file-name : (dir : Dir) (name bytes : List ℕ) → with_file dir name bytes name ≡ some bytes
unfolding with_file
with_file-name dir name bytes = rw (same_bytes_refl name) refl

pub put_content-HasContent :
    (env : Io) (disk : Disk) (bytes : List ℕ)
    → IsStore disk
    → Ensures (put_content env disk (content_address bytes) bytes) (HasContent disk bytes)
unfolding put_content write_atomic
put_content-HasContent env disk bytes stored =
    let old = disk.blobs (content_address bytes) in
    elim (Bool-cases (exists old)) [
      | inl there ↦ rw there (stored, refl, exists-kept old bytes there)
      | inr absent ↦ elim (Bool-cases (env.can_write (content_address bytes))) [
        | inl works ↦
            rw (absent, works, absent-kept old bytes absent)
              (
                with_file-IsStore disk bytes stored,
                refl,
                with_file-name disk.blobs (content_address bytes) bytes,
              )
        | inr fails ↦ rw (absent, fails) tt
      ]
    ]

-- What a put leaves behind: on a failure a whole store and the old index, on success also the index entry of
-- the key and a blob under the returned address.
abbrev pub Put : Disk → List ℕ → List ℕ → Disk × Result (List ℕ) → Type 0
Put disk bytes key (d, err e) = IsStore d × (d.index ≡ disk.index)
Put disk bytes key (d, ok addr) =
    IsStore d
    × (addr ≡ content_address bytes)
    × (is_hex64 key ≡ true)
    × (d.index ≡ with_file disk.index key addr)
    × (d.blobs addr ≡ some (kept (disk.blobs addr) bytes))

point_index-Put :
    (env : Io) (disk : Disk) (bytes key : List ℕ) (r : Result Disk)
    → IsStore disk
    → is_hex64 key ≡ true
    → Ensures r (HasContent disk bytes)
    → Put disk bytes key (point_index env key (content_address bytes) disk r)
unfolding point_index pointed write_atomic
point_index-Put env disk bytes key (err e) stored named h = (stored, refl)
point_index-Put env disk bytes key (ok d) stored named (whole, same, there) =
    elim (Bool-cases (env.can_write key)) [
      | inl works ↦
          rw works
            (whole, refl, named, ap (λ t. with_file t key (content_address bytes)) same, there)
      | inr fails ↦ rw fails (whole, same)
    ]

-- A put into a store whose blobs hash to their names leaves such a store, whatever fails. If it fails, the index is as
-- before; if it succeeds, the key is a name, the index has the content address under it, and there is a blob under
-- that address.
pub put_blob-Put :
    (env : Io) (disk : Disk) (bytes key : List ℕ)
    → IsStore disk
    → Put disk bytes key (put_blob env disk bytes key)
unfolding put_blob
put_blob-Put env disk bytes key stored = elim (Bool-cases (is_hex64 key)) [
  | inr alien ↦ rw alien (stored, refl)
  | inl named ↦ rw named (
      point_index-Put env disk bytes key (put_content env disk (content_address bytes) bytes) stored
        named (put_content-HasContent env disk bytes stored))
]
