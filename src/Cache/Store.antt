-- ===== src/Cache/Store.antt =====
-- The store of src/liboryxcache/oryxcache.c. A directory maps a file's name to its bytes, `none` where there is
-- no file; the temporary file of `write_atomic` is gone when it returns. Whether the system calls of a
-- write or of a read succeed is asked of `Io`.
use oryx.Prelude.{
  ◌++◌, leb, ◌∷◌, [], ℕ, zero, suc, Bool, true, false, ◌&&◌, not, Option, none, some, List, [], ◌∷◌,
  length, take, ltb, ◌==◌, if◌then◌else◌,
}
use oryx.Errors.{Result, ok, err, io, format, integrity, notfound, inval, nomem, ◌>>=◌}
use oryx.Wire.{same_bytes}
use oryx.Sha256.Digest.{is_hex_char}
use oryx.TransUnit.{Tu}
use oryx.Cache.Format.{content_address, tu_logical_key, tu_serialize, tu_parse}

abbrev pub Dir : Type 0
Dir = List ℕ → Option (List ℕ)

-- The contents of root/blobs and root/index.
pub record Disk : Type 0 where
  pub blobs : Dir
  pub index : Dir

-- The environment: whether a file can be written, opened and read, and whether memory can be had.
pub record Io : Type 0 where
  pub can_write : List ℕ → Bool
  pub can_read : List ℕ → Bool
  pub malloc : ℕ → Bool

unfoldable pub with_file : Dir → List ℕ → List ℕ → Dir
with_file dir name bytes other = if same_bytes other name then some bytes else dir other

unfoldable pub write_atomic : Io → Dir → List ℕ → List ℕ → Result Dir
write_atomic env dir name bytes =
    if env.can_write name then ok (with_file dir name bytes) else err io

unfoldable pub read_bytes : Io → List ℕ → Option (List ℕ) → Result (List ℕ)
read_bytes env name none = err notfound
read_bytes env name (some bytes) =
    let n = length bytes in
    if not (env.malloc (if n == 0 then 1 else n))
    then err nomem
    else (if env.can_read name then ok bytes else err io)

unfoldable pub read_file : Io → Dir → List ℕ → Result (List ℕ)
read_file env dir name = read_bytes env name (dir name)

-- The test of the character behind the last one, where `n` more are wanted.
unfoldable pub is_hex : ℕ → List ℕ → Bool
is_hex zero [] = true
is_hex zero (ch ∷ s) = false
is_hex (suc n) [] = false
is_hex (suc n) (ch ∷ s) = is_hex_char ch && is_hex n s

unfoldable pub is_hex64 : List ℕ → Bool
is_hex64 s = is_hex 64 s

-- `access(path, F_OK) == 0`
unfoldable pub exists : Option (List ℕ) → Bool
exists none = false
exists (some bytes) = true

-- The blob is written unless it is there.
unfoldable pub put_content : Io → Disk → List ℕ → List ℕ → Result Disk
put_content env disk addr bytes =
    if exists (disk.blobs addr)
    then ok disk
    else (write_atomic env disk.blobs addr bytes >>= λ blobs. ok (record disk { blobs = blobs }))

-- The disk and the return code after the index entry is written.
unfoldable pub pointed : Disk → List ℕ → Result Dir → Disk × Result (List ℕ)
pointed disk addr (err e) = (disk, err e)
pointed disk addr (ok index) = (record disk { index = index }, ok addr)

unfoldable pub point_index : Io → List ℕ → List ℕ → Disk → Result Disk → Disk × Result (List ℕ)
point_index env key addr disk (err e) = (disk, err e)
point_index env key addr disk (ok stored) =
    pointed stored addr (write_atomic env stored.index key addr)

-- The disk afterwards, and the address.
unfoldable pub put_blob : Io → Disk → List ℕ → List ℕ → Disk × Result (List ℕ)
put_blob env disk bytes key =
    let addr = content_address bytes in
    if not (is_hex64 key)
    then (disk, err inval)
    else point_index env key addr disk (put_content env disk addr bytes)

unfoldable pub get_blob : Io → Disk → List ℕ → Result (List ℕ)
get_blob env disk addr =
    if not (is_hex64 addr)
    then err inval
    else (read_file env disk.blobs addr >>= λ bytes.
        if not (same_bytes (content_address bytes) addr) then err integrity else ok bytes)

unfoldable pub resolve : Io → Disk → List ℕ → Result (List ℕ)
resolve env disk key =
    if not (is_hex64 key)
    then err inval
    else (read_file env disk.index key >>= λ bytes.
        if ltb (length bytes) 64
        then err format
        else (if not (is_hex64 (take 64 bytes)) then err format else ok (take 64 bytes)))

unfoldable pub put_serialized : Io → Disk → List ℕ → Result (List ℕ) → Disk × Result (List ℕ)
put_serialized env disk key (err e) = (disk, err e)
put_serialized env disk key (ok bytes) = put_blob env disk bytes key

unfoldable pub put_tu : Io → Disk → Tu → Disk × Result (List ℕ)
put_tu env disk tu = put_serialized env disk (tu_logical_key tu) (tu_serialize env.malloc tu)

unfoldable pub get_tu : Io → Disk → List ℕ → Result Tu
get_tu env disk key =
    resolve env disk key >>= λ addr. get_blob env disk addr >>= tu_parse env.malloc

unfoldable pub verify : Io → Disk → List ℕ → Result (Unit {0})
verify env disk addr = get_blob env disk addr >>= λ bytes. ok tt

-- `mkdir(path, 0755) == 0 || errno == EEXIST`
unfoldable pub mkdir_p : (List ℕ → Bool) → List ℕ → Result (Unit {0})
mkdir_p mkdir path = if mkdir path then ok tt else err io

-- The root's path, which the handle keeps; it has 512 bytes for it.
unfoldable pub cache_open : (List ℕ → Bool) → List ℕ → Result (List ℕ)
cache_open mkdir root =
    if leb 512 (length root)
    then err inval
    else (mkdir_p mkdir root >>= λ made.
        mkdir_p mkdir (root ++ (b'/' ∷ b'b' ∷ b'l' ∷ b'o' ∷ b'b' ∷ b's' ∷ [])) >>= λ blobs.
        mkdir_p mkdir (root ++ (b'/' ∷ b'i' ∷ b'n' ∷ b'd' ∷ b'e' ∷ b'x' ∷ [])) >>= λ index. ok root)
