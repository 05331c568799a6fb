-- ===== src/Cache/Command.antt =====
-- src/liboryxcache/oryxcache_cli.c: the command line of the cache. A run gives the files and the stores behind
-- it, what is printed on the standard output, and the exit status.
use oryx.Prelude.{
  ltb, ◌==◌, if◌then◌else◌, length, take, ℕ, zero, suc, ◌+◌, Bool, ◌||◌, not, Option, none, some,
  List, [], ◌∷◌, ◌++◌,
}
use oryx.Errors.{Result, ◌>>=◌, io, format, integrity, notfound, inval, nomem, err, ok}
use oryx.Wire.{same_bytes}
use oryx.Sha256.{sha256, sha256_hex}
use oryx.Profiles.Text.{codes}
use oryx.Cache.Store.{Dir, Disk, Io, with_file, put_blob, get_blob, resolve, verify, cache_open}

-- The files of the user, which lie outside the stores, and the store in each directory.
pub record World : Type 0 where
  pub files : Dir
  pub stores : List ℕ → Disk

-- The system calls of the command line: whether a file can be opened and its size had, how many bytes a read from an
-- offset gives (0 at an error), whether a file can be made, how many of so many bytes a write puts there,
-- and the conversion %zu.
pub record Shell : Type 0 where
  pub env : Io
  pub mkdir : List ℕ → Bool
  pub can_open : List ℕ → Bool
  pub read_count : List ℕ → ℕ → ℕ
  pub can_create : List ℕ → Bool
  pub write_count : List ℕ → ℕ → ℕ
  pub show_size : ℕ → List ℕ

abbrev pub Answer : Type 0
Answer = World × (List ℕ × ℕ)

abbrev pub end_line : List ℕ
end_line = b'\n' ∷ []

-- The loop of `slurp`, which reads at least one byte each time: `size` units of fuel.
unfoldable pub slurp_loop : (ℕ → ℕ) → ℕ → ℕ → ℕ → ℕ
slurp_loop count zero size got = got
slurp_loop count (suc fuel) size got =
    let rest = slurp_loop count fuel size (got + count got) in
    if ltb got size then (if count got == 0 then got else rest) else got

unfoldable pub slurped : Shell → List ℕ → Option (List ℕ) → Option (List ℕ)
slurped sh path none = none
slurped sh path (some bytes) =
    let size = length bytes in
    if not (sh.can_open path) || not (sh.env.malloc (if size == 0 then 1 else size))
    then none
    else some (take (slurp_loop (sh.read_count path) size size 0) bytes)

unfoldable pub slurp : Shell → Dir → List ℕ → Option (List ℕ)
slurp sh files path = slurped sh path (files path)

unfoldable pub errstr : Result (Unit {0}) → List ℕ
errstr (ok done) = codes "ok"
errstr (err io) = codes "io error"
errstr (err format) = codes "bad format"
errstr (err integrity) = codes "INTEGRITY FAILURE"
errstr (err notfound) = codes "not found"
errstr (err inval) = codes "invalid argument"
errstr (err nomem) = codes "out of memory"
errstr (err e) = codes "unknown"

abbrev pub failure : World → Answer
failure w = (w, ([], 1))

abbrev pub with_store : World → List ℕ → Disk → World
with_store w dir disk = record w {
  stores = λ other. if same_bytes other dir then disk else w.stores other;
}

unfoldable pub key_command : World → List ℕ → Answer
key_command w text = (w, (sha256_hex (sha256 text) ++ end_line, 0))

unfoldable pub put_answer : World → List ℕ → Disk × Result (List ℕ) → Answer
put_answer w dir (disk, err e) = failure (with_store w dir disk)
put_answer w dir (disk, ok addr) = (with_store w dir disk, (addr ++ end_line, 0))

unfoldable pub put_slurped : Shell → World → List ℕ → List ℕ → Option (List ℕ) → Answer
put_slurped sh w dir key none = failure w
put_slurped sh w dir key (some contents) =
    put_answer w dir (put_blob sh.env (w.stores dir) contents key)

unfoldable pub put_opened : Shell → World → List ℕ → List ℕ → List ℕ → Result (List ℕ) → Answer
put_opened sh w dir key path (err e) = failure w
put_opened sh w dir key path (ok root) = put_slurped sh w dir key (slurp sh w.files path)

unfoldable pub put_command : Shell → World → List ℕ → List ℕ → List ℕ → Answer
put_command sh w dir key path = put_opened sh w dir key path (cache_open sh.mkdir dir)

unfoldable pub printed : World → Result (List ℕ) → Answer
printed w (err e) = failure w
printed w (ok addr) = (w, (addr ++ end_line, 0))

unfoldable pub resolve_command : Shell → World → List ℕ → List ℕ → Answer
resolve_command sh w dir key =
    printed w (cache_open sh.mkdir dir >>= λ root. resolve sh.env (w.stores dir) key)

-- The blob goes to a new file; the status is 0 also when the write falls short.
unfoldable pub get_answer : Shell → World → List ℕ → Result (List ℕ) → Answer
get_answer sh w path (err e) = failure w
get_answer sh w path (ok bytes) = if not (sh.can_create path) then failure w else (
  record w { files = with_file w.files path (take (sh.write_count path (length bytes)) bytes) },
  (
    codes "wrote "
        ++ (sh.show_size (length bytes) ++ (codes " bytes (integrity verified)" ++ end_line)),
    0,
  ),
)

unfoldable pub get_command : Shell → World → List ℕ → List ℕ → List ℕ → Answer
get_command sh w dir addr path =
    get_answer sh w path (cache_open sh.mkdir dir >>= λ root. get_blob sh.env (w.stores dir) addr)

unfoldable pub verify_answer : World → List ℕ → Result (Unit {0}) → Answer
verify_answer w addr rc =
    (w, (addr ++ (codes ": " ++ (errstr rc ++ end_line)), elim rc [ ok done ↦ 0 | err e ↦ 1 ]))

unfoldable pub verify_opened : Shell → World → List ℕ → List ℕ → Result (List ℕ) → Answer
verify_opened sh w dir addr (err e) = failure w
verify_opened sh w dir addr (ok root) = verify_answer w addr (verify sh.env (w.stores dir) addr)

abbrev pub usage : World → Answer
usage w = (w, ([], 2))

-- `main` for the name of a command and what follows it.
unfoldable pub command : Shell → World → List ℕ → List (List ℕ) → Answer
command sh w name (a ∷ []) = if same_bytes name (codes "key") then key_command w a else usage w
command sh w name (a ∷ b ∷ []) =
    if same_bytes name (codes "resolve")
    then resolve_command sh w a b
    else (if same_bytes name (codes "verify")
        then verify_opened sh w a b (cache_open sh.mkdir a)
        else usage w)
command sh w name (a ∷ b ∷ c ∷ []) =
    if same_bytes name (codes "put")
    then put_command sh w a b c
    else (if same_bytes name (codes "get") then get_command sh w a b c else usage w)
command sh w name _ = usage w

unfoldable pub main : Shell → World → List (List ℕ) → Answer
main sh w [] = usage w
main sh w (name ∷ args) = command sh w name args
