-- ===== src/Cache/Session.antt =====
-- What a put and a get of oryxcache_cli.c do together.
use oryx.Prelude.{
  ltb, ltb_false→le, ==_ne, Bool-cases, length, take, ℕ, zero, suc, ◌+◌, ◌≤◌, ◌<◌, ◌≡◌, subst, refl,
  sym, ap, ◌∙◌, inl, inr, true, some, List, [], ◌∷◌, ◌++◌, arith,
}
use oryx.Errors.{Result, err, ok}
use oryx.Wire.{same_bytes}
use oryx.Wire.Codec.{same_bytes_refl}
use oryx.Profiles.Text.{codes}
use oryx.Cache.Format.{content_address}
use oryx.Cache.Store.{Dir, Disk, with_file, put_blob, get_blob, resolve, cache_open}
use oryx.Cache.Integrity.{IsStore, kept, Put, put_blob-Put}
use oryx.Cache.Reading.{IsReadable, put_blob-read}
use oryx.Cache.Command.{
  World, Shell, Answer, end_line, slurp_loop, slurped, slurp, with_store, put_answer, put_slurped,
  put_opened, put_command, printed, resolve_command, get_answer, get_command, command, main,
}

-- Memory can be had, files can be read, a read gives a byte at least, and a write takes all bytes.
pub record IsReliable (sh : Shell) : Type 0 where
  pub readable : IsReadable sh.env
  pub reads : (path : List ℕ) (got : ℕ) → 0 < sh.read_count path got
  pub opens : (path : List ℕ) → sh.can_open path ≡ true
  pub creates : (path : List ℕ) → sh.can_create path ≡ true
  pub writes : (path : List ℕ) (n : ℕ) → sh.write_count path n ≡ n

slurp_loop-whole :
    (count : ℕ → ℕ) (fuel size got : ℕ)
    → ((at : ℕ) → 0 < count at)
    → size ≤ got + fuel
    → size ≤ slurp_loop count fuel size got
unfolding slurp_loop
slurp_loop-whole count zero size got progress enough = omega arith
slurp_loop-whole count (suc fuel) size got progress enough = elim (Bool-cases (ltb got size)) [
  | inr past ↦ rw past (ltb_false→le got size past)
  | inl inside ↦
      rw (inside, ==_ne (count got) 0 (λ e. omega (arith, progress got)))
        (slurp_loop-whole count fuel size (got + count got) progress (omega (arith, progress got)))
]

take-past {ℓ} : {A : Type ℓ} (n : ℕ) (xs : List A) → length xs ≤ n → take n xs ≡ xs
take-past zero [] h = refl
take-past zero (x ∷ xs) h = absurd (omega arith)
take-past (suc n) [] h = refl
take-past (suc n) (x ∷ xs) h = ap (λ t. x ∷ t) (take-past n xs (omega arith))

module _ (sh : Shell) (w : World) where
  main-put :
      (dir key path : List ℕ)
      → main sh w (codes "put" ∷ dir ∷ key ∷ path ∷ []) ≡ put_command sh w dir key path
  unfolding main command same_bytes
  main-put dir key path = refl

  main-get :
      (dir addr path : List ℕ)
      → main sh w (codes "get" ∷ dir ∷ addr ∷ path ∷ []) ≡ get_command sh w dir addr path
  unfolding main command same_bytes
  main-get dir addr path = refl

  main-resolve :
      (dir key : List ℕ)
      → main sh w (codes "resolve" ∷ dir ∷ key ∷ []) ≡ resolve_command sh w dir key
  unfolding main command same_bytes
  main-resolve dir key = refl

with_store-same :
    (w : World) (dir : List ℕ) (disk : Disk) → (with_store w dir disk).stores dir ≡ disk
with_store-same w dir disk = rw (same_bytes_refl dir) refl

module _ (sh : Shell) (good : IsReliable sh) where
  slurp-whole :
      (files : Dir) (path bytes : List ℕ)
      → files path ≡ some bytes
      → slurp sh files path ≡ some bytes
  unfolding slurp slurped
  slurp-whole files path bytes there =
      rw (there, good.opens, good.readable.memory)
        (ap some (
          take-past _ bytes (
            slurp_loop-whole (sh.read_count path) (length bytes) (length bytes) 0 (good.reads path)
              (omega arith))))

  get_answer-ok :
      (w : World) (path bytes : List ℕ)
      → (get_answer sh w path (ok bytes)).0.files path ≡ some bytes
  unfolding get_answer with_file
  get_answer-ok w path bytes =
      rw (good.creates, good.writes, same_bytes_refl path)
        (ap some (take-past (length bytes) bytes (omega arith)))

  put_answer-ok :
      (w w' : World) (dir text : List ℕ) (r : Disk × Result (List ℕ))
      → put_answer w dir r ≡ (w', (text, 0))
      → (addr : List ℕ) × (r.1 ≡ ok addr) × (w' ≡ with_store w dir r.0) × (text ≡ addr ++ end_line)
  unfolding put_answer
  put_answer-ok w w' dir text (disk, err e) run = cc
  put_answer-ok w w' dir text (disk, ok addr) run = (addr, refl, cc, cc)

  -- What `put` has printed and left behind, if it succeeded.
  put_opened-ok :
      (w w' : World) (dir key path bytes text : List ℕ) (root : Result (List ℕ))
      → w.files path ≡ some bytes
      → put_opened sh w dir key path root ≡ (w', (text, 0))
      → (r : List ℕ) × (root ≡ ok r)
        × (put_answer w dir (put_blob sh.env (w.stores dir) bytes key) ≡ (w', (text, 0)))
  unfolding put_opened put_slurped
  put_opened-ok w w' dir key path bytes text (err e) there run = cc
  put_opened-ok w w' dir key path bytes text (ok r) there run =
      (r, refl, rw (slurp-whole w.files path bytes there) at run)

  get_answer-exit : (w : World) (path bytes : List ℕ) → (get_answer sh w path (ok bytes)).1.1 ≡ 0
  unfolding get_answer
  get_answer-exit w path bytes = rw (good.creates) refl

  -- A store in which the key resolves and the blob can be had answers both commands.
  resolve_command-ok :
      (w : World) (dir key addr root : List ℕ)
      → cache_open sh.mkdir dir ≡ ok root
      → resolve sh.env (w.stores dir) key ≡ ok addr
      → resolve_command sh w dir key ≡ (w, (addr ++ end_line, 0))
  unfolding resolve_command printed
  resolve_command-ok w dir key addr root opened found = rw (opened, found) refl

  get_command-ok :
      (w : World) (dir addr out bytes root : List ℕ)
      → cache_open sh.mkdir dir ≡ ok root
      → get_blob sh.env (w.stores dir) addr ≡ ok bytes
      → get_command sh w dir addr out ≡ get_answer sh w out (ok bytes)
  unfolding get_command
  get_command-ok w dir addr out bytes root opened found = rw (opened, found) refl

  -- If memory can be had and files can be read and written whole, and the blobs of the store in a directory hash to their
  -- names, then after a put of a file that exits with 0 the same key resolves to what the put printed, which is the address
  -- of the file's bytes, and a get of this address exits with 0 and writes these bytes or, if the address was in use, the
  -- blob that was there.
  pub main-put_get :
      (w w' : World) (dir key path out bytes text : List ℕ)
      → IsStore (w.stores dir)
      → w.files path ≡ some bytes
      → main sh w (codes "put" ∷ dir ∷ key ∷ path ∷ []) ≡ (w', (text, 0))
      → let get = main sh w' (codes "get" ∷ dir ∷ content_address bytes ∷ out ∷ []) in
        (text ≡ content_address bytes ++ end_line)
        × (main sh w' (codes "resolve" ∷ dir ∷ key ∷ []) ≡ (w', (text, 0)))
        × (get.1.1 ≡ 0)
        × (get.0.files out ≡ some (kept ((w.stores dir).blobs (content_address bytes)) bytes))
  unfolding put_command
  main-put_get w w' dir key path out bytes text stored there run =
      let (root, opened, answered) =
        put_opened-ok w w' dir key path bytes text (cache_open sh.mkdir dir) there
          (sym (main-put sh w dir key path) ∙ run) in
      let (addr, done, left, shown) = put_answer-ok w w' dir text _ answered in
      let put = put_blob sh.env (w.stores dir) bytes key in
      let paired : put ≡ (put.0, ok addr) = ap (λ (r : Result (List ℕ)). (put.0, r)) done in
      let after =
        subst (Put (w.stores dir) bytes key) paired
          (put_blob-Put sh.env (w.stores dir) bytes key stored) in
      let (resolved, got, hashed) =
        put_blob-read sh.env good.readable (w.stores dir) put.0 bytes key addr stored paired in
      let store : w'.stores dir ≡ put.0 =
        ap (λ (t : World). t.stores dir) left ∙ with_store-same w dir put.0 in
      let named : addr ≡ content_address bytes = after.1 in
      let blob = kept ((w.stores dir).blobs (content_address bytes)) bytes in
      let got_there : get_blob sh.env (w'.stores dir) (content_address bytes) ≡ ok blob =
        rw (store, sym named) got in
      let served : main sh w' (codes "get" ∷ dir ∷ content_address bytes ∷ out ∷ [])
          ≡ get_answer sh w' out (ok blob) =
        main-get sh w' dir (content_address bytes) out
        ∙ get_command-ok w' dir (content_address bytes) out blob root opened got_there in
      (
        shown ∙ ap (λ t. t ++ end_line) named,
        main-resolve sh w' dir key
            ∙ resolve_command-ok w' dir key addr root opened (rw store resolved)
            ∙ ap (λ t. (w', (t, 0))) (sym shown),
        ap (λ (r : Answer). r.1.1) served ∙ get_answer-exit w' out blob,
        ap (λ (r : Answer). r.0.files out) served ∙ get_answer-ok w' out blob,
      )
