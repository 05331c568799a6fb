-- ===== src/Cache/Examples.antt =====
-- Runs of oryxcache.c on a unit of one instruction.
use oryx.Prelude.{
  if◌then◌else◌, ℕ, ◌+◌, ◌≡◌, refl, Bool, true, none, some, List, [], ◌∷◌, ◌++◌, arith,
}
use oryx.Errors.{Ensures-ok, ok}
use oryx.Wire.{same_bytes}
use oryx.Profiles.Text.{codes}
use oryx.TransUnit.{reloc_branch_guest_pc, Reloc, Tu}
use oryx.Cache.Format.{
  tu_image, tu_serialize, section_fits, tu_parse, content_address, tu_logical_key,
}
use oryx.Cache.RoundTrip.{IsTu, tu_parse-tu_serialize}
use oryx.Cache.Store.{
  Disk, Io, with_file, write_atomic, is_hex64, exists, put_content, pointed, point_index, put_blob,
  get_blob, put_serialized, put_tu, get_tu, mkdir_p, cache_open,
}
use oryx.Cache.Integrity.{IsStore, get_blob-content_address, Put, put_blob-Put}
use oryx.Cache.Reading.{
  content_address-is_hex64, tu_logical_key-is_hex64, IsReadable, put_blob-read, get_tu-put_tu,
}
use oryx.Cache.Command.{
  World, Shell, Answer, end_line, slurp_loop, slurped, slurp, with_store, put_answer, put_slurped,
  put_opened, put_command, command, main,
}
use oryx.Cache.Session.{IsReliable, main-put_get}

abbrev branch : Reloc
branch = record { offset = 0; kind = reloc_branch_guest_pc; guest_target = 0x2000 }

-- The hash of no block, but of the right length.
abbrev unit : Tu
unit = record {
  isa_id = 0x53384850;
  translator_id = 1;
  translator_version = 1;
  profile_id = 0;
  flags = 0;
  guest_entry_pc = 0x1000;
  guest_len = 5;
  guest_hash =
      1 ∷ 2 ∷ 3 ∷ 4 ∷ 5 ∷ 6 ∷ 7 ∷ 8 ∷ 9 ∷ 10 ∷ 11 ∷ 12 ∷ 13 ∷ 14 ∷ 15 ∷ 16 ∷ 17 ∷ 18 ∷ 19 ∷ 20 ∷ 21
      ∷ 22 ∷ 23 ∷ 24 ∷ 25 ∷ 26 ∷ 27 ∷ 28 ∷ 29 ∷ 30 ∷ 31 ∷ 32 ∷ [];
  code = 0 ∷ 0 ∷ 0 ∷ 0x14 ∷ [];
  relocs = branch ∷ [];
  exits = 0x2000 ∷ [];
}

unit-IsTu : IsTu unit
unit-IsTu = record {
  isa_fits = omega arith;
  translator_fits = omega arith;
  version_fits = omega arith;
  profile_fits = omega arith;
  flags_fit = omega arith;
  entry_fits = omega arith;
  len_fits = omega arith;
  hash_length = refl;
  code_fits = omega arith;
  relocs_fit = omega arith;
  exits_fit = omega arith;
  each_reloc = (
    record { offset_fits = omega arith; kind_fits = omega arith; target_fits = omega arith },
    tt,
  );
  each_exit = (omega arith, tt);
}

abbrev always : ℕ → Bool
always n = true

tu_parse-tu_serialize_example : tu_parse always (tu_image unit) ≡ ok unit
tu_parse-tu_serialize_example =
    tu_parse-tu_serialize always unit (tu_image unit) unit-IsTu
      (unfold section_fits in (refl, refl, refl)) (unfold tu_serialize in refl)

abbrev empty : Disk
empty = record { blobs = λ name. none; index = λ name. none }

abbrev env : Io
env = record { can_write = λ name. true; can_read = λ name. true; malloc = always }

env-IsReadable : IsReadable env
env-IsReadable = record { memory = λ n. refl; files = λ name. refl }

empty-IsStore : IsStore empty
empty-IsStore name bytes h = cc

abbrev key : List ℕ
key = tu_logical_key unit

put_blob-Put_example : Put empty (1 ∷ 2 ∷ []) key (put_blob env empty (1 ∷ 2 ∷ []) key)
put_blob-Put_example = put_blob-Put env empty (1 ∷ 2 ∷ []) key empty-IsStore

abbrev after_put : List ℕ → List ℕ → Disk
after_put bytes name = record {
  blobs = with_file empty.blobs (content_address bytes) bytes;
  index = with_file empty.index name (content_address bytes);
}

put_blob-empty :
    (bytes name : List ℕ)
    → is_hex64 name ≡ true
    → put_blob env empty bytes name ≡ (after_put bytes name, ok (content_address bytes))
unfolding put_blob point_index pointed put_content exists write_atomic
put_blob-empty bytes name named = rw named refl

abbrev name : List ℕ
name = content_address []

abbrev two_bytes : List ℕ
two_bytes = 1 ∷ 2 ∷ []

got_back : get_blob env (after_put two_bytes name) (content_address two_bytes) ≡ ok two_bytes
got_back =
    (put_blob-read env env-IsReadable empty (after_put two_bytes name) two_bytes name
      (content_address two_bytes) empty-IsStore
      (put_blob-empty two_bytes name (content_address-is_hex64 []))).1

-- The blob that is returned is the one that was put.
get_blob-content_address_example :
    (content_address two_bytes ≡ content_address two_bytes)
    × ((after_put two_bytes name).blobs (content_address two_bytes) ≡ some two_bytes)
get_blob-content_address_example =
    Ensures-ok
      (λ bytes.
        (content_address bytes ≡ content_address two_bytes)
        × ((after_put two_bytes name).blobs (content_address two_bytes) ≡ some bytes))
      (get_blob env (after_put two_bytes name) (content_address two_bytes))
      (get_blob-content_address env (after_put two_bytes name) (content_address two_bytes)) got_back

abbrev reliable : Shell
reliable = record {
  env = env;
  mkdir = λ path. true;
  can_open = λ path. true;
  read_count = λ path got. 1;
  can_create = λ path. true;
  write_count = λ path n. n;
  show_size = λ n. (n + 48) ∷ [];
}

reliable-IsReliable : IsReliable reliable
reliable-IsReliable = record {
  readable = env-IsReadable;
  reads = λ path got. omega arith;
  opens = λ path. refl;
  creates = λ path. refl;
  writes = λ path n. refl;
}

-- The file "f" has two bytes, and the store in "d" is empty.
abbrev before : World
before = record {
  files = λ path. if same_bytes path (codes "f") then some two_bytes else none;
  stores = λ dir. empty;
}

abbrev put_two : Answer
put_two = (
  with_store before (codes "d") (after_put two_bytes name),
  (content_address two_bytes ++ end_line, 0),
)

main-put_two : main reliable before (codes "put" ∷ codes "d" ∷ name ∷ codes "f" ∷ []) ≡ put_two
unfolding main command put_command cache_open mkdir_p put_opened slurp slurped slurp_loop
    put_slurped put_answer same_bytes
main-put_two = rw (put_blob-empty two_bytes name (content_address-is_hex64 [])) refl

abbrev got_two : Answer
got_two =
    main reliable put_two.0 (codes "get" ∷ codes "d" ∷ content_address two_bytes ∷ codes "g" ∷ [])

main-put_get_example :
    (put_two.1.0 ≡ content_address two_bytes ++ end_line)
    × (main reliable put_two.0 (codes "resolve" ∷ codes "d" ∷ name ∷ [])
        ≡ (put_two.0, (put_two.1.0, 0)))
    × (got_two.1.1 ≡ 0)
    × (got_two.0.files (codes "g") ≡ some two_bytes)
unfolding same_bytes
main-put_get_example =
    main-put_get reliable reliable-IsReliable before put_two.0 (codes "d") name (codes "f")
      (codes "g") two_bytes put_two.1.0 empty-IsStore refl main-put_two

put_tu-empty :
    put_tu env empty unit ≡ (after_put (tu_image unit) key, ok (content_address (tu_image unit)))
unfolding put_tu put_serialized tu_serialize
put_tu-empty = put_blob-empty (tu_image unit) key (tu_logical_key-is_hex64 unit)

get_tu-put_tu_example : get_tu env (after_put (tu_image unit) key) key ≡ ok unit
get_tu-put_tu_example =
    get_tu-put_tu env env-IsReadable empty (after_put (tu_image unit) key) unit
      (content_address (tu_image unit)) unit-IsTu empty-IsStore refl put_tu-empty
