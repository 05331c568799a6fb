-- ===== src/MemoryMap/Examples.antt =====
-- Runs of oryxmap.c on a small map and on a small block.
use oryx.Prelude.{
  length, ℕ, ◌+◌, ◌*◌, ◌≡◌, refl, ◌↔◌, Bool, true, false, Option, none, some, List, [], ◌∷◌, ◌++◌,
  arith,
}
use oryx.Errors.{Ensures, Ensures-ok, ok, returns}
use oryx.Guest.{Op, gr_rsp, Insn, mov_rr, load, store, ret}
use oryx.MemoryMap.Entries.{
  omc_local, ef_guard_required, ef_escaped, Entry, MemMap, decide, lookup, relax,
}
use oryx.Wire.{put_u16, put_u32, put_u64, same_bytes}
use oryx.MemoryMap.Format.{
  verify_identity, logical_key, mmap_hdr, mmap_ent, put_entries, put_header, serialize, parse,
}
use oryx.MemoryMap.Classifier.{classify_from, ident_bytes, classify}
use oryx.Sha256.{sha256}
use oryx.Cache.Store.{
  Disk, Io, with_file, write_atomic, is_hex64, exists, put_content, pointed, point_index, put_blob,
}
use oryx.Cache.Format.{content_address}
use oryx.Cache.Reading.{content_address-is_hex64, IsReadable, put_blob-read}
use oryx.MemoryMap.Cached.{probe, cache_get, IsFor, cache_get-IsFor}
use oryx.MemoryMap.Decision.{MayRelax, decide-relax_iff}
use oryx.MemoryMap.Search.{Describes, lookup-Describes}
use oryx.MemoryMap.RoundTrip.{IsMap, parse-serialize}
use oryx.MemoryMap.Parse.{parse-IsMap}
use oryx.MemoryMap.Soundness.{expected_order, decide-lookup-classify}

abbrev stack_entry : Entry
stack_entry = record { guest_pc = 0x1000; mclass = omc_local; eflags = ef_guard_required }

abbrev escaped_entry : Entry
escaped_entry = record { guest_pc = 0x1004; mclass = omc_local; eflags = ef_escaped }

abbrev module_hash : List ℕ
module_hash =
    1 ∷ 2 ∷ 3 ∷ 4 ∷ 5 ∷ 6 ∷ 7 ∷ 8 ∷ 9 ∷ 10 ∷ 11 ∷ 12 ∷ 13 ∷ 14 ∷ 15 ∷ 16 ∷ 17 ∷ 18 ∷ 19 ∷ 20 ∷ 21
    ∷ 22 ∷ 23 ∷ 24 ∷ 25 ∷ 26 ∷ 27 ∷ 28 ∷ 29 ∷ 30 ∷ 31 ∷ 255 ∷ []

abbrev two_entries : MemMap
two_entries = record {
  isa_id = 3;
  analyzer_id = 7;
  analyzer_version = 1;
  flags = 0;
  module_hash = module_hash;
  entries = stack_entry ∷ escaped_entry ∷ [];
}

abbrev always : ℕ → Bool
always n = true

abbrev image : List ℕ
image =
    0x4f ∷ 0x4d ∷ 0x43 ∷ 0x31 ∷ 1 ∷ 0 ∷ 0 ∷ 0 ∷ 3 ∷ 0 ∷ 0 ∷ 0 ∷ 7 ∷ 0 ∷ 0 ∷ 0 ∷ 1 ∷ 0 ∷ 0 ∷ 0 ∷ 2
    ∷ 0 ∷ 0 ∷ 0 ∷ 1 ∷ 2 ∷ 3 ∷ 4 ∷ 5 ∷ 6 ∷ 7 ∷ 8 ∷ 9 ∷ 10 ∷ 11 ∷ 12 ∷ 13 ∷ 14 ∷ 15 ∷ 16 ∷ 17 ∷ 18
    ∷ 19 ∷ 20 ∷ 21 ∷ 22 ∷ 23 ∷ 24 ∷ 25 ∷ 26 ∷ 27 ∷ 28 ∷ 29 ∷ 30 ∷ 31 ∷ 255 ∷ 0 ∷ 0x10 ∷ 0 ∷ 0 ∷ 0
    ∷ 0 ∷ 0 ∷ 0 ∷ 1 ∷ 1 ∷ 0 ∷ 0 ∷ 4 ∷ 0x10 ∷ 0 ∷ 0 ∷ 0 ∷ 0 ∷ 0 ∷ 0 ∷ 1 ∷ 2 ∷ 0 ∷ 0 ∷ []

serialize-two_entries : serialize always two_entries ≡ ok image
unfolding serialize put_header put_entries put_u32 put_u16 put_u64
serialize-two_entries = refl

two_entries-IsMap : IsMap two_entries
two_entries-IsMap = record {
  isa_fits = omega arith;
  analyzer_fits = omega arith;
  version_fits = omega arith;
  flags_fit = omega arith;
  hash_length = refl;
  count_fits = omega arith;
  entries_fit = (
    record { pc_fits = omega arith; class_fits = omega arith; flags_fit = omega arith },
    (record { pc_fits = omega arith; class_fits = omega arith; flags_fit = omega arith }, tt),
  );
  ascending = (omega arith, tt);
}

decide-relax_iff_example :
    (decide (some stack_entry) true ≡ relax) ↔ MayRelax (some stack_entry) true
decide-relax_iff_example = decide-relax_iff (some stack_entry) true

lookup-Describes_example :
    (o : Option Entry) × (lookup two_entries 0x1004 ≡ returns o)
    × Describes two_entries.entries 0x1004 o
lookup-Describes_example = lookup-Describes two_entries 0x1004 (omega arith, tt) (omega arith)

parse-serialize_example : parse always image ≡ ok two_entries
parse-serialize_example =
    parse-serialize always two_entries image two_entries-IsMap refl serialize-two_entries

parse-IsMap_example :
    Ensures
      (parse always image)
      (λ m. IsMap m × (length image ≡ mmap_hdr + length m.entries * mmap_ent))
parse-IsMap_example = parse-IsMap always image (omega arith)

-- MOV; LOAD from the stack; STORE elsewhere; RET.
abbrev plain : Op → ℕ → Insn
plain op rn = record { op = op; rd = 1; rn = rn; imm = 8; target = 0; cc = 0; mclass = 0 }

abbrev small_block : List Insn
small_block = plain mov_rr 2 ∷ plain load gr_rsp ∷ plain store 3 ∷ plain ret 0 ∷ []

abbrev small_map : MemMap
small_map = record {
  isa_id = 3;
  analyzer_id = 7;
  analyzer_version = 1;
  flags = 0;
  module_hash = sha256 [];
  entries = classify_from 0x1000 0 small_block;
}

classify-small_block : classify always small_block 0x1000 none 3 7 1 ≡ ok small_map
unfolding classify ident_bytes
classify-small_block = refl

decide-lookup-classify_example :
    (o : Option Entry) × (lookup small_map (0x1000 + 1) ≡ returns o)
    × (decide o false ≡ expected_order load gr_rsp false)
decide-lookup-classify_example =
    decide-lookup-classify always small_block 0x1000 none 3 7 1 small_map 1 (plain load gr_rsp)
      false classify-small_block (omega arith) (omega arith) refl

abbrev env : Io
env = record { can_write = λ name. true; can_read = λ name. true; malloc = always }

abbrev empty : Disk
empty = record { blobs = λ name. none; index = λ name. none }

env-IsReadable : IsReadable env
env-IsReadable = record { memory = λ n. refl; files = λ name. refl }

-- The disk after the image of the two entries was put.
abbrev map_key : List ℕ
map_key = logical_key (probe module_hash 7 1 3)

abbrev stored : Disk
stored = record {
  blobs = with_file empty.blobs (content_address image) image;
  index = with_file empty.index map_key (content_address image);
}

map_key-is_hex64 : is_hex64 map_key ≡ true
unfolding logical_key
map_key-is_hex64 =
    unfold content_address in
    (content_address-is_hex64 (module_hash ++ (put_u32 7 ++ (put_u32 1 ++ put_u32 3))))

put_blob-stored : put_blob env empty image map_key ≡ (stored, ok (content_address image))
unfolding put_blob point_index pointed put_content exists write_atomic
put_blob-stored = rw map_key-is_hex64 refl

identity-two_entries : verify_identity two_entries module_hash 7 1 3 ≡ ok tt
unfolding verify_identity same_bytes
identity-two_entries = refl

cache_get-stored : cache_get env stored module_hash 7 1 3 ≡ ok two_entries
unfolding cache_get
cache_get-stored =
    let (resolved, got, hashed) =
      put_blob-read env env-IsReadable empty stored image map_key (content_address image)
        (λ name bytes h. cc) put_blob-stored in
    let parsed =
      parse-serialize always two_entries image two_entries-IsMap refl serialize-two_entries in
    rw (resolved, got, parsed, identity-two_entries) refl

cache_get-IsFor_example : IsFor module_hash 7 1 3 two_entries
cache_get-IsFor_example =
    Ensures-ok (IsFor module_hash 7 1 3) (cache_get env stored module_hash 7 1 3)
      (cache_get-IsFor module_hash 7 1 3 env stored) cache_get-stored
