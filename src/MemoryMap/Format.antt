-- ===== src/MemoryMap/Format.antt =====
-- Serialization, parsing and identity in src/liboryxmap/oryxmap.c. The parameter `malloc` says whether
-- an allocation of that many bytes succeeds.
use oryx.Prelude.{
  ℕ, zero, suc, ◌+◌, ◌*◌, Bool, true, false, ◌&&◌, ◌||◌, not, List, [], ◌∷◌, ◌++◌, length, take,
  drop, ltb, leb, ◌==◌, if◌then◌else◌,
}
use oryx.Errors.{Result, ok, err, format, integrity, nomem, ◌>>=◌}
use oryx.Wire.{same_bytes, put_u16, put_u32, put_u64, get_u16, get_u32, get_u64, get_byte}
use oryx.Sha256.{sha256, sha256_hex}
use oryx.MemoryMap.Entries.{Entry, MemMap, mmap_magic, mmap_version}

unfoldable pub verify_identity : MemMap → List ℕ → ℕ → ℕ → ℕ → Result (Unit {0})
verify_identity m module_hash analyzer_id analyzer_version isa_id =
    if not (same_bytes m.module_hash module_hash)
    then err integrity
    else (if not (m.analyzer_id == analyzer_id)
          || not (m.analyzer_version == analyzer_version)
          || not (m.isa_id == isa_id)
        then err integrity
        else ok tt)

-- The 64 characters of `oryx_mmap_logical_key`.
unfoldable pub logical_key : MemMap → List ℕ
logical_key m = sha256_hex (
    sha256 (
      m.module_hash ++ (put_u32 m.analyzer_id ++ (put_u32 m.analyzer_version ++ put_u32 m.isa_id))))

abbrev pub mmap_hdr : ℕ
mmap_hdr = 56

abbrev pub mmap_ent : ℕ
mmap_ent = 12

unfoldable pub put_entry : Entry → List ℕ
put_entry e = put_u64 e.guest_pc ++ (e.mclass ∷ e.eflags ∷ put_u16 0)

unfoldable pub put_entries : List Entry → List ℕ
unfolding put_entry
put_entries [] = []
put_entries (e ∷ es) = put_entry e ++ put_entries es

unfoldable pub put_header : MemMap → List ℕ
put_header m =
    put_u32 mmap_magic
    ++ (put_u16 mmap_version
        ++ (put_u16 m.flags
            ++ (put_u32 m.isa_id
                ++ (put_u32 m.analyzer_id
                    ++ (put_u32 m.analyzer_version
                        ++ (put_u32 (length m.entries) ++ m.module_hash))))))

module _ (malloc : ℕ → Bool) where
  unfoldable pub serialize : MemMap → Result (List ℕ)
  serialize m =
      if malloc (mmap_hdr + length m.entries * mmap_ent)
      then ok (put_header m ++ put_entries m.entries)
      else err nomem

-- One turn of the parse loop at `p`.
unfoldable pub get_entry : List ℕ → Entry
get_entry p = record {
  guest_pc = get_u64 p;
  mclass = get_byte (drop 8 p);
  eflags = get_byte (drop 9 p);
}

-- The loop of `oryx_mmap_parse` over the entries that are left at `p`.
unfoldable pub parse_entries : ℕ → Bool → ℕ → List ℕ → Result (List Entry)
parse_entries zero first prev p = ok []
parse_entries (suc n) first prev p =
    let e = get_entry p in
    let rest = parse_entries n false e.guest_pc (drop mmap_ent p) >>= (λ es. ok (e ∷ es)) in
    if not first && leb e.guest_pc prev then err format else rest

-- The fields that `oryx_mmap_parse` reads before the entries.
unfoldable pub get_header : List ℕ → List Entry → MemMap
get_header buf es = record {
  isa_id = get_u32 (drop 8 buf);
  analyzer_id = get_u32 (drop 12 buf);
  analyzer_version = get_u32 (drop 16 buf);
  flags = get_u16 (drop 6 buf);
  module_hash = take 32 (drop 24 buf);
  entries = es;
}

-- `sizeof(struct oryx_mmap_entry)`
abbrev pub entry_size : ℕ
entry_size = 16

module _ (malloc : ℕ → Bool) where
  unfoldable pub parse : List ℕ → Result MemMap
  parse buf =
      let count = get_u32 (drop 20 buf) in
      if ltb (length buf) mmap_hdr
      then err format
      else (if not (get_u32 buf == mmap_magic) || not (get_u16 (drop 4 buf) == mmap_version)
          then err format
          else (if not (mmap_hdr + count * mmap_ent == length buf)
              then err format
              else (if count == 0
                  then ok (get_header buf [])
                  else (if malloc (count * entry_size)
                      then parse_entries count true 0 (drop mmap_hdr buf)
                        >>= (λ es. ok (get_header buf es))
                      else err nomem))))
