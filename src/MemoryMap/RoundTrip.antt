-- ===== src/MemoryMap/RoundTrip.antt =====
-- What `oryx_mmap_serialize` writes `oryx_mmap_parse` reads back.
use oryx.Prelude.{
  ℕ, ◌+◌, ◌*◌, ◌<◌, ◌≡◌, refl, Bool, true, false, List, [], ◌∷◌, ◌++◌, length, All, drop,
  length-append, take-append, drop-append, leb, if◌then◌else◌, append-nil, append_assoc, not, ◌&&◌,
  arith,
}
use oryx.Errors.{ok, err, format}
use oryx.Wire.{IsByte, IsU16, IsU32, IsU64, put_u16, put_u32, put_u64, get_u16, get_u32, get_byte}
use oryx.Wire.Codec.{get_u16-put_u16, get_u32-put_u32, get_u64-put_u64}
use oryx.MemoryMap.Entries.{Entry, MemMap, mmap_magic, mmap_version}
use oryx.MemoryMap.Format.{
  mmap_hdr, mmap_ent, entry_size, put_entry, put_entries, put_header, serialize, get_entry,
  parse_entries, get_header, parse,
}
use oryx.MemoryMap.Search.{IsAscending}

-- The entry's fields fit their C types.
pub record IsEntry (e : Entry) : Type 0 where
  pub pc_fits : IsU64 e.guest_pc
  pub class_fits : IsByte e.mclass
  pub flags_fit : IsByte e.eflags

-- The map's fields fit their C types, and its entries are strictly ascending.
pub record IsMap (m : MemMap) : Type 0 where
  pub isa_fits : IsU32 m.isa_id
  pub analyzer_fits : IsU32 m.analyzer_id
  pub version_fits : IsU32 m.analyzer_version
  pub flags_fit : IsU16 m.flags
  pub hash_length : length m.module_hash ≡ 32
  pub count_fits : IsU32 (length m.entries)
  pub entries_fit : All IsEntry m.entries
  pub ascending : IsAscending m.entries

eq-nil {ℓ} : {A : Type ℓ} (xs : List A) → length xs ≡ 0 → xs ≡ []
eq-nil [] h = refl
eq-nil (x ∷ xs) h = absurd (omega arith)

drop-put_entry : (e : Entry) (rest : List ℕ) → drop mmap_ent (put_entry e ++ rest) ≡ rest
unfolding put_entry put_u64 put_u16
drop-put_entry e rest = refl

get_entry-put_entry : (e : Entry) (rest : List ℕ) → IsEntry e → get_entry (put_entry e ++ rest) ≡ e
unfolding get_entry put_entry put_u64 put_u16 get_byte
get_entry-put_entry e rest h =
    ground (arith, get_u64-put_u64 e.guest_pc (e.mclass ∷ e.eflags ∷ 0 ∷ 0 ∷ rest) h.pc_fits)

length-put_entries : (es : List Entry) → length (put_entries es) ≡ length es * mmap_ent
unfolding put_entries put_entry put_u64 put_u16
length-put_entries [] = refl
length-put_entries (e ∷ es) = omega (arith, length-put_entries es)

-- The first entry of a loop that has read `prev` lies above it.
abbrev pub Follows : Bool → ℕ → List Entry → Type 0
Follows true prev es = Unit
Follows false prev [] = Unit
Follows false prev (e ∷ es) = prev < e.guest_pc

Follows-next : (e : Entry) (es : List Entry) → IsAscending (e ∷ es) → Follows false e.guest_pc es
Follows-next e [] h = tt
Follows-next e (f ∷ es) h = h.0

rest-IsAscending : (e : Entry) (es : List Entry) → IsAscending (e ∷ es) → IsAscending es
rest-IsAscending e [] h = tt
rest-IsAscending e (f ∷ es) h = h.1

parse_entries-put_entries :
    (es : List Entry) (first : Bool) (prev : ℕ) (rest : List ℕ)
    → All IsEntry es
    → IsAscending es
    → Follows first prev es
    → parse_entries (length es) first prev (put_entries es ++ rest) ≡ ok es
unfolding parse_entries put_entries
parse_entries-put_entries [] first prev rest fit up follows = refl
parse_entries-put_entries (e ∷ es) first prev rest fit up follows =
    rw
      (
        append_assoc (put_entry e) (put_entries es) rest,
        get_entry-put_entry e (put_entries es ++ rest) fit.0,
        drop-put_entry e (put_entries es ++ rest),
        parse_entries-put_entries es false e.guest_pc rest fit.1 (rest-IsAscending e es up)
            (Follows-next e es up),
      )
      (passes first follows)
  where
    passes :
        (b : Bool)
        → Follows b prev (e ∷ es)
        → (if not b && leb e.guest_pc prev then err format else ok (e ∷ es)) ≡ ok (e ∷ es)
    passes true h = refl
    passes false h = ground arith

module _ (m : MemMap) (valid : IsMap m) where
  image : List ℕ
  image = put_header m ++ put_entries m.entries

  length-image : length image ≡ mmap_hdr + length m.entries * mmap_ent
  unfolding image put_header put_u32 put_u16
  length-image = omega (
    arith,
    length-append m.module_hash (put_entries m.entries),
    length-put_entries m.entries,
    valid.hash_length,
  )

  image-fields :
      (get_u32 image ≡ mmap_magic)
      × (get_u16 (drop 4 image) ≡ mmap_version)
      × (get_u32 (drop 20 image) ≡ length m.entries)
      × (drop mmap_hdr image ≡ put_entries m.entries)
  unfolding image put_header put_u32 put_u16
  image-fields = (
    get_u32-put_u32 mmap_magic _ (omega arith),
    get_u16-put_u16 mmap_version _ (omega arith),
    get_u32-put_u32 (length m.entries) (m.module_hash ++ put_entries m.entries) valid.count_fits,
    drop-append 32 m.module_hash (put_entries m.entries) valid.hash_length,
  )

  get_header-image : (es : List Entry) → get_header image es ≡ record m { entries = es }
  unfolding image get_header put_header put_u32 put_u16
  get_header-image es =
      let tail = m.module_hash ++ put_entries m.entries in
      let counted = put_u32 (length m.entries) ++ tail in
      ground (
        arith,
        get_u16-put_u16 m.flags
            (put_u32 m.isa_id ++ (put_u32 m.analyzer_id ++ (put_u32 m.analyzer_version ++ counted)))
            valid.flags_fit,
        get_u32-put_u32 m.isa_id (put_u32 m.analyzer_id ++ (put_u32 m.analyzer_version ++ counted))
            valid.isa_fits,
        get_u32-put_u32 m.analyzer_id (put_u32 m.analyzer_version ++ counted) valid.analyzer_fits,
        get_u32-put_u32 m.analyzer_version counted valid.version_fits,
        take-append 32 m.module_hash (put_entries m.entries) valid.hash_length,
      )

  parse-image :
      (malloc : ℕ → Bool)
      → malloc (length m.entries * entry_size) ≡ true
      → parse malloc image ≡ ok m
  unfolding parse
  parse-image malloc room =
      let (magic, version, count, body) = image-fields in
      let entries_read : parse_entries (length m.entries) true 0 (put_entries m.entries)
          ≡ ok m.entries =
        rw append-nil at
          (parse_entries-put_entries m.entries true 0 [] valid.entries_fit valid.ascending tt) in
      ground (
        arith,
        magic,
        version,
        count,
        body,
        length-image,
        get_header-image [],
        get_header-image m.entries,
        entries_read,
        room,
        eq-nil m.entries,
      )

-- A map whose fields fit their types and whose entries ascend is read back from its bytes, where the
-- two allocations succeed.
pub parse-serialize :
    (malloc : ℕ → Bool) (m : MemMap) (bytes : List ℕ)
    → IsMap m
    → malloc (length m.entries * entry_size) ≡ true
    → serialize malloc m ≡ ok bytes
    → parse malloc bytes ≡ ok m
unfolding serialize image
parse-serialize malloc m bytes valid room h = ground (arith, parse-image m valid malloc room)
