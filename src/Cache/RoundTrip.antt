-- ===== src/Cache/RoundTrip.antt =====
-- What `oryx_tu_serialize` writes `oryx_tu_parse` reads back.
use oryx.Prelude.{
  ℕ, ◌*◌, ◌≡◌, refl, ap, Bool, true, false, List, [], ◌∷◌, ◌++◌, length, take, drop, All,
  append_assoc, length-append, take-append, drop-append, ltb, ==_refl, le→ltb_false, arith,
}
use oryx.Errors.{ok}
use oryx.Wire.{IsU32, IsU64, put_u16, put_u32, put_u64, get_u16, get_u32, get_u64}
use oryx.Wire.Codec.{get_u16-put_u16, get_u32-put_u32, get_u64-put_u64}
use oryx.TransUnit.{Reloc, Tu}
use oryx.Cache.Format.{
  tu_magic, tu_version, tu_header_len, tu_reloc_len, tu_exit_len, put_reloc, put_relocs, put_exits,
  tu_image, tu_need, get_reloc, get_relocs, get_exits, tu_fields, tu_sections, tu_serialize,
  section_fits, tu_parse,
}

pub record IsReloc (r : Reloc) : Type 0 where
  pub offset_fits : IsU32 r.offset
  pub kind_fits : IsU32 r.kind
  pub target_fits : IsU64 r.guest_target

-- Every field of a unit fits its C type.
pub record IsTu (tu : Tu) : Type 0 where
  pub isa_fits : IsU32 tu.isa_id
  pub translator_fits : IsU32 tu.translator_id
  pub version_fits : IsU32 tu.translator_version
  pub profile_fits : IsU32 tu.profile_id
  pub flags_fit : IsU32 tu.flags
  pub entry_fits : IsU64 tu.guest_entry_pc
  pub len_fits : IsU32 tu.guest_len
  pub hash_length : length tu.guest_hash ≡ 32
  pub code_fits : IsU32 (length tu.code)
  pub relocs_fit : IsU32 (length tu.relocs)
  pub exits_fit : IsU32 (length tu.exits)
  pub each_reloc : All IsReloc tu.relocs
  pub each_exit : All IsU64 tu.exits

-- The three allocations succeed.
abbrev pub HasMemory : (ℕ → Bool) → Tu → Type 0
HasMemory malloc tu =
    (section_fits malloc (length tu.code) 1 ≡ true)
    × (section_fits malloc (length tu.relocs) 16 ≡ true)
    × (section_fits malloc (length tu.exits) 8 ≡ true)

length-put_relocs : (rs : List Reloc) → length (put_relocs rs) ≡ length rs * tu_reloc_len
unfolding put_relocs put_reloc put_u32 put_u64
length-put_relocs [] = refl
length-put_relocs (r ∷ rs) = omega (arith, length-put_relocs rs)

length-put_exits : (pcs : List ℕ) → length (put_exits pcs) ≡ length pcs * tu_exit_len
unfolding put_exits put_u64
length-put_exits [] = refl
length-put_exits (pc ∷ pcs) = omega (arith, length-put_exits pcs)

get_reloc-put_reloc : (r : Reloc) (rest : List ℕ) → IsReloc r → get_reloc (put_reloc r ++ rest) ≡ r
unfolding get_reloc put_reloc put_u32
get_reloc-put_reloc r rest h = ground (
  arith,
  get_u32-put_u32 r.offset (put_u32 r.kind ++ (put_u64 r.guest_target ++ rest)) h.offset_fits,
  get_u32-put_u32 r.kind (put_u64 r.guest_target ++ rest) h.kind_fits,
  get_u64-put_u64 r.guest_target rest h.target_fits,
)

drop-put_reloc : (r : Reloc) (rest : List ℕ) → drop tu_reloc_len (put_reloc r ++ rest) ≡ rest
unfolding put_reloc put_u32 put_u64
drop-put_reloc r rest = refl

get_relocs-put_relocs :
    (rs : List Reloc) (rest : List ℕ)
    → All IsReloc rs
    → get_relocs (length rs) (put_relocs rs ++ rest) ≡ rs
unfolding get_relocs put_relocs
get_relocs-put_relocs [] rest h = refl
get_relocs-put_relocs (r ∷ rs) rest h =
    rw
      (
        append_assoc (put_reloc r) (put_relocs rs) rest,
        get_reloc-put_reloc r (put_relocs rs ++ rest) h.0,
        drop-put_reloc r (put_relocs rs ++ rest),
        get_relocs-put_relocs rs rest h.1,
      )
      refl

drop-put_u64 : (pc : ℕ) (rest : List ℕ) → drop tu_exit_len (put_u64 pc ++ rest) ≡ rest
unfolding put_u64
drop-put_u64 pc rest = refl

get_exits-put_exits : (pcs : List ℕ) → All IsU64 pcs → get_exits (length pcs) (put_exits pcs) ≡ pcs
unfolding get_exits put_exits
get_exits-put_exits [] h = refl
get_exits-put_exits (pc ∷ pcs) h =
    rw
      (
        get_u64-put_u64 pc (put_exits pcs) h.0,
        drop-put_u64 pc (put_exits pcs),
        get_exits-put_exits pcs h.1,
      )
      refl

module _ (tu : Tu) (valid : IsTu tu) where
  abbrev sections : List ℕ
  sections = tu.code ++ (put_relocs tu.relocs ++ put_exits tu.exits)

  length-tu_image :
      length (tu_image tu) ≡ tu_need (length tu.code) (length tu.relocs) (length tu.exits)
  unfolding tu_image put_u16 put_u32 put_u64
  length-tu_image = omega (
    arith,
    length-append tu.guest_hash sections,
    length-append tu.code (put_relocs tu.relocs ++ put_exits tu.exits),
    length-append (put_relocs tu.relocs) (put_exits tu.exits),
    length-put_relocs tu.relocs,
    length-put_exits tu.exits,
    valid.hash_length,
  )

  tu_image-counts :
      (get_u32 (tu_image tu) ≡ tu_magic)
      × (get_u16 (drop 4 (tu_image tu)) ≡ tu_version)
      × (get_u32 (drop 40 (tu_image tu)) ≡ length tu.code)
      × (get_u32 (drop 44 (tu_image tu)) ≡ length tu.relocs)
      × (get_u32 (drop 48 (tu_image tu)) ≡ length tu.exits)
      × (drop tu_header_len (tu_image tu) ≡ sections)
  unfolding tu_image put_u16 put_u32 put_u64
  tu_image-counts = (
    get_u32-put_u32 tu_magic _ (omega arith),
    get_u16-put_u16 tu_version _ (omega arith),
    get_u32-put_u32 (length tu.code) _ valid.code_fits,
    get_u32-put_u32 (length tu.relocs) _ valid.relocs_fit,
    get_u32-put_u32 (length tu.exits) (tu.guest_hash ++ sections) valid.exits_fit,
    drop-append 32 tu.guest_hash sections valid.hash_length,
  )

  abbrev image : List ℕ
  image = tu_image tu

  tu_image-ids :
      (get_u32 (drop 8 image) ≡ tu.isa_id)
      × (get_u32 (drop 12 image) ≡ tu.translator_id)
      × (get_u32 (drop 16 image) ≡ tu.translator_version)
      × (get_u32 (drop 20 image) ≡ tu.profile_id)
      × (get_u32 (drop 24 image) ≡ tu.flags)
  unfolding tu_image put_u16 put_u32
  tu_image-ids = (
    get_u32-put_u32 tu.isa_id _ valid.isa_fits,
    get_u32-put_u32 tu.translator_id _ valid.translator_fits,
    get_u32-put_u32 tu.translator_version _ valid.version_fits,
    get_u32-put_u32 tu.profile_id _ valid.profile_fits,
    get_u32-put_u32 tu.flags _ valid.flags_fit,
  )

  tu_image-guest :
      (get_u64 (drop 28 image) ≡ tu.guest_entry_pc)
      × (get_u32 (drop 36 image) ≡ tu.guest_len)
      × (take 32 (drop 52 image) ≡ tu.guest_hash)
  unfolding tu_image put_u16 put_u32 put_u64
  tu_image-guest = (
    get_u64-put_u64 tu.guest_entry_pc _ valid.entry_fits,
    get_u32-put_u32 tu.guest_len _ valid.len_fits,
    take-append 32 tu.guest_hash sections valid.hash_length,
  )

  tu_fields-tu_image : tu_fields image tu.code tu.relocs tu.exits ≡ tu
  unfolding tu_fields
  tu_fields-tu_image = ground (arith, tu_image-ids, tu_image-guest)

  tu_sections-tu_image :
      tu_sections image (length tu.code) (length tu.relocs) (length tu.exits) ≡ tu
  unfolding tu_sections
  tu_sections-tu_image =
      let (magic, version, codes, relocs, exits, body) = tu_image-counts in
      rw
        (
          body,
          drop-append (length tu.code) tu.code (put_relocs tu.relocs ++ put_exits tu.exits) refl,
          take-append (length tu.code) tu.code (put_relocs tu.relocs ++ put_exits tu.exits) refl,
          get_relocs-put_relocs tu.relocs (put_exits tu.exits) valid.each_reloc,
          drop-append (length tu.relocs * tu_reloc_len) (put_relocs tu.relocs) (put_exits tu.exits)
              (length-put_relocs tu.relocs),
          get_exits-put_exits tu.exits valid.each_exit,
        )
        tu_fields-tu_image

  module _ (malloc : ℕ → Bool) where
    tu_parse-tu_image : HasMemory malloc tu → tu_parse malloc image ≡ ok tu
    unfolding tu_parse
    tu_parse-tu_image room =
        let (magic, version, codes, relocs, exits, body) = tu_image-counts in
        let (code_room, reloc_room, exit_room) = room in
        let long : ltb (length image) tu_header_len ≡ false =
          le→ltb_false (length image) tu_header_len (omega (arith, length-tu_image)) in
        rw
          (
            long,
            magic,
            version,
            codes,
            relocs,
            exits,
            length-tu_image,
            ==_refl (tu_need (length tu.code) (length tu.relocs) (length tu.exits)),
            code_room,
            reloc_room,
            exit_room,
          )
          (ap ok tu_sections-tu_image)

-- A unit whose fields fit their types is read back from its bytes, where the allocations succeed.
pub tu_parse-tu_serialize :
    (malloc : ℕ → Bool) (tu : Tu) (bytes : List ℕ)
    → IsTu tu
    → HasMemory malloc tu
    → tu_serialize malloc tu ≡ ok bytes
    → tu_parse malloc bytes ≡ ok tu
unfolding tu_serialize
tu_parse-tu_serialize malloc tu bytes valid room h =
    ground (arith, tu_parse-tu_image tu valid malloc room)
