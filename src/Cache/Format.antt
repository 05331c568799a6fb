-- ===== src/Cache/Format.antt =====
-- The unit format of src/liboryxcache/oryxcache.c: `oryx_tu_serialize`, `oryx_tu_parse`,
-- `oryx_content_address` and `oryx_tu_logical_key`. The parameter `malloc` says whether an allocation of
-- that many bytes succeeds.
use oryx.Prelude.{
  ℕ, zero, suc, ◌+◌, ◌*◌, Bool, ◌||◌, not, List, [], ◌∷◌, ◌++◌, length, take, drop, ltb, ◌==◌,
  if◌then◌else◌,
}
use oryx.Errors.{Result, ok, err, format, nomem}
use oryx.Wire.{put_u16, put_u32, put_u64, get_u16, get_u32, get_u64}
use oryx.Sha256.{sha256, sha256_hex}
use oryx.TransUnit.{Reloc, Tu}

abbrev pub tu_magic : ℕ
tu_magic = 0x3155544f

abbrev pub tu_version : ℕ
tu_version = 1

abbrev pub tu_header_len : ℕ
tu_header_len = 84

abbrev pub tu_reloc_len : ℕ
tu_reloc_len = 16

abbrev pub tu_exit_len : ℕ
tu_exit_len = 8

unfoldable pub put_reloc : Reloc → List ℕ
put_reloc r = put_u32 r.offset ++ (put_u32 r.kind ++ put_u64 r.guest_target)

unfoldable pub put_relocs : List Reloc → List ℕ
put_relocs [] = []
put_relocs (r ∷ rs) = put_reloc r ++ put_relocs rs

unfoldable pub put_exits : List ℕ → List ℕ
put_exits [] = []
put_exits (pc ∷ pcs) = put_u64 pc ++ put_exits pcs

-- The fixed part in front of the hash, then the hash and the three sections.
unfoldable pub tu_image : Tu → List ℕ
tu_image tu =
    put_u32 tu_magic
    ++ (put_u16 tu_version
        ++ (put_u16 0
            ++ (put_u32 tu.isa_id
                ++ (put_u32 tu.translator_id
                    ++ (put_u32 tu.translator_version
                        ++ (put_u32 tu.profile_id
                            ++ (put_u32 tu.flags
                                ++ (put_u64 tu.guest_entry_pc
                                    ++ (put_u32 tu.guest_len
                                        ++ (put_u32 (length tu.code)
                                            ++ (put_u32 (length tu.relocs)
                                                ++ (put_u32 (length tu.exits)
                                                    ++ (tu.guest_hash
                                                        ++ (tu.code
                                                            ++ (put_relocs tu.relocs
                                                            ++ put_exits tu.exits)))))))))))))))

-- The size of a unit with these section lengths.
abbrev pub tu_need : ℕ → ℕ → ℕ → ℕ
tu_need code_len reloc_count exit_count =
    tu_header_len + code_len + reloc_count * tu_reloc_len + exit_count * tu_exit_len

unfoldable pub get_reloc : List ℕ → Reloc
get_reloc p = record {
  offset = get_u32 p;
  kind = get_u32 (drop 4 p);
  guest_target = get_u64 (drop 8 p);
}

unfoldable pub get_relocs : ℕ → List ℕ → List Reloc
get_relocs zero p = []
get_relocs (suc n) p = get_reloc p ∷ get_relocs n (drop tu_reloc_len p)

unfoldable pub get_exits : ℕ → List ℕ → List ℕ
get_exits zero p = []
get_exits (suc n) p = get_u64 p ∷ get_exits n (drop tu_exit_len p)

-- The fields that `oryx_tu_parse` reads in front of the sections.
unfoldable pub tu_fields : List ℕ → List ℕ → List Reloc → List ℕ → Tu
tu_fields buf code relocs exits = record {
  isa_id = get_u32 (drop 8 buf);
  translator_id = get_u32 (drop 12 buf);
  translator_version = get_u32 (drop 16 buf);
  profile_id = get_u32 (drop 20 buf);
  flags = get_u32 (drop 24 buf);
  guest_entry_pc = get_u64 (drop 28 buf);
  guest_len = get_u32 (drop 36 buf);
  guest_hash = take 32 (drop 52 buf);
  code = code;
  relocs = relocs;
  exits = exits;
}

-- The sections behind the header, by their lengths.
unfoldable pub tu_sections : List ℕ → ℕ → ℕ → ℕ → Tu
tu_sections buf code_len reloc_count exit_count =
    let p = drop tu_header_len buf in
    let q = drop code_len p in
    tu_fields buf (take code_len p) (get_relocs reloc_count q)
      (get_exits exit_count (drop (reloc_count * tu_reloc_len) q))

module _ (malloc : ℕ → Bool) where
  unfoldable pub tu_serialize : Tu → Result (List ℕ)
  tu_serialize tu =
      if malloc (tu_need (length tu.code) (length tu.relocs) (length tu.exits))
      then ok (tu_image tu)
      else err nomem

  -- A section of `n` elements is allocated unless it is empty.
  unfoldable pub section_fits : ℕ → ℕ → Bool
  section_fits n size = n == 0 || malloc (n * size)

  unfoldable pub tu_parse : List ℕ → Result Tu
  tu_parse buf =
      let code_len = get_u32 (drop 40 buf) in
      let reloc_count = get_u32 (drop 44 buf) in
      let exit_count = get_u32 (drop 48 buf) in
      if ltb (length buf) tu_header_len
      then err format
      else (if not (get_u32 buf == tu_magic)
          then err format
          else (if not (get_u16 (drop 4 buf) == tu_version)
              then err format
              else (if not (tu_need code_len reloc_count exit_count == length buf)
                  then err format
                  else (if not (section_fits code_len 1)
                      then err nomem
                      else (if not (section_fits reloc_count 16)
                          then err nomem
                          else (if not (section_fits exit_count 8)
                              then err nomem
                              else ok (tu_sections buf code_len reloc_count exit_count)))))))

-- The 64 characters of `oryx_content_address`.
unfoldable pub content_address : List ℕ → List ℕ
content_address bytes = sha256_hex (sha256 bytes)

unfoldable pub tu_logical_key : Tu → List ℕ
tu_logical_key tu = sha256_hex (
    sha256 (
      tu.guest_hash
      ++ (put_u32 tu.translator_id
          ++ (put_u32 tu.translator_version ++ (put_u32 tu.profile_id ++ put_u32 tu.isa_id)))))
