-- ===== src/MemoryMap/Parse.antt =====
-- Whatever bytes `oryx_mmap_parse` accepts, the map that it returns is well formed.
use oryx.Prelude.{
  ℕ, zero, suc, ◌+◌, ◌*◌, ◌≤◌, ◌≡◌, refl, Bool, true, false, List, [], ◌∷◌, length, All, drop,
  length-drop, length-take, All-drop, ltb, leb, ◌==◌, Bool-cases, inl, inr, not, ◌&&◌, ◌||◌, arith,
}
use oryx.Errors.{ok, ◌>>=◌, Ensures, Ensures-bind}
use oryx.Wire.{IsByte, get_u16, get_u32}
use oryx.Wire.Codec.{get_u16-IsU16, get_u32-IsU32, get_u64-IsU64, get_byte-IsByte}
use oryx.MemoryMap.Entries.{Entry, MemMap, mmap_magic, mmap_version}
use oryx.MemoryMap.Format.{
  mmap_hdr, mmap_ent, entry_size, get_entry, parse_entries, get_header, parse,
}
use oryx.MemoryMap.Search.{IsAscending}
use oryx.MemoryMap.RoundTrip.{IsEntry, IsMap, Follows}

get_entry-IsEntry : (p : List ℕ) → All IsByte p → IsEntry (get_entry p)
unfolding get_entry
get_entry-IsEntry p h = record {
  pc_fits = get_u64-IsU64 p h;
  class_fits = get_byte-IsByte (drop 8 p) (All-drop IsByte 8 p h);
  flags_fit = get_byte-IsByte (drop 9 p) (All-drop IsByte 9 p h);
}

-- What the parse loop returned after reading `prev`.
record Parsed (n : ℕ) (first : Bool) (prev : ℕ) (es : List Entry) : Type 0 where
  count : length es ≡ n
  ascending : IsAscending es
  follows : Follows first prev es
  fit : All IsEntry es

cons-IsAscending :
    (e : Entry) (es : List Entry)
    → Follows false e.guest_pc es
    → IsAscending es
    → IsAscending (e ∷ es)
cons-IsAscending e [] f h = tt
cons-IsAscending e (d ∷ es) f h = (f, h)

cons-Parsed :
    (n : ℕ) (first : Bool) (prev : ℕ) (e : Entry) (es : List Entry)
    → IsEntry e
    → (not first && leb e.guest_pc prev) ≡ false
    → Parsed n false e.guest_pc es
    → Parsed (suc n) first prev (e ∷ es)
cons-Parsed n first prev e es fit passed rest = record {
  count = omega (arith, rest.count);
  ascending = cons-IsAscending e es rest.follows rest.ascending;
  follows = above first passed;
  fit = (fit, rest.fit);
}
  where
    above : (b : Bool) → (not b && leb e.guest_pc prev) ≡ false → Follows b prev (e ∷ es)
    above true h = tt
    above false h = ground arith

parse_entries-Parsed :
    (n : ℕ) (first : Bool) (prev : ℕ) (p : List ℕ)
    → All IsByte p
    → Ensures (parse_entries n first prev p) (Parsed n first prev)
unfolding parse_entries
parse_entries-Parsed zero first prev p bytes = record {
  count = refl;
  ascending = tt;
  follows = none_left first;
  fit = tt;
}
  where
    none_left : (b : Bool) → Follows b prev []
    none_left true = tt
    none_left false = tt
parse_entries-Parsed (suc n) first prev p bytes =
    let e = get_entry p in
    let rest =
      parse_entries-Parsed n false e.guest_pc (drop mmap_ent p)
        (All-drop IsByte mmap_ent p bytes) in
    elim (Bool-cases (not first && leb e.guest_pc prev)) [
      | inl bad ↦ rw bad tt
      | inr passed ↦ rw passed (
          Ensures-bind (Parsed n false e.guest_pc) (Parsed (suc n) first prev)
            (parse_entries n false e.guest_pc (drop mmap_ent p)) _ rest
            (λ es q. cons-Parsed n first prev e es (get_entry-IsEntry p bytes) passed q))
    ]

entries-get_header : (buf : List ℕ) (es : List Entry) → (get_header buf es).entries ≡ es
unfolding get_header
entries-get_header buf es = refl

module _ (buf : List ℕ) (bytes : All IsByte buf) (full : mmap_hdr ≤ length buf) where
  get_header-IsMap :
      (es : List Entry)
      → All IsEntry es
      → IsAscending es
      → length es ≡ get_u32 (drop 20 buf)
      → IsMap (get_header buf es)
  unfolding get_header
  get_header-IsMap es fit up count = record {
    isa_fits = get_u32-IsU32 _ (All-drop IsByte 8 buf bytes);
    analyzer_fits = get_u32-IsU32 _ (All-drop IsByte 12 buf bytes);
    version_fits = get_u32-IsU32 _ (All-drop IsByte 16 buf bytes);
    flags_fit = get_u16-IsU16 _ (All-drop IsByte 6 buf bytes);
    hash_length = length-take 32 (drop 24 buf) (omega (arith, length-drop 24 buf));
    count_fits = rw count (get_u32-IsU32 _ (All-drop IsByte 20 buf bytes));
    entries_fit = fit;
    ascending = up;
  }

  abbrev Fits : MemMap → Type 0
  Fits m = IsMap m × (length buf ≡ mmap_hdr + length m.entries * mmap_ent)

  module _ (exact : mmap_hdr + get_u32 (drop 20 buf) * mmap_ent ≡ length buf) where
    header-Fits :
        (es : List Entry) → Parsed (get_u32 (drop 20 buf)) true 0 es → Fits (get_header buf es)
    header-Fits es q = (
      get_header-IsMap es q.fit q.ascending q.count,
      ground (arith, entries-get_header buf es, q.count),
    )

    parsed-Fits :
        Ensures
          (parse_entries (get_u32 (drop 20 buf)) true 0 (drop mmap_hdr buf)
            >>= (λ es. ok (get_header buf es)))
          Fits
    parsed-Fits =
        Ensures-bind (Parsed (get_u32 (drop 20 buf)) true 0) Fits _ _
          (parse_entries-Parsed _ true 0 _ (All-drop IsByte mmap_hdr buf bytes)) header-Fits

-- A map that `parse` returns has fields that fit their types, a 32-byte hash and strictly ascending
-- entries, and the buffer has exactly the length that its entries need.
pub parse-IsMap :
    (malloc : ℕ → Bool) (buf : List ℕ)
    → All IsByte buf
    → Ensures
        (parse malloc buf)
        (λ m. IsMap m × (length buf ≡ mmap_hdr + length m.entries * mmap_ent))
unfolding parse
parse-IsMap malloc buf bytes =
    let count = get_u32 (drop 20 buf) in
    elim (Bool-cases (ltb (length buf) mmap_hdr)) [
      | inl short ↦ rw short tt
      | inr full ↦
          elim (Bool-cases
            (not (get_u32 buf == mmap_magic) || not (get_u16 (drop 4 buf) == mmap_version))) [
              | inl alien ↦ rw (full, alien) tt
              | inr known ↦ elim (Bool-cases (not (mmap_hdr + count * mmap_ent == length buf))) [
                | inl slack ↦ rw (full, known, slack) tt
                | inr fits ↦
                    let long : mmap_hdr ≤ length buf = ground arith in
                    let exact : mmap_hdr + count * mmap_ent ≡ length buf = ground arith in
                    elim (Bool-cases (count == 0)) [
                      | inl empty ↦
                          rw (full, known, fits, empty)
                            (header-Fits buf bytes long exact [] (record {
                              count = ground arith;
                              ascending = tt;
                              follows = tt;
                              fit = tt;
                            }))
                      | inr some_left ↦ elim (Bool-cases (malloc (count * entry_size))) [
                        | inl room ↦
                            rw (full, known, fits, some_left, room)
                              (parsed-Fits buf bytes long exact)
                        | inr refused ↦ rw (full, known, fits, some_left, refused) tt
                      ]
                    ]
              ]
            ]
    ]
