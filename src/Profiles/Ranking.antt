-- ===== src/Profiles/Ranking.antt =====
-- The choice of a profile: `oryx_profile_score`, `oryx_profile_compatible`, the set of profiles and
-- `oryx_profile_resolve` of src/liboryxprofile/profile.c.
use oryx.Prelude.{
  ltb, ◌==◌, if◌then◌else◌, length, take, ℕ, ◌+◌, ◌*◌, Bool, true, false, ◌&&◌, ◌||◌, not, Option,
  none, some, List, [], ◌∷◌, ◌++◌,
}
use oryx.Errors.{Result, io, notfound, err, ok}
use oryx.Wire.{same_bytes}
use oryx.Profiles.Text.{codes, Libc, ends_with}
use oryx.Profiles.Format.{Profile, MemModel, sw_fences, hw_tso, parse_profile}

-- `struct oryx_caps`
pub record Caps : Type 0 where
  pub device_class : List ℕ
  pub hw_tso : ℕ

unfoldable pub is_hw_tso : MemModel → Bool
is_hw_tso hw_tso = true
is_hw_tso sw_fences = false

-- `struct oryx_profile_set`: `count` is the length of `items`.
pub record ProfileSet (D : Type 0) : Type 0 where
  pub items : List (Profile D)
  pub cap : ℕ

-- The locals `best` and `best_score` of `oryx_profile_resolve`.
pub record Leader (D : Type 0) : Type 0 where
  pub best : Option (Profile D)
  pub best_score : D

-- `out` and the return code of a search.
unfoldable pub found_profile {ℓ} : {A : Type ℓ} → Option A → Result A
found_profile none = err notfound
found_profile (some p) = ok p

-- The longest path that `path` holds, and the most bytes that `text` holds.
abbrev pub path_max : ℕ
path_max = 1023

abbrev pub text_max : ℕ
text_max = 4095

module _ (c : Libc) where
  -- The telemetry, weighted.
  unfoldable pub base_score : Profile c.Double → c.Double
  base_score p =
      c.add (c.add (c.mul (c.literal 5 1) p.p1_low_fps) (c.mul (c.literal 3 1) p.median_fps))
        (c.mul (c.literal 2 1) p.sustained_fps)

  unfoldable pub score : Profile c.Double → c.Double
  score p =
      let prior_n = c.literal 100 1 in
      let prior_crash = c.literal 10 2 in
      let n = c.of_unsigned p.sample_count in
      let conf = c.div n (c.add n prior_n) in
      let eff_crash =
        c.div (c.add (c.mul p.crash_rate n) (c.mul prior_crash prior_n)) (c.add n prior_n) in
      c.mul (c.mul (base_score p) (c.sub (c.literal 10 1) eff_crash))
        (c.add (c.literal 5 1) (c.mul (c.literal 5 1) conf))

  unfoldable pub needs_tso : Profile c.Double → Bool
  needs_tso p = not (p.requires_hw_tso == 0) || is_hw_tso p.memmodel

  unfoldable pub compatible : Profile c.Double → Caps → Bool
  compatible p caps =
      if not (same_bytes p.device_class caps.device_class)
      then false
      else (if needs_tso p && caps.hw_tso == 0 then false else true)

  abbrev pub empty_set : ProfileSet c.Double
  empty_set = record { items = []; cap = 0 }

  -- `realloc` is given the number of profiles.
  unfoldable pub set_add :
      (ℕ → Bool) → Profile c.Double → ProfileSet c.Double → Result (ProfileSet c.Double)
  set_add realloc p s =
      let full = length s.items == s.cap in
      let nc = if s.cap == 0 then 8 else s.cap * 2 in
      if not full || realloc nc
      then ok (record { items = s.items ++ p ∷ []; cap = if full then nc else s.cap })
      else err io

  -- One file of the directory: `loaded` counts the profiles that were added.
  unfoldable pub added :
      (ℕ → Bool) → Result (Profile c.Double) → ProfileSet c.Double × ℕ → ProfileSet c.Double × ℕ
  added realloc (err e) r = r
  added realloc (ok p) r = elim (set_add realloc p r.0) [ err e ↦ r | ok s ↦ (s, r.1 + 1) ]

  unfoldable pub load_file :
      (ℕ → Bool) → (ℕ → Bool) → Option (List ℕ) → ProfileSet c.Double × ℕ → ProfileSet c.Double × ℕ
  load_file malloc realloc none r = r
  load_file malloc realloc (some bytes) r =
      added realloc (parse_profile c malloc (take text_max bytes)) r

  -- The loop over the entries of the directory; `open` gives the bytes of a file that can be read.
  unfoldable pub load_entries :
      (ℕ → Bool)
      → (ℕ → Bool)
      → (List ℕ → Option (List ℕ))
      → List ℕ
      → List (List ℕ)
      → ProfileSet c.Double × ℕ
      → ProfileSet c.Double × ℕ
  load_entries malloc realloc open_file dir [] r = r
  load_entries malloc realloc open_file dir (name ∷ names) r =
      load_entries malloc realloc open_file dir names (
        if ends_with name (codes ".profile")
        then load_file malloc realloc (open_file (take path_max (dir ++ b'/' ∷ name))) r
        else r)

  -- `names` are the entries of the directory, if it can be opened.
  unfoldable pub set_load_dir :
      (ℕ → Bool)
      → (ℕ → Bool)
      → (List ℕ → Option (List ℕ))
      → List ℕ
      → Option (List (List ℕ))
      → ProfileSet c.Double
      → Result (ProfileSet c.Double × ℕ)
  set_load_dir malloc realloc open_file dir none s = err io
  set_load_dir malloc realloc open_file dir (some names) s =
      ok (load_entries malloc realloc open_file dir names (s, 0))

  -- `best && p->sample_count > best->sample_count`
  unfoldable pub more_samples : Profile c.Double → Option (Profile c.Double) → Bool
  more_samples p none = false
  more_samples p (some b) = ltb b.sample_count p.sample_count

  unfoldable pub better : Profile c.Double → Leader c.Double → Bool
  better p l =
      c.greater (score p) l.best_score || (c.equal (score p) l.best_score && more_samples p l.best)

  module _ (game_build_hash : List ℕ) (caps : Caps) where
    unfoldable pub is_candidate : Profile c.Double → Bool
    is_candidate p = same_bytes p.game_build_hash game_build_hash && compatible p caps

    -- One round of the loop.
    unfoldable pub consider : Profile c.Double → Leader c.Double → Leader c.Double
    consider p l =
        if is_candidate p && better p l then record { best = some p; best_score = score p } else l

    unfoldable pub resolve_loop : List (Profile c.Double) → Leader c.Double → Leader c.Double
    resolve_loop [] l = l
    resolve_loop (p ∷ ps) l = resolve_loop ps (consider p l)

    unfoldable pub resolve_profile : ProfileSet c.Double → Result (Profile c.Double)
    resolve_profile s =
        found_profile
          (resolve_loop s.items (record { best = none; best_score = c.neg (c.literal 10 1) })).best
