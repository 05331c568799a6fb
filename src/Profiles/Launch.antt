-- ===== src/Profiles/Launch.antt =====
-- The settings that oryxprofile_cli.c prints are whole: no buffer of its cuts them.
use oryx.Prelude.{
  ◌==◌, if◌then◌else◌, lt→ltb, Bool-cases, length, take, All, All-append, ℕ, ◌+◌, ◌*◌, ◌≡◌, refl,
  sym, ap, ◌∙◌, inl, inr, Bool, true, false, ◌&&◌, ◌||◌, not, Option, none, some, List, [], ◌∷◌,
  ◌++◌,
}
use oryx.Errors.{Result, ◌>>=◌, Ensures, Ensures-bind, Ensures-ok, err, ok}
use oryx.Wire.{same_bytes}
use oryx.Profiles.Text.{codes, Libc, ends_with}
use oryx.Profiles.Format.{Profile, parse_profile}
use oryx.Profiles.Ranking.{
  Caps, ProfileSet, Leader, found_profile, path_max, text_max, empty_set, set_add, added, load_file,
  load_entries, set_load_dir, better, is_candidate, consider, resolve_loop, resolve_profile,
}
use oryx.Profiles.Env.{apply_env}
use oryx.Profiles.Rendered.{env_text, apply_env-env_text}
use oryx.Profiles.Ordering.{IsSoftware, resolve_profile-IsSoftware}
use oryx.Profiles.Sized.{IsSized, length-env_text, parse_profile-IsSized}
use oryx.Profiles.Command.{
  System, buffer_size, left_in_buffer, env_buffer, caps_of, best_of, exports, profile_command,
  profile_main,
}

apply_env-whole :
    {D : Type 0} (p : Profile D) → IsSized p → apply_env p buffer_size ≡ ok (env_text p)
apply_env-whole p sized =
    apply_env-env_text p buffer_size ∙ rw (lt→ltb _ _ (length-env_text p sized)) refl

env_buffer-env_text : {D : Type 0} (p : Profile D) → IsSized p → env_buffer p ≡ env_text p
unfolding env_buffer left_in_buffer
env_buffer-env_text p sized = rw (apply_env-whole p sized) refl

module _ (c : Libc) where
  abbrev AllSized : ProfileSet c.Double × ℕ → Type 0
  AllSized r = All IsSized r.0.items

  set_add-Sized :
      (realloc : ℕ → Bool) (p : Profile c.Double) (s : ProfileSet c.Double)
      → IsSized p
      → All IsSized s.items
      → Ensures (set_add c realloc p s) (λ t. All IsSized t.items)
  unfolding set_add
  set_add-Sized realloc p s sized all =
      elim (Bool-cases
        (not (length s.items == s.cap) || realloc (if s.cap == 0 then 8 else s.cap * 2))) [
          | inl grows ↦ rw grows (All-append IsSized s.items (p ∷ []) all (sized, tt))
          | inr stays ↦ rw stays tt
        ]

  counted-Sized :
      (m : Result (ProfileSet c.Double)) (r : ProfileSet c.Double × ℕ)
      → Ensures m (λ t. All IsSized t.items)
      → AllSized r
      → AllSized (elim m [ err e ↦ r | ok s ↦ (s, r.1 + 1) ])
  counted-Sized (ok s) r sized all = sized
  counted-Sized (err e) r sized all = all

  added-Sized :
      (realloc : ℕ → Bool) (m : Result (Profile c.Double)) (r : ProfileSet c.Double × ℕ)
      → Ensures m IsSized
      → AllSized r
      → AllSized (added c realloc m r)
  unfolding added
  added-Sized realloc (ok p) r sized all =
      counted-Sized (set_add c realloc p r.0) r (set_add-Sized realloc p r.0 sized all) all
  added-Sized realloc (err e) r sized all = all

  if-Sized :
      (b : Bool) (r q : ProfileSet c.Double × ℕ)
      → AllSized r
      → AllSized q
      → AllSized (if b then r else q)
  if-Sized true r q h k = h
  if-Sized false r q h k = k

  load_file-Sized :
      (malloc realloc : ℕ → Bool) (o : Option (List ℕ)) (r : ProfileSet c.Double × ℕ)
      → AllSized r
      → AllSized (load_file c malloc realloc o r)
  unfolding load_file
  load_file-Sized malloc realloc none r all = all
  load_file-Sized malloc realloc (some bytes) r all =
      added-Sized realloc (parse_profile c malloc (take text_max bytes)) r
        (parse_profile-IsSized c malloc (take text_max bytes)) all

  load_entries-Sized :
      (malloc realloc : ℕ → Bool) (open_file : List ℕ → Option (List ℕ)) (dir : List ℕ)
      (names : List (List ℕ)) (r : ProfileSet c.Double × ℕ)
      → AllSized r
      → AllSized (load_entries c malloc realloc open_file dir names r)
  unfolding load_entries
  load_entries-Sized malloc realloc open_file dir [] r all = all
  load_entries-Sized malloc realloc open_file dir (name ∷ names) r all =
      load_entries-Sized malloc realloc open_file dir names _ (
        if-Sized (ends_with name (codes ".profile")) _ r
          (load_file-Sized malloc realloc (open_file (take path_max (dir ++ b'/' ∷ name))) r all)
          all)

  IsSizedBest : Option (Profile c.Double) → Type 0
  IsSizedBest none = Unit
  IsSizedBest (some p) = IsSized p

  module _ (hash : List ℕ) (caps : Caps) where
    consider-Sized :
        (p : Profile c.Double) (l : Leader c.Double)
        → IsSized p
        → IsSizedBest l.best
        → IsSizedBest (consider c hash caps p l).best
    unfolding consider IsSizedBest
    consider-Sized p l sized h = elim (Bool-cases (is_candidate c hash caps p && better c p l)) [
      | inl wins ↦ rw wins sized
      | inr loses ↦ rw loses h
    ]

    resolve_loop-Sized :
        (ps : List (Profile c.Double)) (l : Leader c.Double)
        → All IsSized ps
        → IsSizedBest l.best
        → IsSizedBest (resolve_loop c hash caps ps l).best
    unfolding resolve_loop
    resolve_loop-Sized [] l all h = h
    resolve_loop-Sized (p ∷ ps) l all h =
        resolve_loop-Sized ps (consider c hash caps p l) all.1 (consider-Sized p l all.0 h)

    found-Sized :
        (o : Option (Profile c.Double)) → IsSizedBest o → Ensures (found_profile o) IsSized
    unfolding found_profile IsSizedBest
    found-Sized none h = tt
    found-Sized (some p) h = h

    resolve_profile-Sized :
        (s : ProfileSet c.Double)
        → All IsSized s.items
        → Ensures (resolve_profile c hash caps s) IsSized
    unfolding resolve_profile
    resolve_profile-Sized s all =
        let start : Leader c.Double = record { best = none; best_score = c.neg (c.literal 10 1) } in
        found-Sized (resolve_loop c hash caps s.items start).best
          (resolve_loop-Sized s.items start all (unfold IsSizedBest in tt))

    set_load_dir-Sized :
        (sys : System) (dir : List ℕ) (names : Option (List (List ℕ)))
        → Ensures
            (set_load_dir c sys.malloc sys.realloc sys.open_file dir names (empty_set c))
            AllSized
    unfolding set_load_dir
    set_load_dir-Sized sys dir none = tt
    set_load_dir-Sized sys dir (some names) =
        load_entries-Sized sys.malloc sys.realloc sys.open_file dir names (empty_set c, 0) tt

    best_of-Sized : (sys : System) (dir : List ℕ) → Ensures (best_of c sys dir hash caps) IsSized
    unfolding best_of
    best_of-Sized sys dir =
        Ensures-bind AllSized IsSized _ (λ r. resolve_profile c hash caps r.0)
          (set_load_dir-Sized sys dir (sys.list_dir dir)) (λ r all. resolve_profile-Sized r.0 all)

module _ (c : Libc) (sys : System) where
  chosen_from :
      (hash : List ℕ) (caps : Caps) (m : Result (ProfileSet c.Double × ℕ)) (p : Profile c.Double)
      → (m >>= λ r. resolve_profile c hash caps r.0) ≡ ok p
      → (s : ProfileSet c.Double) × (resolve_profile c hash caps s ≡ ok p)
  chosen_from hash caps (ok r) p h = (r.0, h)
  chosen_from hash caps (err e) p h = cc

  exports-ok :
      (m : Result (Profile c.Double)) (text : List ℕ)
      → exports c sys m ≡ (text, 0)
      → (p : Profile c.Double) × (m ≡ ok p) × (env_buffer p ≡ text)
  unfolding exports
  exports-ok (ok p) text h = (p, refl, cc h)
  exports-ok (err e) text h = cc

  main-env :
      (dir hash class tso : List ℕ)
      → profile_main c sys (codes "env" ∷ dir ∷ hash ∷ class ∷ tso ∷ [])
        ≡ exports c sys (best_of c sys dir hash (caps_of c sys class tso))
  unfolding profile_main profile_command same_bytes
  main-env dir hash class tso = refl

-- If the number given for hardware TSO reads as 0 and `env` exits with 0, then it prints, uncut, all settings of the profile
-- that was chosen for the device, and they ask for software ordering right behind the backend.
pub profile_main-IsSoftware :
    (c : Libc) (sys : System) (dir hash class tso text : List ℕ)
    → c.atoi tso ≡ 0
    → profile_main c sys (codes "env" ∷ dir ∷ hash ∷ class ∷ tso ∷ []) ≡ (text, 0)
    → (p : Profile c.Double) × (best_of c sys dir hash (caps_of c sys class tso) ≡ ok p)
      × (text ≡ env_text p)
      × IsSoftware p.backend text
unfolding best_of caps_of
profile_main-IsSoftware c sys dir hash class tso text weak run =
    let caps = caps_of c sys class tso in
    let (p, chosen, printed_text) =
      exports-ok c sys (best_of c sys dir hash caps) text
        (sym (main-env c sys dir hash class tso) ∙ run) in
    let sized =
      Ensures-ok IsSized (best_of c sys dir hash caps) (best_of-Sized c hash caps sys dir) chosen in
    let whole : text ≡ env_text p = sym printed_text ∙ env_buffer-env_text p sized in
    let (s, found) = chosen_from c sys hash caps _ p chosen in
    (
      p,
      chosen,
      whole,
      resolve_profile-IsSoftware c hash caps s p buffer_size text weak found
          (apply_env-whole p sized ∙ ap ok (sym whole)),
    )
