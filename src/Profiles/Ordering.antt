-- ===== src/Profiles/Ordering.antt =====
-- A device without hardware TSO is never told to rely on it: from `oryx_profile_resolve` to
-- `oryx_profile_apply_env` of src/liboryxprofile/profile.c.
use oryx.Prelude.{
  if◌then◌else◌, Bool-cases, ℕ, ◌≡◌, subst, refl, sym, ◌∙◌, inl, inr, Bool, true, false, Option,
  none, some, List, [], ◌∷◌, ◌++◌, arith,
}
use oryx.Errors.{io, err, ok}
use oryx.Profiles.Text.{codes, Libc}
use oryx.Profiles.Format.{Profile, Backend, box64, fex, MemModel, sw_fences, hw_tso, backend_name}
use oryx.Profiles.Ranking.{
  Caps, is_hw_tso, ProfileSet, Leader, found_profile, needs_tso, compatible, better, is_candidate,
  consider, resolve_loop, resolve_profile,
}
use oryx.Profiles.Env.{plain, apply_env}
use oryx.Profiles.Rendered.{env_text, apply_env-env_text}

-- A text that starts with the backend and the request for software ordering.
abbrev pub IsSoftware : Backend → List ℕ → Type 0
IsSoftware b text =
    (rest : List ℕ) × (text
      ≡ plain (codes "export ORYX_BACKEND=") (backend_name b)
        ++ (codes "export ORYX_MM_TSO=0\n" ++ rest))

written_whole :
    (fits : Bool) (whole text : List ℕ)
    → (if fits then ok whole else err io) ≡ ok text
    → whole ≡ text
written_whole true whole text h = cc h
written_whole false whole text h = cc

module _ (c : Libc) (game_build_hash : List ℕ) (caps : Caps) where
  IsOurs : Option (Profile c.Double) → Type 0
  IsOurs none = Unit
  IsOurs (some p) = is_candidate c game_build_hash caps p ≡ true

  consider-IsOurs :
      (p : Profile c.Double) (l : Leader c.Double)
      → IsOurs l.best
      → IsOurs (consider c game_build_hash caps p l).best
  unfolding consider IsOurs
  consider-IsOurs p l h = elim (Bool-cases (is_candidate c game_build_hash caps p)) [
    | inr other ↦ rw other h
    | inl ours ↦ elim (Bool-cases (better c p l)) [
      | inl wins ↦ rw (ours, wins) ours
      | inr loses ↦ rw (ours, loses) h
    ]
  ]

  resolve_loop-IsOurs :
      (ps : List (Profile c.Double)) (l : Leader c.Double)
      → IsOurs l.best
      → IsOurs (resolve_loop c game_build_hash caps ps l).best
  unfolding resolve_loop
  resolve_loop-IsOurs [] l h = h
  resolve_loop-IsOurs (p ∷ ps) l h =
      resolve_loop-IsOurs ps (consider c game_build_hash caps p l) (consider-IsOurs p l h)

  found-IsOurs :
      (o : Option (Profile c.Double)) (p : Profile c.Double)
      → IsOurs o
      → found_profile o ≡ ok p
      → is_candidate c game_build_hash caps p ≡ true
  unfolding found_profile IsOurs
  found-IsOurs none p h e = cc
  found-IsOurs (some q) p h e =
      let same : q ≡ p = cc e in subst (λ r. is_candidate c game_build_hash caps r ≡ true) same h

  weak_memmodel : (m : MemModel) → is_hw_tso m ≡ false → m ≡ sw_fences
  unfolding is_hw_tso
  weak_memmodel sw_fences h = refl
  weak_memmodel hw_tso h = cc

  candidate-memmodel :
      (p : Profile c.Double)
      → is_candidate c game_build_hash caps p ≡ true
      → caps.hw_tso ≡ 0
      → p.memmodel ≡ sw_fences
  unfolding is_candidate compatible needs_tso
  candidate-memmodel p y weak = weak_memmodel p.memmodel (ground arith)

  env_text-IsSoftware :
      (p : Profile c.Double) (b : Backend) (m : MemModel)
      → p.backend ≡ b
      → p.memmodel ≡ m
      → m ≡ sw_fences
      → IsSoftware p.backend (env_text p)
  unfolding env_text
  env_text-IsSoftware p box64 sw_fences eb em h = rw (eb, em) (_, refl)
  env_text-IsSoftware p fex sw_fences eb em h = rw (eb, em) (_, refl)
  env_text-IsSoftware p b hw_tso eb em h = cc

  -- On a device without hardware TSO, the settings of the profile that the search returns ask for
  -- software ordering right behind the backend.
  pub resolve_profile-IsSoftware :
      (s : ProfileSet c.Double) (p : Profile c.Double) (size : ℕ) (text : List ℕ)
      → caps.hw_tso ≡ 0
      → resolve_profile c game_build_hash caps s ≡ ok p
      → apply_env p size ≡ ok text
      → IsSoftware p.backend text
  unfolding resolve_profile
  resolve_profile-IsSoftware s p size text weak chosen written =
      let start : Leader c.Double = record { best = none; best_score = c.neg (c.literal 10 1) } in
      let ours : is_candidate c game_build_hash caps p ≡ true =
        found-IsOurs (resolve_loop c game_build_hash caps s.items start).best p
          (resolve_loop-IsOurs s.items start (unfold IsOurs in tt)) chosen in
      let whole : env_text p ≡ text =
        written_whole _ _ text (sym (apply_env-env_text p size) ∙ written) in
      subst (IsSoftware p.backend) whole
        (env_text-IsSoftware p p.backend p.memmodel refl refl (candidate-memmodel p ours weak))
