-- ===== src/Profiles/Sized.antt =====
-- The strings of a profile that was parsed are short, and so are its settings.
use oryx.Prelude.{
  Bool-cases, length, take, length-append, ℕ, zero, suc, ◌+◌, ◌≤◌, ◌<◌, inl, inr, Bool, ◌||◌,
  Option, none, some, List, [], ◌∷◌, ◌++◌, arith,
}
use oryx.Errors.{Ensures, Ensures-guard, inval, ok}
use oryx.Profiles.Text.{codes, Libc, is_blank, c_string, trim, split_at, lines_from}
use oryx.Profiles.Format.{
  Backend, MemModel, Profile, set_str, backend_name, Key, key_table, find_key, init_profile, assign,
  assign_known, assign_pair, is_comment, parse_line, parse_lines, complete, parse_profile, box64,
  fex, sw_fences, hw_tso, game_build_hash, device_class, requires_hw_tso, backend, memmodel,
  turnip_build, dxvk_opts, vkd3d_opts, resolution, fsr_mode, device_spoof, median_fps, p1_low_fps,
  crash_rate, sustained_fps, sample_count,
}
use oryx.Profiles.Env.{newline, quoted, plain}
use oryx.Profiles.Rendered.{if_set, ordering_text, env_text}

abbrev pub IsShort : List ℕ → Type 0
IsShort s = length s ≤ 95

-- The strings that the settings show.
abbrev pub IsSized : {D : Type 0} → Profile D → Type 0
IsSized p =
    IsShort p.turnip_build
    × IsShort p.dxvk_opts
    × IsShort p.vkd3d_opts
    × IsShort p.resolution
    × IsShort p.fsr_mode
    × IsShort p.device_spoof

take-le {ℓ} : {A : Type ℓ} (n : ℕ) (xs : List A) → length (take n xs) ≤ n
take-le zero xs = omega arith
take-le (suc n) [] = omega arith
take-le (suc n) (x ∷ xs) = omega (arith, take-le n xs)

set_str-IsShort : (s : List ℕ) → IsShort (set_str s)
unfolding set_str
set_str-IsShort s = take-le 95 s

append-le : (a b : ℕ) (xs ys : List ℕ) → length xs ≤ a → length ys ≤ b → length (xs ++ ys) ≤ a + b
append-le a b xs ys h k = omega (arith, length-append xs ys)

if_set-le : (n : ℕ) (value text : List ℕ) → length text ≤ n → length (if_set value text) ≤ n
unfolding is_blank
if_set-le n [] text h = omega arith
if_set-le n (x ∷ value) text h = h

plain-le : (key value : List ℕ) → length key ≤ 30 → IsShort value → length (plain key value) ≤ 130
plain-le key value h k =
    omega (arith, length-append key (value ++ newline), length-append value newline)

quoted-le : (key value : List ℕ) → length key ≤ 30 → IsShort value → length (quoted key value) ≤ 130
quoted-le key value h k = omega (
  arith,
  length-append key (b'"' ∷ (value ++ (b'"' ∷ newline))),
  length-append value (b'"' ∷ newline),
)

set_plain-le :
    (key value : List ℕ)
    → length key ≤ 30
    → IsShort value
    → length (if_set value (plain key value)) ≤ 130
set_plain-le key value h k = if_set-le 130 value (plain key value) (plain-le key value h k)

set_quoted-le :
    (key value : List ℕ)
    → length key ≤ 30
    → IsShort value
    → length (if_set value (quoted key value)) ≤ 130
set_quoted-le key value h k = if_set-le 130 value (quoted key value) (quoted-le key value h k)

backend_name-le : (b : Backend) → IsShort (backend_name b)
unfolding backend_name
backend_name-le box64 = omega arith
backend_name-le fex = omega arith

ordering_text-le : (b : Backend) (m : MemModel) → length (ordering_text b m) ≤ 130
ordering_text-le fex hw_tso = omega arith
ordering_text-le box64 hw_tso = omega arith
ordering_text-le box64 sw_fences = omega arith
ordering_text-le fex sw_fences = omega arith

-- The settings of a profile whose strings are short.
pub length-env_text : {D : Type 0} (p : Profile D) → IsSized p → length (env_text p) < 2048
unfolding env_text
length-env_text p (a, b, c, d, e, f) =
    let spoof = set_quoted-le (codes "export ORYX_GPU_SPOOF=") p.device_spoof (omega arith) f in
    let fsr = set_plain-le (codes "export ORYX_FSR=") p.fsr_mode (omega arith) e in
    let res = set_plain-le (codes "export ORYX_RES=") p.resolution (omega arith) d in
    let vkd3d = set_quoted-le (codes "export VKD3D_CONFIG=") p.vkd3d_opts (omega arith) c in
    let dxvk = set_quoted-le (codes "export DXVK_CONFIG=") p.dxvk_opts (omega arith) b in
    let turnip = set_plain-le (codes "export ORYX_TURNIP_BUILD=") p.turnip_build (omega arith) a in
    let ordering = ordering_text-le p.backend p.memmodel in
    let backend =
      plain-le (codes "export ORYX_BACKEND=") (backend_name p.backend) (omega arith)
        (backend_name-le p.backend) in
    let whole =
      append-le 130 910 (plain (codes "export ORYX_BACKEND=") (backend_name p.backend)) _ backend (
        append-le 130 780 _ _ ordering (
          append-le 130 650 _ _ turnip (
            append-le 130 520 _ _ dxvk (
              append-le 130 390 _ _ vkd3d
                (append-le 130 260 _ _ res (append-le 130 130 _ _ fsr spoof)))))) in
    omega (arith, whole)

module _ (c : Libc) where
  init_profile-IsSized : IsSized (init_profile c)
  unfolding init_profile
  init_profile-IsSized = (
    omega arith,
    omega arith,
    omega arith,
    omega arith,
    set_str-IsShort (codes "off"),
    omega arith,
  )

  assign-IsSized :
      (k : Key) (v : List ℕ) (p : Profile c.Double) → IsSized p → IsSized (assign c k v p)
  unfolding assign
  assign-IsSized game_build_hash v p h = h
  assign-IsSized device_class v p h = h
  assign-IsSized requires_hw_tso v p h = h
  assign-IsSized backend v p h = h
  assign-IsSized memmodel v p h = h
  assign-IsSized turnip_build v p (a, b, d, e, f, g) = (set_str-IsShort v, b, d, e, f, g)
  assign-IsSized dxvk_opts v p (a, b, d, e, f, g) = (a, set_str-IsShort v, d, e, f, g)
  assign-IsSized vkd3d_opts v p (a, b, d, e, f, g) = (a, b, set_str-IsShort v, e, f, g)
  assign-IsSized resolution v p (a, b, d, e, f, g) = (a, b, d, set_str-IsShort v, f, g)
  assign-IsSized fsr_mode v p (a, b, d, e, f, g) = (a, b, d, e, set_str-IsShort v, g)
  assign-IsSized device_spoof v p (a, b, d, e, f, g) = (a, b, d, e, f, set_str-IsShort v)
  assign-IsSized median_fps v p h = h
  assign-IsSized p1_low_fps v p h = h
  assign-IsSized crash_rate v p h = h
  assign-IsSized sustained_fps v p h = h
  assign-IsSized sample_count v p h = h

  assign_pair-IsSized :
      (o : Option (List ℕ × List ℕ)) (p : Profile c.Double)
      → IsSized p
      → IsSized (assign_pair c o p)
  unfolding assign_pair assign_known
  assign_pair-IsSized none p h = h
  assign_pair-IsSized (some (k, v)) p h = known (find_key key_table (trim c.isspace k))
    where
      known : (o : Option Key) → IsSized (assign_known c o (trim c.isspace v) p)
      known none = h
      known (some key) = assign-IsSized key (trim c.isspace v) p h

  parse_line-IsSized :
      (line : List ℕ) (p : Profile c.Double) → IsSized p → IsSized (parse_line c line p)
  unfolding parse_line
  parse_line-IsSized line p h =
      let t = trim c.isspace line in
      elim (Bool-cases (is_blank t || is_comment c t)) [
        | inl skipped ↦ rw skipped h
        | inr read ↦ rw read (assign_pair-IsSized (split_at b'=' t) p h)
      ]

  parse_lines-IsSized :
      (lines : List (List ℕ)) (p : Profile c.Double) → IsSized p → IsSized (parse_lines c lines p)
  unfolding parse_lines
  parse_lines-IsSized [] p h = h
  parse_lines-IsSized (line ∷ rest) p h =
      parse_lines-IsSized rest (parse_line c line p) (parse_line-IsSized line p h)

  pub parse_profile-IsSized :
      (malloc : ℕ → Bool) (text : List ℕ) → Ensures (parse_profile c malloc text) IsSized
  unfolding parse_profile complete
  parse_profile-IsSized malloc text =
      let p = parse_lines c (lines_from [] (c_string text)) (init_profile c) in
      let sized =
        parse_lines-IsSized (lines_from [] (c_string text)) (init_profile c) init_profile-IsSized in
      elim (Bool-cases (malloc (length text + 1))) [
        | inr h ↦ rw h tt
        | inl h ↦ rw h (
            Ensures-guard IsSized (is_blank p.game_build_hash || is_blank p.device_class) inval
              (ok p) (λ g. sized))
      ]
