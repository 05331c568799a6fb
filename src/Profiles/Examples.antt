-- ===== src/Profiles/Examples.antt =====
-- Runs of profile.c on two profiles of one game. The doubles are natural numbers here.
use oryx.Prelude.{
  ltb, leb, ◌==◌, if◌then◌else◌, length, ℕ, ◌+◌, ◌-◌, ◌*◌, ◌/◌, ◌≡◌, refl, true, ◌&&◌, ◌||◌, none,
  some, List, [], ◌∷◌,
}
use oryx.Errors.{io, err, ok}
use oryx.Wire.{same_bytes}
use oryx.Profiles.Text.{
  codes, Libc, is_blank, c_string, trim_start, trim_end, trim, split_at, lines_from, ends_with,
}
use oryx.Profiles.Format.{
  Profile, set_str, backend_name, find_key, init_profile, assign, assign_known, assign_pair,
  is_comment, parse_line, parse_lines, complete, parse_profile, fex, sw_fences, hw_tso,
}
use oryx.Profiles.Ranking.{
  Caps, is_hw_tso, ProfileSet, found_profile, base_score, score, needs_tso, compatible, set_add,
  added, load_file, load_entries, set_load_dir, more_samples, better, is_candidate, consider,
  resolve_loop, resolve_profile,
}
use oryx.Profiles.Env.{put_line, put_set, put_ordering, apply_env}
use oryx.Profiles.Best.{Compares, IsChoice, resolve_profile-IsChoice}
use oryx.Profiles.Rendered.{env_text, apply_env-env_text}
use oryx.Profiles.Ordering.{IsSoftware}
use oryx.Profiles.Command.{
  System, left_in_buffer, env_buffer, caps_of, best_of, exports, profile_command, profile_main,
}
use oryx.Profiles.Launch.{profile_main-IsSoftware}

abbrev digit_value : ℕ → List ℕ → ℕ
digit_value n [] = n
digit_value n (d ∷ ds) = digit_value (n * 10 + (d - b'0')) ds

abbrev libc : Libc
libc = record {
  isspace = λ b. b == 32 || (leb 9 b && leb b 13);
  atoi = digit_value 0;
  strtoul = digit_value 0;
  show_int = λ n. (b'0' + n) ∷ [];
  show_unsigned = λ n. (b'0' + n) ∷ [];
  Double = ℕ;
  atof = digit_value 0;
  show_fixed = λ n d. (b'0' + d) ∷ [];
  literal = λ m n. m;
  of_unsigned = λ n. n;
  add = λ a b. a + b;
  sub = λ a b. a - b;
  mul = λ a b. a * b;
  div = λ a b. a / b;
  neg = λ a. 0;
  greater = λ a b. ltb b a;
  equal = λ a b. a == b;
}

abbrev text : List ℕ
text =
    codes
      "# best\ngame_build_hash = abc\n device_class=SM8850\nbackend = fex \nresolution =1280x720\nmedian_fps = 50\nsample_count = 7\n"

abbrev fenced : Profile ℕ
fenced = record {
  game_build_hash = codes "abc";
  device_class = codes "SM8850";
  requires_hw_tso = 0;
  backend = fex;
  memmodel = sw_fences;
  turnip_build = [];
  dxvk_opts = [];
  vkd3d_opts = [];
  resolution = codes "1280x720";
  fsr_mode = codes "off";
  device_spoof = [];
  median_fps = 50;
  p1_low_fps = 0;
  crash_rate = 0;
  sustained_fps = 0;
  sample_count = 7;
}

abbrev ordered : Profile ℕ
ordered = record fenced { memmodel = hw_tso; median_fps = 90 }

parse_profile-text : parse_profile libc (λ n. true) text ≡ ok fenced
unfolding parse_profile c_string lines_from parse_lines parse_line trim trim_start trim_end is_blank
    is_comment split_at assign_pair assign_known find_key assign set_str init_profile complete
    same_bytes
parse_profile-text = refl

abbrev weak_caps : Caps
weak_caps = record { device_class = codes "SM8850"; hw_tso = 0 }

abbrev set_of_two : ProfileSet ℕ
set_of_two = record { items = ordered ∷ fenced ∷ []; cap = 8 }

resolve_profile-two : resolve_profile libc (codes "abc") weak_caps set_of_two ≡ ok fenced
unfolding resolve_profile resolve_loop consider is_candidate compatible needs_tso is_hw_tso better
    more_samples score base_score found_profile same_bytes
resolve_profile-two = refl

abbrev fenced_text : List ℕ
fenced_text =
    codes
      "export ORYX_BACKEND=fex\nexport ORYX_MM_TSO=0\nexport FEX_TSOENABLED=1\nexport ORYX_RES=1280x720\nexport ORYX_FSR=off\n"

apply_env-fenced : apply_env fenced 256 ≡ ok fenced_text
unfolding apply_env put_line put_set put_ordering backend_name is_blank
apply_env-fenced = refl

nat_order : Compares libc (λ n. n) (λ n. Unit {0})
nat_order = record { greater = λ a b p q. refl; equal = λ a b p q. refl }

resolve_profile-IsChoice_example :
    IsChoice libc
      (λ n. n)
      (λ n. Unit {0})
      nat_order
      (codes "abc")
      weak_caps
      (ordered ∷ fenced ∷ [])
      (resolve_profile libc (codes "abc") weak_caps set_of_two)
resolve_profile-IsChoice_example =
    resolve_profile-IsChoice libc (λ n. n) (λ n. Unit {0}) nat_order (codes "abc") weak_caps
      set_of_two tt (tt, (tt, tt))

apply_env-env_text_example :
    apply_env fenced 256
    ≡ (if ltb (length (env_text fenced)) 256 then ok (env_text fenced) else err io)
apply_env-env_text_example = apply_env-env_text fenced 256

-- A directory with one profile.
abbrev one_file : System
one_file = record {
  malloc = λ n. true;
  realloc = λ n. true;
  open_file = λ path. if same_bytes path (codes "p/a.profile") then some text else none;
  list_dir = λ path. some (codes "a.profile" ∷ codes "README" ∷ []);
}

env_of_one :
    profile_main libc one_file
      (codes "env" ∷ codes "p" ∷ codes "abc" ∷ codes "SM8850" ∷ codes "0" ∷ [])
    ≡ (fenced_text, 0)
unfolding profile_main profile_command best_of caps_of exports env_buffer left_in_buffer
    set_load_dir load_entries ends_with load_file added set_add parse_profile c_string lines_from
    parse_lines parse_line trim trim_start trim_end is_blank is_comment split_at assign_pair
    assign_known find_key assign set_str init_profile complete same_bytes resolve_profile
    resolve_loop consider is_candidate compatible needs_tso is_hw_tso better more_samples score
    base_score found_profile apply_env put_line put_set put_ordering backend_name
env_of_one = refl

profile_main-IsSoftware_example :
    (p : Profile ℕ) × (best_of libc one_file
        (codes "p")
        (codes "abc")
        (caps_of libc one_file (codes "SM8850") (codes "0"))
      ≡ ok p)
    × (fenced_text ≡ env_text p)
    × IsSoftware p.backend fenced_text
profile_main-IsSoftware_example =
    profile_main-IsSoftware libc one_file (codes "p") (codes "abc") (codes "SM8850") (codes "0")
      fenced_text refl env_of_one
