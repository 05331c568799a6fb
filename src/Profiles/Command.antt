-- ===== src/Profiles/Command.antt =====
-- src/liboryxprofile/oryxprofile_cli.c: the command line of the profiles. A run gives what is printed on the standard
-- output, and the exit status.
use oryx.Prelude.{if◌then◌else◌, take, ℕ, ◌-◌, Bool, Option, none, some, List, [], ◌∷◌, ◌++◌}
use oryx.Errors.{Result, ◌>>=◌, io, err, ok}
use oryx.Wire.{same_bytes}
use oryx.Profiles.Text.{codes, Libc}
use oryx.Profiles.Format.{
  Profile, str_size, joined, parse_profile, profile_lines, serialize_profile,
}
use oryx.Profiles.Ranking.{Caps, text_max, score, empty_set, set_load_dir, resolve_profile}
use oryx.Profiles.Env.{apply_env}
use oryx.Profiles.Rendered.{env_text}

-- What the command line asks of the system: memory, the bytes of a file that can be read, and the entries of a
-- directory that can be opened.
pub record System : Type 0 where
  pub malloc : ℕ → Bool
  pub realloc : ℕ → Bool
  pub open_file : List ℕ → Option (List ℕ)
  pub list_dir : List ℕ → Option (List (List ℕ))

abbrev pub Output : Type 0
Output = List ℕ × ℕ

abbrev pub fails : Output
fails = ([], 1)

abbrev pub show_usage : Output
show_usage = ([], 2)

-- The size of the buffers `env` and `ser`.
abbrev pub buffer_size : ℕ
buffer_size = 2048

-- What stands in a buffer behind a call that prints `text` into it: where the text does not fit, the call fails, and the
-- buffer has what `snprintf` wrote of it. The callers do not look at the code.
unfoldable pub left_in_buffer : Result (List ℕ) → List ℕ → List ℕ
left_in_buffer (ok printed_text) text = printed_text
left_in_buffer (err e) text = take (buffer_size - 1) text

unfoldable pub env_buffer : {D : Type 0} → Profile D → List ℕ
env_buffer p = left_in_buffer (apply_env p buffer_size) (env_text p)

module _ (c : Libc) (sys : System) where
  unfoldable pub read_profile : List ℕ → Result (Profile c.Double)
  read_profile path = elim (sys.open_file path) [
    | none ↦ err io
    | some bytes ↦ parse_profile c sys.malloc (take text_max bytes)
  ]

  unfoldable pub caps_of : List ℕ → List ℕ → Caps
  caps_of class tso = record { device_class = take (str_size - 1) class; hw_tso = c.atoi tso }

  -- The set of the directory, and the search in it.
  unfoldable pub best_of : List ℕ → List ℕ → Caps → Result (Profile c.Double)
  best_of dir hash caps =
      set_load_dir c sys.malloc sys.realloc sys.open_file dir (sys.list_dir dir) (empty_set c)
      >>= λ r. resolve_profile c hash caps r.0

  unfoldable pub ser_buffer : Profile c.Double → List ℕ
  ser_buffer p = left_in_buffer (serialize_profile c p buffer_size) (joined (profile_lines c p))

  unfoldable pub selected : Result (Profile c.Double) → Output
  selected (err e) = fails
  selected (ok p) = (
    codes "# selected profile (score="
        ++ (c.show_fixed 2 (score c p)
            ++ (codes "):\n" ++ (ser_buffer p ++ (codes "\n# apply:\n" ++ env_buffer p)))),
    0,
  )

  unfoldable pub exports : Result (Profile c.Double) → Output
  exports (err e) = fails
  exports (ok p) = (env_buffer p, 0)

  unfoldable pub show_score : Result (Profile c.Double) → Output
  show_score (err e) = fails
  show_score (ok p) = (c.show_fixed 2 (score c p) ++ b'\n' ∷ [], 0)

  -- `main` for the name of a command and what follows it.
  unfoldable pub profile_command : List ℕ → List (List ℕ) → Output
  profile_command name (file ∷ []) =
      if same_bytes name (codes "apply")
      then exports (read_profile file)
      else (if same_bytes name (codes "score") then show_score (read_profile file) else show_usage)
  profile_command name (dir ∷ hash ∷ class ∷ tso ∷ []) =
      if same_bytes name (codes "resolve")
      then selected (best_of dir hash (caps_of class tso))
      else (if same_bytes name (codes "env")
          then exports (best_of dir hash (caps_of class tso))
          else show_usage)
  profile_command name _ = show_usage

  unfoldable pub profile_main : List (List ℕ) → Output
  profile_main [] = show_usage
  profile_main (name ∷ args) = profile_command name args
