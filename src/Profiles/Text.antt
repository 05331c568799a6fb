-- ===== src/Profiles/Text.antt =====
-- C strings in src/liboryxprofile/profile.c, as lists of their bytes without the NUL, and what the code
-- uses of the C library: its character class, its conversions and its doubles are a parameter.
use Prim.Native.Char.{code}
use Prim.Native.String.{String}
use oryx.Prelude.{
  leb, ◌==◌, if◌then◌else◌, length, drop, ℕ, ◌-◌, Bool, true, false, ◌&&◌, Option, none, some, List,
  [], ◌∷◌, ◌++◌,
}
use oryx.Wire.{same_bytes}

-- The bytes of an ASCII text.
abbrev pub codes : String → List ℕ
codes String.[] = []
codes (String.◌∷◌ c s) = code c ∷ codes s

-- The functions and types of the C library and of the compiler that profile.c uses. A text is the
-- bytes of a string; `show_fixed n` is the conversion %.nf, `literal m n` the constant m / 10^n.
pub record Libc : Type 1 where
  pub isspace : ℕ → Bool
  pub atoi : List ℕ → ℕ
  pub strtoul : List ℕ → ℕ
  pub show_int : ℕ → List ℕ
  pub show_unsigned : ℕ → List ℕ
  pub Double : Type 0
  pub atof : List ℕ → Double
  pub show_fixed : ℕ → Double → List ℕ
  pub literal : ℕ → ℕ → Double
  pub of_unsigned : ℕ → Double
  pub add : Double → Double → Double
  pub sub : Double → Double → Double
  pub mul : Double → Double → Double
  pub div : Double → Double → Double
  pub neg : Double → Double
  pub greater : Double → Double → Bool
  pub equal : Double → Double → Bool

-- `*s == '\0'`
unfoldable pub is_blank : List ℕ → Bool
is_blank [] = true
is_blank (_ ∷ _) = false

-- The string that starts at an array: its bytes up to the first NUL.
unfoldable pub c_string : List ℕ → List ℕ
c_string [] = []
c_string (c ∷ s) = let rest = c ∷ c_string s in if c == 0 then [] else rest

-- `while (*s && isspace((unsigned char)*s)) s++;`
unfoldable pub trim_start : (ℕ → Bool) → List ℕ → List ℕ
trim_start isspace [] = []
trim_start isspace (c ∷ s) = if isspace c then trim_start isspace s else c ∷ s

-- The trailing spaces are cut.
unfoldable pub trim_end : (ℕ → Bool) → List ℕ → List ℕ
trim_end isspace [] = []
trim_end isspace (c ∷ s) =
    let rest = trim_end isspace s in if isspace c && is_blank rest then [] else c ∷ rest

-- A string of spaces only is empty; in another the first byte left is no space.
unfoldable pub trim : (ℕ → Bool) → List ℕ → List ℕ
trim isspace s = trim_end isspace (trim_start isspace s)

-- `strchr(t, c)`: what stands in front of the first `c`, and what behind it.
unfoldable pub split_at : ℕ → List ℕ → Option (List ℕ × List ℕ)
split_at c [] = none
split_at c (x ∷ s) =
    let rest : Option (List ℕ × List ℕ) = elim (split_at c s) [
      | none ↦ none
      | some (a, b) ↦ some (x ∷ a, b)
    ] in
    if x == c then some ([], s) else rest

-- The pieces between newlines. `strtok_r` drops the empty ones, which the loop would skip.
unfoldable pub lines_from : List ℕ → List ℕ → List (List ℕ)
lines_from line [] = line ∷ []
lines_from line (c ∷ s) =
    let next_line = line ∷ lines_from [] s in
    let same_line = lines_from (line ++ c ∷ []) s in if c == b'\n' then next_line else same_line

unfoldable pub ends_with : List ℕ → List ℕ → Bool
ends_with s suffix =
    leb (length suffix) (length s) && same_bytes (drop (length s - length suffix) s) suffix
