-- ===== src/Profiles/Format.antt =====
-- The text of a profile: `oryx_profile_init`, `oryx_profile_parse` and `oryx_profile_serialize` of
-- src/liboryxprofile/profile.c.
use oryx.Prelude.{
  leb, ◌==◌, if◌then◌else◌, length, take, ℕ, ◌+◌, ◌-◌, ◌%◌, ◌^◌, Bool, false, ◌||◌, Option, none,
  some, List, [], ◌∷◌, ◌++◌,
}
use oryx.Errors.{Result, io, inval, err, ok}
use oryx.Wire.{same_bytes}
use oryx.Profiles.Text.{codes, Libc, is_blank, c_string, trim, split_at, lines_from}

pub data Backend : Type 0 where
  box64 fex : Backend

pub data MemModel : Type 0 where
  sw_fences hw_tso : MemModel

-- `struct oryx_profile`, over the type of doubles.
pub record Profile (D : Type 0) : Type 0 where
  pub game_build_hash : List ℕ
  pub device_class : List ℕ
  pub requires_hw_tso : ℕ
  pub backend : Backend
  pub memmodel : MemModel
  pub turnip_build : List ℕ
  pub dxvk_opts : List ℕ
  pub vkd3d_opts : List ℕ
  pub resolution : List ℕ
  pub fsr_mode : List ℕ
  pub device_spoof : List ℕ
  pub median_fps : D
  pub p1_low_fps : D
  pub crash_rate : D
  pub sustained_fps : D
  pub sample_count : ℕ

-- `ORYX_STR`
abbrev pub str_size : ℕ
str_size = 96

-- What `set_str` leaves of a string.
unfoldable pub set_str : List ℕ → List ℕ
set_str src = take (str_size - 1) src

unfoldable pub backend_name : Backend → List ℕ
backend_name fex = codes "fex"
backend_name box64 = codes "box64"

unfoldable pub memmodel_name : MemModel → List ℕ
memmodel_name hw_tso = codes "hw_tso"
memmodel_name sw_fences = codes "sw_fences"

-- The keys, in the order of the code.
pub data Key : Type 0 where
  game_build_hash device_class requires_hw_tso backend memmodel turnip_build dxvk_opts : Key
  vkd3d_opts resolution fsr_mode device_spoof median_fps p1_low_fps crash_rate : Key
  sustained_fps sample_count : Key

abbrev pub key_table : List (List ℕ × Key)
key_table =
    (codes "game_build_hash", game_build_hash)
    ∷ (codes "device_class", device_class)
    ∷ (codes "requires_hw_tso", requires_hw_tso)
    ∷ (codes "backend", backend)
    ∷ (codes "memmodel", memmodel)
    ∷ (codes "turnip_build", turnip_build)
    ∷ (codes "dxvk_opts", dxvk_opts)
    ∷ (codes "vkd3d_opts", vkd3d_opts)
    ∷ (codes "resolution", resolution)
    ∷ (codes "fsr_mode", fsr_mode)
    ∷ (codes "device_spoof", device_spoof)
    ∷ (codes "median_fps", median_fps)
    ∷ (codes "p1_low_fps", p1_low_fps)
    ∷ (codes "crash_rate", crash_rate)
    ∷ (codes "sustained_fps", sustained_fps)
    ∷ (codes "sample_count", sample_count)
    ∷ []

-- The chain of `strcmp(k, …)`.
unfoldable pub find_key : List (List ℕ × Key) → List ℕ → Option Key
find_key [] k = none
find_key ((name, key) ∷ keys) k = if same_bytes k name then some key else find_key keys k

unfoldable pub joined : List (List ℕ) → List ℕ
joined [] = []
joined (line ∷ rest) = line ++ joined rest

module _ (c : Libc) where
  unfoldable pub init_profile : Profile c.Double
  unfolding set_str
  init_profile = record {
    game_build_hash = [];
    device_class = [];
    requires_hw_tso = 0;
    backend = box64;
    memmodel = sw_fences;
    turnip_build = [];
    dxvk_opts = [];
    vkd3d_opts = [];
    resolution = [];
    fsr_mode = set_str (codes "off");
    device_spoof = [];
    median_fps = c.literal 0 0;
    p1_low_fps = c.literal 0 0;
    crash_rate = c.literal 0 0;
    sustained_fps = c.literal 0 0;
    sample_count = 0;
  }

  -- The assignment that a key names.
  unfoldable pub assign : Key → List ℕ → Profile c.Double → Profile c.Double
  assign game_build_hash v p = record p { game_build_hash = set_str v }
  assign device_class v p = record p { device_class = set_str v }
  assign requires_hw_tso v p = record p { requires_hw_tso = c.atoi v }
  assign backend v p = record p { backend = if same_bytes v (codes "fex") then fex else box64 }
  assign memmodel v p = record p {
    memmodel = if same_bytes v (codes "hw_tso") then hw_tso else sw_fences;
  }
  assign turnip_build v p = record p { turnip_build = set_str v }
  assign dxvk_opts v p = record p { dxvk_opts = set_str v }
  assign vkd3d_opts v p = record p { vkd3d_opts = set_str v }
  assign resolution v p = record p { resolution = set_str v }
  assign fsr_mode v p = record p { fsr_mode = set_str v }
  assign device_spoof v p = record p { device_spoof = set_str v }
  assign median_fps v p = record p { median_fps = c.atof v }
  assign p1_low_fps v p = record p { p1_low_fps = c.atof v }
  assign crash_rate v p = record p { crash_rate = c.atof v }
  assign sustained_fps v p = record p { sustained_fps = c.atof v }
  assign sample_count v p = record p { sample_count = c.strtoul v % 2 ^ 32 }

  -- An unknown key is ignored.
  unfoldable pub assign_known : Option Key → List ℕ → Profile c.Double → Profile c.Double
  assign_known none v p = p
  assign_known (some key) v p = assign key v p

  unfoldable pub assign_pair : Option (List ℕ × List ℕ) → Profile c.Double → Profile c.Double
  assign_pair none p = p
  assign_pair (some (k, v)) p =
      assign_known (find_key key_table (trim c.isspace k)) (trim c.isspace v) p

  -- `*t == '#'`
  unfoldable pub is_comment : List ℕ → Bool
  is_comment [] = false
  is_comment (x ∷ _) = x == b'#'

  -- One round of the loop over the lines.
  unfoldable pub parse_line : List ℕ → Profile c.Double → Profile c.Double
  parse_line line p =
      let t = trim c.isspace line in
      if is_blank t || is_comment t then p else assign_pair (split_at b'=' t) p

  unfoldable pub parse_lines : List (List ℕ) → Profile c.Double → Profile c.Double
  parse_lines [] p = p
  parse_lines (line ∷ rest) p = parse_lines rest (parse_line line p)

  -- The last test, for the keys that a profile must have.
  unfoldable pub complete : Profile c.Double → Result (Profile c.Double)
  complete p = if is_blank p.game_build_hash || is_blank p.device_class then err inval else ok p

  -- `malloc` says whether the copy can be had.
  unfoldable pub parse_profile : (ℕ → Bool) → List ℕ → Result (Profile c.Double)
  parse_profile malloc text =
      if malloc (length text + 1)
      then complete (parse_lines (lines_from [] (c_string text)) init_profile)
      else err io

  -- One line of the format.
  abbrev pub line_of : List ℕ → List ℕ → List ℕ
  line_of key value = key ++ (codes " = " ++ (value ++ b'\n' ∷ []))

  unfoldable pub profile_lines : Profile c.Double → List (List ℕ)
  profile_lines p =
      line_of (codes "game_build_hash") p.game_build_hash
      ∷ line_of (codes "device_class") p.device_class
      ∷ line_of (codes "requires_hw_tso") (c.show_int p.requires_hw_tso)
      ∷ line_of (codes "backend") (backend_name p.backend)
      ∷ line_of (codes "memmodel") (memmodel_name p.memmodel)
      ∷ line_of (codes "turnip_build") p.turnip_build
      ∷ line_of (codes "dxvk_opts") p.dxvk_opts
      ∷ line_of (codes "vkd3d_opts") p.vkd3d_opts
      ∷ line_of (codes "resolution") p.resolution
      ∷ line_of (codes "fsr_mode") p.fsr_mode
      ∷ line_of (codes "device_spoof") p.device_spoof
      ∷ line_of (codes "median_fps") (c.show_fixed 2 p.median_fps)
      ∷ line_of (codes "p1_low_fps") (c.show_fixed 2 p.p1_low_fps)
      ∷ line_of (codes "crash_rate") (c.show_fixed 4 p.crash_rate)
      ∷ line_of (codes "sustained_fps") (c.show_fixed 2 p.sustained_fps)
      ∷ line_of (codes "sample_count") (c.show_unsigned p.sample_count)
      ∷ []

  -- `snprintf` into a buffer of `size` bytes, and the test for a text that does not fit.
  unfoldable pub serialize_profile : Profile c.Double → ℕ → Result (List ℕ)
  serialize_profile p size =
      let text = joined (profile_lines p) in if leb size (length text) then err io else ok text
