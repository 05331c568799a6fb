-- ===== src/Profiles/Env.antt =====
-- `oryx_profile_apply_env` of src/liboryxprofile/profile.c: the settings of a profile as shell exports.
use oryx.Prelude.{leb, if◌then◌else◌, length, ℕ, ◌-◌, List, [], ◌∷◌, ◌++◌}
use oryx.Errors.{Result, ◌>>=◌, io, err, ok}
use oryx.Profiles.Text.{codes, is_blank}
use oryx.Profiles.Format.{Profile, Backend, box64, fex, MemModel, sw_fences, hw_tso, backend_name}

-- A step that appends to `buf`, of which `off` bytes are used.
abbrev pub Render : Type 0
Render = List ℕ → Result (List ℕ)

infixr 6 ◌>=>◌
abbrev pub ◌>=>◌ : Render → Render → Render
◌>=>◌ f g buf = f buf >>= g

-- EMIT: `snprintf` at `buf + off`, which fails if the text and its NUL do not fit.
unfoldable pub put_line : ℕ → List ℕ → Render
put_line size text buf = if leb (size - length buf) (length text) then err io else ok (buf ++ text)

abbrev pub newline : List ℕ
newline = b'\n' ∷ []

abbrev pub quoted : List ℕ → List ℕ → List ℕ
quoted key value = key ++ (b'"' ∷ (value ++ (b'"' ∷ newline)))

abbrev pub plain : List ℕ → List ℕ → List ℕ
plain key value = key ++ (value ++ newline)

-- `if (value[0]) EMIT(…)`
unfoldable pub put_set : ℕ → List ℕ → List ℕ → Render
put_set size value text buf = if is_blank value then ok buf else put_line size text buf

-- The ordering that the emulator asks for.
unfoldable pub put_ordering : ℕ → Backend → MemModel → Render
put_ordering size fex hw_tso =
    put_line size (codes "export ORYX_MM_TSO=1" ++ newline)
    >=> put_line size (codes "export FEX_TSOENABLED=0" ++ newline)
put_ordering size box64 hw_tso = put_line size (codes "export ORYX_MM_TSO=1" ++ newline)
put_ordering size box64 sw_fences =
    put_line size (codes "export ORYX_MM_TSO=0" ++ newline)
    >=> put_line size (codes "export BOX64_DYNAREC_STRONGMEM=1" ++ newline)
put_ordering size fex sw_fences =
    put_line size (codes "export ORYX_MM_TSO=0" ++ newline)
    >=> put_line size (codes "export FEX_TSOENABLED=1" ++ newline)

unfoldable pub apply_env : {D : Type 0} → Profile D → ℕ → Result (List ℕ)
apply_env p size =
    (put_line size (plain (codes "export ORYX_BACKEND=") (backend_name p.backend))
        >=> put_ordering size p.backend p.memmodel
        >=> put_set size p.turnip_build (plain (codes "export ORYX_TURNIP_BUILD=") p.turnip_build)
        >=> put_set size p.dxvk_opts (quoted (codes "export DXVK_CONFIG=") p.dxvk_opts)
        >=> put_set size p.vkd3d_opts (quoted (codes "export VKD3D_CONFIG=") p.vkd3d_opts)
        >=> put_set size p.resolution (plain (codes "export ORYX_RES=") p.resolution)
        >=> put_set size p.fsr_mode (plain (codes "export ORYX_FSR=") p.fsr_mode)
        >=> put_set size p.device_spoof (quoted (codes "export ORYX_GPU_SPOOF=") p.device_spoof))
      []
