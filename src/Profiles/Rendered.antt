-- ===== src/Profiles/Rendered.antt =====
-- What `oryx_profile_apply_env` of src/liboryxprofile/profile.c writes, and when it fits the buffer.
use oryx.Prelude.{
  ltb, if◌then◌else◌, ltb→lt, lt→ltb, le→leb, le→ltb_false, ltb_false→le, Bool-cases, length,
  length-append, ℕ, zero, suc, ◌<◌, ◌≡◌, refl, ◌∙◌, inl, inr, List, [], ◌++◌, append_assoc,
  append-nil, arith,
}
use oryx.Errors.{io, err, ok}
use oryx.Profiles.Text.{codes, is_blank}
use oryx.Profiles.Format.{Backend, MemModel, Profile, backend_name, box64, fex, sw_fences, hw_tso}
use oryx.Profiles.Env.{
  Render, ◌>=>◌, put_line, newline, quoted, plain, put_set, put_ordering, apply_env,
}

-- A line, unless its value is empty.
abbrev pub if_set : List ℕ → List ℕ → List ℕ
if_set value text = if is_blank value then [] else text

-- The exports that choose the ordering.
abbrev pub ordering_text : Backend → MemModel → List ℕ
ordering_text fex hw_tso = codes "export ORYX_MM_TSO=1\nexport FEX_TSOENABLED=0\n"
ordering_text box64 hw_tso = codes "export ORYX_MM_TSO=1\n"
ordering_text box64 sw_fences = codes "export ORYX_MM_TSO=0\nexport BOX64_DYNAREC_STRONGMEM=1\n"
ordering_text fex sw_fences = codes "export ORYX_MM_TSO=0\nexport FEX_TSOENABLED=1\n"

module _ {D : Type 0} (p : Profile D) where
  -- The whole text.
  unfoldable pub env_text : List ℕ
  env_text =
      plain (codes "export ORYX_BACKEND=") (backend_name p.backend)
      ++ (ordering_text p.backend p.memmodel
          ++ (if_set p.turnip_build (plain (codes "export ORYX_TURNIP_BUILD=") p.turnip_build)
              ++ (if_set p.dxvk_opts (quoted (codes "export DXVK_CONFIG=") p.dxvk_opts)
                  ++ (if_set p.vkd3d_opts (quoted (codes "export VKD3D_CONFIG=") p.vkd3d_opts)
                      ++ (if_set p.resolution (plain (codes "export ORYX_RES=") p.resolution)
                          ++ (if_set p.fsr_mode (plain (codes "export ORYX_FSR=") p.fsr_mode)
                              ++ if_set p.device_spoof
                                  (quoted (codes "export ORYX_GPU_SPOOF=") p.device_spoof)))))))

-- A step that appends `text`, and fails exactly if it and a NUL do not fit.
record Appends (size : ℕ) (text : List ℕ) (f : Render) : Type 0 where
  run :
      (buf : List ℕ)
      → length buf < size
      → f buf ≡ (if ltb (length (buf ++ text)) size then ok (buf ++ text) else err io)

module _ (size : ℕ) where
  Appends-put_line : (text : List ℕ) → Appends size text (put_line size text)
  unfolding put_line
  Appends-put_line text = record { run = λ buf room. ground (arith, length-append buf text) }

  Appends-then :
      (s t : List ℕ) (f g : Render)
      → Appends size s f
      → Appends size t g
      → Appends size (s ++ t) (f >=> g)
  Appends-then s t f g p q = record {
    run = λ buf room. elim (Bool-cases (ltb (length (buf ++ s)) size)) [
      | inl fits ↦
          rw (p.run buf room, fits)
            (q.run (buf ++ s) (ltb→lt _ _ fits) ∙ rw (append_assoc buf s t) refl)
      | inr full ↦
          rw (p.run buf room, full)
            (rw
              (le→ltb_false (length (buf ++ (s ++ t))) size (
                omega (
                  arith,
                  length-append buf (s ++ t),
                  length-append s t,
                  length-append buf s,
                  ltb_false→le _ _ full,
                )))
              refl)
    ];
  }

  Appends-put_set :
      (value text : List ℕ) → Appends size (if_set value text) (put_set size value text)
  unfolding put_set
  Appends-put_set value text = elim (Bool-cases (is_blank value)) [
    | inl blank ↦ record { run = λ buf room. rw (blank, append-nil, lt→ltb _ _ room) refl }
    | inr set_value ↦ record {
      run = λ buf room. rw set_value ((Appends-put_line text).run buf room);
    }
  ]

  Appends-put_ordering :
      (b : Backend) (m : MemModel) → Appends size (ordering_text b m) (put_ordering size b m)
  unfolding put_ordering
  Appends-put_ordering fex hw_tso =
      Appends-then _ _ _ _ (Appends-put_line (codes "export ORYX_MM_TSO=1" ++ newline))
        (Appends-put_line (codes "export FEX_TSOENABLED=0" ++ newline))
  Appends-put_ordering box64 hw_tso = Appends-put_line (codes "export ORYX_MM_TSO=1" ++ newline)
  Appends-put_ordering box64 sw_fences =
      Appends-then _ _ _ _ (Appends-put_line (codes "export ORYX_MM_TSO=0" ++ newline))
        (Appends-put_line (codes "export BOX64_DYNAREC_STRONGMEM=1" ++ newline))
  Appends-put_ordering fex sw_fences =
      Appends-then _ _ _ _ (Appends-put_line (codes "export ORYX_MM_TSO=0" ++ newline))
        (Appends-put_line (codes "export FEX_TSOENABLED=1" ++ newline))

-- A buffer of no bytes holds no NUL.
no_room :
    (text whole : List ℕ) (g : Render)
    → ((put_line 0 text >=> g) []) ≡ (if ltb (length whole) 0 then ok whole else err io)
unfolding put_line
no_room text whole g =
    rw (le→leb 0 (length text) (omega arith), le→ltb_false (length whole) 0 (omega arith)) refl

-- The settings of a profile are written whole, with their order and their guards, if they and a NUL
-- fit the buffer, and the code fails if they do not.
pub apply_env-env_text :
    {D : Type 0} (p : Profile D) (size : ℕ)
    → apply_env p size ≡ (if ltb (length (env_text p)) size then ok (env_text p) else err io)
unfolding apply_env env_text
apply_env-env_text p zero =
    no_room (plain (codes "export ORYX_BACKEND=") (backend_name p.backend)) (env_text p) _
apply_env-env_text p (suc n) =
    (Appends-then (suc n) _ _ _ _ (Appends-put_line (suc n) _) (
        Appends-then (suc n) _ _ _ _ (Appends-put_ordering (suc n) p.backend p.memmodel) (
          Appends-then (suc n) _ _ _ _ (Appends-put_set (suc n) p.turnip_build _) (
            Appends-then (suc n) _ _ _ _ (Appends-put_set (suc n) p.dxvk_opts _) (
              Appends-then (suc n) _ _ _ _ (Appends-put_set (suc n) p.vkd3d_opts _) (
                Appends-then (suc n) _ _ _ _ (Appends-put_set (suc n) p.resolution _) (
                  Appends-then (suc n) _ _ _ _ (Appends-put_set (suc n) p.fsr_mode _)
                    (Appends-put_set (suc n) p.device_spoof _)))))))).run
      [] (omega arith)
