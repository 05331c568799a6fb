-- ===== src/Probe/Registers.antt =====
-- The candidate registers of oryx_probe.c, and what a core does to them.
use oryx.Prelude.{◌==◌, if◌then◌else◌, ℕ, Bool, true, false, ◌&&◌, Option, List, [], ◌∷◌}
use oryx.Profiles.Text.{codes}

-- `impdef n` is `sys_reg(3, 0, 15, n, 0)`.
pub data Sysreg : Type 0 where
  actlr_el1 aidr_el1 : Sysreg
  impdef : ℕ → Sysreg

pub record Candidate : Type 0 where
  pub name : List ℕ
  pub writable : Bool

abbrev pub candidate_count : ℕ
candidate_count = 6

abbrev pub candidates : List Candidate
candidates =
    (record { name = codes "ACTLR_EL1"; writable = true })
    ∷ (record { name = codes "AIDR_EL1"; writable = false })
    ∷ (record { name = codes "S3_0_C15_C0_0"; writable = true })
    ∷ (record { name = codes "S3_0_C15_C1_0"; writable = true })
    ∷ (record { name = codes "S3_0_C15_C2_0"; writable = true })
    ∷ (record { name = codes "S3_0_C15_C3_0"; writable = true })
    ∷ []

-- What the module uses of the kernel and of the hardware: the cores, what `smp_call_function_single`
-- returns for a core (it runs the function exactly if that is 0), the conversions %d, %016llx and %-16s,
-- the two calls of `sscanf`, and what a register holds once a value is written over another.
pub record Kernel : Type 0 where
  pub nr_cpu_ids : ℕ
  pub cpu_online : ℕ → Bool
  pub call_error : ℕ → ℕ
  pub show_int : ℕ → List ℕ
  pub show_hex16 : ℕ → List ℕ
  pub pad16 : List ℕ → List ℕ
  pub scan_dump : List ℕ → Option ℕ
  pub scan_poke : List ℕ → Option (ℕ × ℕ × ℕ × ℕ)
  pub latch : Sysreg → ℕ → ℕ → ℕ

-- The registers of each core, and the log.
pub record ProbeState : Type 0 where
  pub regs : ℕ → Sysreg → ℕ
  pub log : List ℕ

abbrev pub is_same : Sysreg → Sysreg → Bool
is_same actlr_el1 actlr_el1 = true
is_same aidr_el1 aidr_el1 = true
is_same (impdef n) (impdef i) = n == i
is_same _ _ = false

-- `write_sysreg` on the core `cpu`
abbrev pub write_sysreg : Kernel → ℕ → Sysreg → ℕ → ProbeState → ProbeState
write_sysreg k cpu r v m = record m {
  regs = λ c s. if c == cpu && is_same s r then k.latch r (m.regs cpu r) v else m.regs c s;
}

unfoldable pub read_candidate : (Sysreg → ℕ) → ℕ → ℕ
read_candidate regs idx =
    if idx == 0
    then regs actlr_el1
    else (if idx == 1
        then regs aidr_el1
        else (if idx == 2
            then regs (impdef 0)
            else (if idx == 3
                then regs (impdef 1)
                else (if idx == 4
                    then regs (impdef 2)
                    else (if idx == 5 then regs (impdef 3) else 0)))))

unfoldable pub write_candidate : Kernel → ℕ → ℕ → ℕ → ProbeState → ProbeState
write_candidate k cpu idx v m =
    if idx == 0
    then write_sysreg k cpu actlr_el1 v m
    else (if idx == 2
        then write_sysreg k cpu (impdef 0) v m
        else (if idx == 3
            then write_sysreg k cpu (impdef 1) v m
            else (if idx == 4
                then write_sysreg k cpu (impdef 2) v m
                else (if idx == 5 then write_sysreg k cpu (impdef 3) v m else m))))
