-- ===== src/Probe/Examples.antt =====
-- A poke of ACTLR_EL1 on a machine with four cores, whose kernel reads commands with numbers of one digit.
use oryx.Prelude.{
  ◌==◌, if◌then◌else◌, length, get_elem?, ℕ, ◌+◌, ◌-◌, ◌<◌, ◌≡◌, refl, true, not, none, some, List,
  [], ◌∷◌,
}
use oryx.Profiles.Text.{codes, c_string}
use oryx.Probe.Log.{logsz}
use oryx.Probe.Registers.{Kernel, ProbeState, read_candidate, write_candidate, actlr_el1, aidr_el1}
use oryx.Probe.Commands.{
  poked, do_poke, cmd_poke, starts_with, run_command, finish_write, control_write, probe_init,
}
use oryx.Probe.Control.{Effect, control_write-Poked}
use oryx.Probe.Reachable.{Reachable-logsz, loaded, wrote}

abbrev digit : List ℕ → ℕ → ℕ
digit s i = elim (get_elem? s i) [ none ↦ 0 | some c ↦ c - 48 ]

abbrev four_cores : Kernel
four_cores = record {
  nr_cpu_ids = 4;
  cpu_online = λ cpu. not (cpu == 3);
  call_error = λ cpu. 0;
  show_int = λ n. (n + 48) ∷ [];
  show_hex16 = λ n. (n + 48) ∷ [];
  pad16 = λ s. s;
  scan_dump = λ s. if starts_with (codes "dump ") s then some (digit s 5) else none;
  scan_poke = λ s.
      if starts_with (codes "poke ") s
      then some (digit s 5, digit s 7, digit s 9, digit s 11)
      else none;
  latch = λ r old v. v;
}

abbrev at_reset : ProbeState
at_reset = record { regs = λ cpu r. 8; log = [] }

abbrev poke_text : List ℕ
poke_text = codes "poke 0 1 2 1"

abbrev after_poke : ProbeState
after_poke = (control_write four_cores true poke_text at_reset).0

poke_sets_bit : after_poke.regs 2 actlr_el1 ≡ 10
unfolding control_write run_command finish_write cmd_poke do_poke read_candidate write_candidate
    poked starts_with c_string
poke_sets_bit = refl

poke_keeps_others : after_poke.regs 1 actlr_el1 ≡ 8
unfolding control_write run_command finish_write cmd_poke do_poke read_candidate write_candidate
    poked starts_with c_string
poke_keeps_others = refl

control_write-Poked_example :
    Effect four_cores poke_text at_reset (control_write four_cores true poke_text at_reset)
control_write-Poked_example = control_write-Poked four_cores true poke_text at_reset

abbrev just_loaded : ProbeState
just_loaded = (probe_init four_cores 0 at_reset).0

Reachable-logsz_example :
    (length (control_write four_cores true poke_text just_loaded).0.log < logsz)
    × ((cpu : ℕ)
        → (control_write four_cores true poke_text just_loaded).0.regs cpu aidr_el1
          ≡ at_reset.regs cpu aidr_el1)
Reachable-logsz_example =
    Reachable-logsz four_cores at_reset (control_write four_cores true poke_text just_loaded).0
      (wrote true poke_text loaded)
