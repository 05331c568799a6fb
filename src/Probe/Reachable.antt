-- ===== src/Probe/Reachable.antt =====
-- The states of oryx_probe.c between its load and any number of writes to its control file.
use oryx.Prelude.{
  ltb, leb, ◌==◌, if◌then◌else◌, Bool-cases, Option-cases, length, ℕ, ◌+◌, ◌<◌, ◌≡◌, refl, sym, ap,
  ◌∙◌, inl, inr, Bool, true, false, ◌||◌, List, [], ◌∷◌, arith,
}
use oryx.Profiles.Text.{codes, c_string}
use oryx.Probe.Log.{logsz, length-logf}
use oryx.Probe.Registers.{
  Sysreg, Candidate, candidate_count, candidates, Kernel, ProbeState, write_candidate, aidr_el1,
}
use oryx.Probe.Commands.{
  einval, is_negative, logged, dump_from, do_dump, do_poke, list_from, cmd_list, no_cpu, cmd_dump,
  is_writable, cmd_poke, starts_with, run_command, finish_write, control_write, probe_init,
}
use oryx.Probe.Control.{control_write-Poked}

pub data Reachable (k : Kernel) (start : ProbeState) : ProbeState → Type 0 where
  loaded : Reachable k start (probe_init k 0 start).0
  wrote :
      {m : ProbeState} (copied : Bool) (bytes : List ℕ)
      → Reachable k start m
      → Reachable k start (control_write k copied bytes m).0

abbrev Fits : ProbeState → Type 0
Fits m = length m.log < logsz

dump_from-Fits :
    (k : Kernel) (cpu i : ℕ) (cs : List Candidate) (m : ProbeState)
    → Fits m
    → Fits (dump_from k cpu i cs m)
unfolding dump_from
dump_from-Fits k cpu i [] m h = h
dump_from-Fits k cpu i (c ∷ cs) m h =
    dump_from-Fits k cpu (i + 1) cs (logged _ m) (length-logf _ m.log h)

list_from-Fits :
    (k : Kernel) (i : ℕ) (cs : List Candidate) (m : ProbeState) → Fits m → Fits (list_from k i cs m)
unfolding list_from
list_from-Fits k i [] m h = h
list_from-Fits k i (c ∷ cs) m h = list_from-Fits k (i + 1) cs (logged _ m) (length-logf _ m.log h)

if-Fits : (b : Bool) (m m' : ProbeState) → Fits m → Fits m' → Fits (if b then m else m')
if-Fits true m m' h h' = h
if-Fits false m m' h h' = h'

write_candidate-Fits :
    (k : Kernel) (cpu idx v : ℕ) (m : ProbeState) → Fits m → Fits (write_candidate k cpu idx v m)
unfolding write_candidate
write_candidate-Fits k cpu idx v m h = if-Fits (idx == 0) _ _ h (
    if-Fits (idx == 2) _ _ h
      (if-Fits (idx == 3) _ _ h (if-Fits (idx == 4) _ _ h (if-Fits (idx == 5) _ _ h h))))

-- The same of a machine with a code.
if-Fits_ret :
    (b : Bool) (r r' : ProbeState × ℕ) → Fits r.0 → Fits r'.0 → Fits (if b then r else r').0
if-Fits_ret true r r' h h' = h
if-Fits_ret false r r' h h' = h'

module _ (k : Kernel) (m : ProbeState) (fits : Fits m) where
  cmd_poke-Fits : (idx bit cpu val : ℕ) → Fits (cmd_poke k idx bit cpu val m).0
  unfolding cmd_poke do_poke
  cmd_poke-Fits idx bit cpu val = elim (Bool-cases (is_negative idx || leb candidate_count idx)) [
    | inl h ↦ rw h fits
    | inr in_table ↦ elim (Bool-cases (is_writable idx)) [
      | inr h ↦ rw (in_table, h) fits
      | inl writable ↦ elim (Bool-cases (is_negative bit || ltb 63 bit)) [
        | inl h ↦ rw (in_table, writable, h) fits
        | inr below ↦ elim (Bool-cases (no_cpu k cpu)) [
          | inl h ↦ rw (in_table, writable, below, h) fits
          | inr on_cpu ↦ elim (Bool-cases (k.call_error cpu == 0)) [
            | inr h ↦ rw (in_table, writable, below, on_cpu, h) fits
            | inl called ↦
                rw (in_table, writable, below, on_cpu, called)
                  (length-logf _ _ (write_candidate-Fits k cpu idx _ m fits))
          ]
        ]
      ]
    ]
  ]

  cmd_dump-Fits : (cpu : ℕ) → Fits (cmd_dump k cpu m).0
  unfolding cmd_dump do_dump
  cmd_dump-Fits cpu = elim (Bool-cases (no_cpu k cpu)) [
    | inl h ↦ rw h fits
    | inr on_cpu ↦ elim (Bool-cases (k.call_error cpu == 0)) [
      | inl called ↦
          rw (on_cpu, called) (dump_from-Fits k cpu 0 candidates _ (length-logf _ m.log fits))
      | inr h ↦ rw (on_cpu, h) (length-logf _ m.log fits)
    ]
  ]

  run_command-Fits : (kbuf : List ℕ) → Fits (run_command k kbuf m).0
  unfolding run_command cmd_list
  run_command-Fits kbuf = elim (Bool-cases (starts_with (codes "list") kbuf)) [
    | inl h ↦ rw h (list_from-Fits k 0 candidates _ (length-logf _ m.log fits))
    | inr no_list ↦ elim (Option-cases (k.scan_dump kbuf)) [
      | inr (cpu, dump) ↦ rw (no_list, dump) (cmd_dump-Fits cpu)
      | inl no_dump ↦ elim (Option-cases (k.scan_poke kbuf)) [
        | inr ((idx, bit, cpu, val), poke) ↦
            rw (no_list, no_dump, poke) (cmd_poke-Fits idx bit cpu val)
        | inl no_poke ↦
            rw (no_list, no_dump, no_poke)
              (if-Fits_ret _ (record m { log = [] }, 0) (m, einval) (omega arith) fits)
      ]
    ]
  ]

finish_write-Fits :
    (k : Kernel) (len : ℕ) (r : ProbeState × ℕ) → Fits r.0 → Fits (finish_write k len r).0
unfolding finish_write
finish_write-Fits k len (m, ret) fits = elim (Bool-cases (ret == 0)) [
  | inl h ↦ rw h fits
  | inr h ↦ rw h (length-logf _ m.log fits)
]

control_write-Fits :
    (k : Kernel) (copied : Bool) (bytes : List ℕ) (m : ProbeState)
    → Fits m
    → Fits (control_write k copied bytes m).0
unfolding control_write
control_write-Fits k copied bytes m fits = elim (Bool-cases (leb 64 (length bytes))) [
  | inl h ↦ rw h fits
  | inr h ↦ elim (Bool-cases copied) [
    | inr c ↦ rw (h, c) fits
    | inl c ↦
        rw (h, c)
          (finish_write-Fits k (length bytes) _ (run_command-Fits k m fits (c_string bytes)))
  ]
]

-- A write leaves the read-only candidate of each core as it is.
control_write-aidr_el1 :
    (k : Kernel) (copied : Bool) (bytes : List ℕ) (m : ProbeState) (cpu : ℕ)
    → (control_write k copied bytes m).0.regs cpu aidr_el1 ≡ m.regs cpu aidr_el1
control_write-aidr_el1 k copied bytes m cpu = elim (control_write-Poked k copied bytes m) [
  | inl (p, ok) ↦ p.others cpu aidr_el1 (inr (λ e. p.writable (sym e)))
  | inr (same, h) ↦ ap (λ (regs : ℕ → Sysreg → ℕ). regs cpu aidr_el1) same
]

-- After the load and any number of writes to the control file, the text of the log and its NUL fit the buffer, and the
-- read-only candidate of each core is as it was before the load.
pub Reachable-logsz :
    (k : Kernel) (start m : ProbeState)
    → Reachable k start m
    → (length m.log < logsz) × ((cpu : ℕ) → m.regs cpu aidr_el1 ≡ start.regs cpu aidr_el1)
unfolding probe_init
Reachable-logsz k start m loaded = (length-logf _ [] (omega arith), λ cpu. refl)
Reachable-logsz k start m (wrote {m = before} copied bytes r) =
    let IH = Reachable-logsz k start before r in
    (
      control_write-Fits k copied bytes before IH.0,
      λ cpu. control_write-aidr_el1 k copied bytes before cpu ∙ IH.1 cpu,
    )
