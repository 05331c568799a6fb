-- ===== src/Probe/Poked.antt =====
-- What the commands of oryx_probe.c do to the registers.
use oryx.Prelude.{
  ltb, leb, ◌==◌, if◌then◌else◌, or-eq-false, not-eq-false, Bool-cases, Option-cases, ℕ, ◌+◌, ◌<◌,
  ◌≡◌, refl, ◌∙◌, ◌≢◌, inl, inr, Bool, true, false, ◌||◌, not, none, some, List, [], ◌∷◌, arith,
}
use oryx.Profiles.Text.{codes}
use oryx.Probe.Registers.{Candidate, candidate_count, candidates, Kernel, ProbeState}
use oryx.Probe.Commands.{
  is_negative, logged, dump_from, do_dump, poked, do_poke, list_from, cmd_list, no_cpu, cmd_dump,
  is_writable, cmd_poke, starts_with, run_command,
}
use oryx.Probe.Bits.{bit_at-poked}
use oryx.Probe.Access.{Poked, write_sysreg-there, write_sysreg-elsewhere, Access, access}

on_bit :
    (val : ℕ) (here : Bool) (old : ℕ)
    → (if here then (if not (val == 0) then 1 else 0) else old)
      ≡ (if here then (if val == 0 then 0 else 1) else old)
on_bit val here old = ground arith

-- The text is a poke: no earlier command of the chain takes it.
abbrev pub IsPoke : Kernel → List ℕ → Type 0
IsPoke k kbuf =
    (starts_with (codes "list") kbuf ≡ false)
    × (k.scan_dump kbuf ≡ none)
    × ((request : ℕ × ℕ × ℕ × ℕ) × (k.scan_poke kbuf ≡ some request))

-- Either nothing happens to the registers or a poke does, and then the command returns 0.
pub data Outcome (k : Kernel) (kbuf : List ℕ) (m : ProbeState) (r : ProbeState × ℕ) : Type 0 where
  quiet : r.0.regs ≡ m.regs → (IsPoke k kbuf → r.1 ≢ 0) → Outcome k kbuf m r
  pokes : Poked k kbuf m.regs r.0.regs → r.1 ≡ 0 → Outcome k kbuf m r

in_table-lt : (idx : ℕ) → (is_negative idx || leb candidate_count idx) ≡ false → idx < 6
in_table-lt idx h = ground (arith, or-eq-false (is_negative idx) (leb candidate_count idx) h)

bit-lt : (bit : ℕ) → (is_negative bit || ltb 63 bit) ≡ false → bit < 64
bit-lt bit h = ground (arith, or-eq-false (is_negative bit) (ltb 63 bit) h)

no_cpu-eq-false :
    (k : Kernel) (cpu : ℕ) → no_cpu k cpu ≡ false → (k.cpu_online cpu ≡ true) × (cpu < k.nr_cpu_ids)
no_cpu-eq-false k cpu h =
    let parts = (or-eq-false (is_negative cpu) _ h).1 in
    let split = or-eq-false (leb k.nr_cpu_ids cpu) (not (k.cpu_online cpu)) parts in
    (not-eq-false _ split.1, ground (arith, split.0))

module _ (k : Kernel) (kbuf : List ℕ) (m : ProbeState) where
  do_poke-Poked :
      (idx bit cpu val : ℕ)
      → k.scan_poke kbuf ≡ some (idx, bit, cpu, val)
      → Access k idx
      → bit < 64
      → k.cpu_online cpu ≡ true
      → cpu < k.nr_cpu_ids
      → Poked k kbuf m.regs (do_poke k cpu idx bit val m).0.regs
  unfolding do_poke
  do_poke-Poked idx bit cpu val asked at below online in_range =
      let value = poked bit (not (val == 0)) (m.regs cpu at.reg) in
      rw (at.reads (m.regs cpu), at.writes cpu value m)
        (record {
          reg = at.reg;
          idx = idx;
          bit = bit;
          cpu = cpu;
          val = val;
          value = value;
          asked = asked;
          named = at.named;
          writable = at.writable;
          below = below;
          online = online;
          in_range = in_range;
          one_bit = λ j hj.
              bit_at-poked bit (not (val == 0)) (m.regs cpu at.reg) j below hj
              ∙ on_bit val (j == bit) _;
          stored = write_sysreg-there k cpu at.reg value m;
          others = write_sysreg-elsewhere k cpu at.reg value m;
        })

  cmd_poke-Outcome :
      (idx bit cpu val : ℕ)
      → k.scan_poke kbuf ≡ some (idx, bit, cpu, val)
      → Outcome k kbuf m (cmd_poke k idx bit cpu val m)
  unfolding cmd_poke
  cmd_poke-Outcome idx bit cpu val asked =
      elim (Bool-cases (is_negative idx || leb candidate_count idx)) [
        | inl h ↦ rw h (quiet refl (λ p e. cc))
        | inr in_table ↦ elim (Bool-cases (is_writable idx)) [
          | inr h ↦ rw (in_table, h) (quiet refl (λ p e. cc))
          | inl writable ↦ elim (Bool-cases (is_negative bit || ltb 63 bit)) [
            | inl h ↦ rw (in_table, writable, h) (quiet refl (λ p e. cc))
            | inr below ↦ elim (Bool-cases (no_cpu k cpu)) [
              | inl h ↦ rw (in_table, writable, below, h) (quiet refl (λ p e. cc))
              | inr on_cpu ↦ elim (Bool-cases (k.call_error cpu == 0)) [
                | inr h ↦ rw (in_table, writable, below, on_cpu, h) (quiet refl (λ p e. cc))
                | inl called ↦
                    rw (in_table, writable, below, on_cpu, called)
                      (pokes
                        (do_poke-Poked idx bit cpu val asked
                          (access k idx (in_table-lt idx in_table) writable) (bit-lt bit below)
                          (no_cpu-eq-false k cpu on_cpu).0 (no_cpu-eq-false k cpu on_cpu).1)
                        refl)
              ]
            ]
          ]
        ]
      ]

  dump_from-regs :
      (cpu i : ℕ) (cs : List Candidate) (m : ProbeState) → (dump_from k cpu i cs m).regs ≡ m.regs
  unfolding dump_from
  dump_from-regs cpu i [] m = refl
  dump_from-regs cpu i (c ∷ cs) m = dump_from-regs cpu (i + 1) cs (logged _ m)

  list_from-regs :
      (i : ℕ) (cs : List Candidate) (m : ProbeState) → (list_from k i cs m).regs ≡ m.regs
  unfolding list_from
  list_from-regs i [] m = refl
  list_from-regs i (c ∷ cs) m = list_from-regs (i + 1) cs (logged _ m)

  cmd_dump-Outcome : (cpu : ℕ) → k.scan_dump kbuf ≡ some cpu → Outcome k kbuf m (cmd_dump k cpu m)
  unfolding cmd_dump do_dump
  cmd_dump-Outcome cpu asked = elim (Bool-cases (no_cpu k cpu)) [
    | inl h ↦ rw h (quiet refl (λ p e. cc))
    | inr on_cpu ↦ elim (Bool-cases (k.call_error cpu == 0)) [
      | inl called ↦ rw (on_cpu, called) (quiet (dump_from-regs cpu 0 candidates _) (λ p e. cc))
      | inr h ↦ rw (on_cpu, h) (quiet refl (λ p e. cc))
    ]
  ]

  pub run_command-Outcome : Outcome k kbuf m (run_command k kbuf m)
  unfolding run_command cmd_list
  run_command-Outcome = elim (Bool-cases (starts_with (codes "list") kbuf)) [
    | inl h ↦ rw h (quiet (list_from-regs 0 candidates _) (λ p e. cc))
    | inr no_list ↦ elim (Option-cases (k.scan_dump kbuf)) [
      | inr (cpu, dump) ↦ rw (no_list, dump) (cmd_dump-Outcome cpu dump)
      | inl no_dump ↦ elim (Option-cases (k.scan_poke kbuf)) [
        | inr ((idx, bit, cpu, val), poke) ↦
            rw (no_list, no_dump, poke) (cmd_poke-Outcome idx bit cpu val poke)
        | inl no_poke ↦ elim (Bool-cases (starts_with (codes "clearlog") kbuf)) [
          | inl h ↦ rw (no_list, no_dump, no_poke, h) (quiet refl (λ p e. cc))
          | inr h ↦ rw (no_list, no_dump, no_poke, h) (quiet refl (λ p e. cc))
        ]
      ]
    ]
  ]
