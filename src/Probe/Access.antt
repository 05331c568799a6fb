-- ===== src/Probe/Access.antt =====
-- The candidate that a number names in oryx_probe.c, and what a poke may do to the registers.
use oryx.Prelude.{
  ◌==◌, if◌then◌else◌, ==_iff, ==_refl, ==_ne, Bool-cases, ℕ, zero, suc, ◌+◌, ◌<◌, ◌≡◌, refl, ap,
  ◌≢◌, ◌⊎◌, inl, inr, true, some, List, arith,
}
use oryx.Probe.Registers.{
  Sysreg, Kernel, ProbeState, is_same, write_sysreg, read_candidate, write_candidate, actlr_el1,
  aidr_el1, impdef,
}
use oryx.Probe.Commands.{is_writable}
use oryx.Probe.Bits.{bit_at}

-- The number of a candidate in the commands.
abbrev pub number : Sysreg → ℕ
number actlr_el1 = 0
number aidr_el1 = 1
number (impdef n) = n + 2

-- The registers behind a poke that the text `kbuf` asks for.
pub record Poked (k : Kernel) (kbuf : List ℕ) (regs regs' : ℕ → Sysreg → ℕ) : Type 0 where
  pub reg : Sysreg
  pub idx : ℕ
  pub bit : ℕ
  pub cpu : ℕ
  pub val : ℕ
  pub value : ℕ
  pub asked : k.scan_poke kbuf ≡ some (idx, bit, cpu, val)
  pub named : idx ≡ number reg
  pub writable : reg ≢ aidr_el1
  pub below : bit < 64
  pub online : k.cpu_online cpu ≡ true
  pub in_range : cpu < k.nr_cpu_ids
  pub one_bit :
      (j : ℕ)
      → j < 64
      → bit_at j value ≡ (if j == bit then (if val == 0 then 0 else 1) else bit_at j (regs cpu reg))
  pub stored : regs' cpu reg ≡ k.latch reg (regs cpu reg) value
  pub others : (c : ℕ) (s : Sysreg) → (c ≢ cpu) ⊎ (s ≢ reg) → regs' c s ≡ regs c s

is_same-eq : (s r : Sysreg) → is_same s r ≡ true → s ≡ r
is_same-eq actlr_el1 actlr_el1 h = refl
is_same-eq aidr_el1 aidr_el1 h = refl
is_same-eq (impdef n) (impdef i) h = ap impdef ((==_iff n i).0 h)
is_same-eq actlr_el1 aidr_el1 h = cc
is_same-eq actlr_el1 (impdef i) h = cc
is_same-eq aidr_el1 actlr_el1 h = cc
is_same-eq aidr_el1 (impdef i) h = cc
is_same-eq (impdef n) actlr_el1 h = cc
is_same-eq (impdef n) aidr_el1 h = cc

is_same_refl : (r : Sysreg) → is_same r r ≡ true
is_same_refl actlr_el1 = refl
is_same_refl aidr_el1 = refl
is_same_refl (impdef n) = ==_refl n

module _ (k : Kernel) (cpu : ℕ) (r : Sysreg) (v : ℕ) (m : ProbeState) where
  pub write_sysreg-there : (write_sysreg k cpu r v m).regs cpu r ≡ k.latch r (m.regs cpu r) v
  write_sysreg-there = rw (==_refl cpu, is_same_refl r) refl

  pub write_sysreg-elsewhere :
      (c : ℕ) (s : Sysreg) → (c ≢ cpu) ⊎ (s ≢ r) → (write_sysreg k cpu r v m).regs c s ≡ m.regs c s
  write_sysreg-elsewhere c s (inl other) = rw (==_ne c cpu other) refl
  write_sysreg-elsewhere c s (inr other) = elim (Bool-cases (is_same s r)) [
    | inl same ↦ absurd (other (is_same-eq s r same))
    | inr differs ↦ elim (Bool-cases (c == cpu)) [
      | inl here ↦ rw (here, differs) refl
      | inr there ↦ rw there refl
    ]
  ]

-- The register that a number stands for.
pub record Access (k : Kernel) (idx : ℕ) : Type 0 where
  pub reg : Sysreg
  pub named : idx ≡ number reg
  pub writable : reg ≢ aidr_el1
  pub reads : (regs : Sysreg → ℕ) → read_candidate regs idx ≡ regs reg
  pub writes :
      (cpu v : ℕ) (m : ProbeState) → write_candidate k cpu idx v m ≡ write_sysreg k cpu reg v m

impdef_access :
    (k : Kernel) (n : ℕ)
    → ((regs : Sysreg → ℕ) → read_candidate regs (n + 2) ≡ regs (impdef n))
    → ((cpu v : ℕ) (m : ProbeState)
        → write_candidate k cpu (n + 2) v m ≡ write_sysreg k cpu (impdef n) v m)
    → Access k (n + 2)
impdef_access k n reads writes = record {
  reg = impdef n;
  named = refl;
  writable = λ e. cc;
  reads = reads;
  writes = writes;
}

pub access : (k : Kernel) (idx : ℕ) → idx < 6 → is_writable idx ≡ true → Access k idx
unfolding read_candidate write_candidate
access k zero h w = record {
  reg = actlr_el1;
  named = refl;
  writable = λ e. cc;
  reads = λ regs. refl;
  writes = λ cpu v m. refl;
}
access k (suc zero) h w = cc
access k (suc (suc zero)) h w = impdef_access k 0 (λ regs. refl) (λ cpu v m. refl)
access k (suc (suc (suc zero))) h w = impdef_access k 1 (λ regs. refl) (λ cpu v m. refl)
access k (suc (suc (suc (suc zero)))) h w = impdef_access k 2 (λ regs. refl) (λ cpu v m. refl)
access k (suc (suc (suc (suc (suc zero))))) h w = impdef_access k 3 (λ regs. refl) (λ cpu v m. refl)
access k (suc (suc (suc (suc (suc (suc idx)))))) h w = absurd (omega arith)
