-- ===== src/Probe/Control.antt =====
-- A write to the control file of oryx_probe.c.
use oryx.Prelude.{leb, ◌==◌, ==_iff, Bool-cases, length, ℕ, ◌≡◌, refl, ◌⊎◌, inl, inr, Bool, List}
use oryx.Profiles.Text.{c_string}
use oryx.Probe.Registers.{Kernel, ProbeState}
use oryx.Probe.Commands.{efault, einval, WriteReply, finish_write, control_write, accepted, failed}
use oryx.Probe.Access.{Poked}
use oryx.Probe.Poked.{IsPoke, Outcome, run_command-Outcome, quiet, pokes}

-- A poke that was done, or registers as before and, if a poke was asked for, an error.
abbrev pub Effect : Kernel → List ℕ → ProbeState → ProbeState × WriteReply → Type 0
Effect k bytes m (m', reply) =
    (Poked k (c_string bytes) m.regs m'.regs × (reply ≡ accepted (length bytes)))
    ⊎ ((m'.regs ≡ m.regs) × (IsPoke k (c_string bytes) → (e : ℕ) × (reply ≡ failed e)))

finish_write-Effect :
    (k : Kernel) (bytes : List ℕ) (m : ProbeState) (r : ProbeState × ℕ)
    → Outcome k (c_string bytes) m r
    → Effect k bytes m (finish_write k (length bytes) r)
unfolding finish_write
finish_write-Effect k bytes m (m', ret) (quiet same fails) = elim (Bool-cases (ret == 0)) [
  | inl h ↦ rw h (inr (same, λ p. absurd (fails p ((==_iff ret 0).0 h))))
  | inr h ↦ rw h (inr (same, λ p. (ret, refl)))
]
finish_write-Effect k bytes m (m', ret) (pokes p zero_ret) = rw zero_ret (inl (p, refl))

-- A write to the control file either pokes, as its text asks, a writable candidate of one online core, with the value read
-- there but for the chosen bit, changes no other register and is accepted; or it changes no register and, if its text is a
-- poke, fails.
pub control_write-Poked :
    (k : Kernel) (copied : Bool) (bytes : List ℕ) (m : ProbeState)
    → Effect k bytes m (control_write k copied bytes m)
unfolding control_write
control_write-Poked k copied bytes m = elim (Bool-cases (leb 64 (length bytes))) [
  | inl h ↦ rw h (inr (refl, λ p. (einval, refl)))
  | inr h ↦ elim (Bool-cases copied) [
    | inr c ↦ rw (h, c) (inr (refl, λ p. (efault, refl)))
    | inl c ↦ rw (h, c) (finish_write-Effect k bytes m _ (run_command-Outcome k (c_string bytes) m))
  ]
]
