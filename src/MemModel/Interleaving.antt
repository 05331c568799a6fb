-- ===== src/MemModel/Interleaving.antt =====
-- The parts of `oryx_enable` and `oryx_disable` of oryx_memmodel.c as events of their own: a thread may be preempted between
-- them, on each core. The grant of thread `t` is numbered `t`, and its ioctls are made by `t`.
use oryx.Prelude.{ℕ, ◌≡◌, refl, ◌∙◌, inl, inr, Bool, true, false, Option, some}
use oryx.MemModel.Machine.{
  Params, Machine, put, core_eligible, context_switch, register_notifier, raise_flag, set_core,
  zeroed, lower_flag, unregister_notifier, clear_core,
}
use oryx.MemModel.Control.{control}
use oryx.MemModel.Confinement.{own_notifiers, put-same, put-other, same-or-other}

-- How far a thread is with its grant: no open device; opened and off; in `oryx_enable`, with the notifier registered and then
-- with the flag raised; on; in `oryx_disable`, with the flag lowered and then with the notifier gone.
pub data Phase : Type 0 where
  closed off registered raised on lowered dropped : Phase

-- The flag of the grant, and whether its notifier is registered.
abbrev pub flag : Phase → Bool
flag raised = true
flag on = true
flag _ = false

abbrev pub listed : Phase → Bool
listed registered = true
listed raised = true
listed on = true
listed lowered = true
listed _ = false

pub record System : Type 0 where
  pub machine : Machine
  pub phase : ℕ → Phase

-- The thread `t` goes to the phase `q`.
abbrev pub moved : ℕ → Phase → Machine → System → System
moved t q m s = record { machine = m; phase = put s.phase t q }

pub data Event (p : Params) (s : System) : System → Type 0 where
  switch :
      (cpu : ℕ) (next : Option ℕ)
      → ((c t : ℕ) → next ≡ some t → s.machine.running c ≡ some t → c ≡ cpu)
      → Event p s (record s { machine = context_switch p cpu next s.machine })
  opens : (t : ℕ) → s.phase t ≡ closed → Event p s (moved t off (zeroed t s.machine) s)
  registers :
      (cpu t : ℕ)
      → s.machine.running cpu ≡ some t
      → p.confirmed ≡ true
      → s.phase t ≡ off
      → Event p s (moved t registered (register_notifier t t s.machine) s)
  raises :
      (cpu t : ℕ)
      → s.machine.running cpu ≡ some t
      → s.phase t ≡ registered
      → Event p s (moved t raised (raise_flag t s.machine) s)
  sets :
      (cpu t : ℕ)
      → s.machine.running cpu ≡ some t
      → s.phase t ≡ raised
      → Event p s (moved t on (set_core p cpu s.machine) s)
  lowers :
      (cpu t : ℕ)
      → s.machine.running cpu ≡ some t
      → s.phase t ≡ on
      → Event p s (moved t lowered (lower_flag t s.machine) s)
  drops :
      (cpu t : ℕ)
      → s.machine.running cpu ≡ some t
      → s.phase t ≡ lowered
      → Event p s (moved t dropped (unregister_notifier t s.machine) s)
  clears :
      (cpu t : ℕ)
      → s.machine.running cpu ≡ some t
      → s.phase t ≡ dropped
      → Event p s (moved t off (clear_core p cpu s.machine) s)
  closes :
      (cpu t : ℕ)
      → s.machine.running cpu ≡ some t
      → s.phase t ≡ off
      → Event p s (moved t closed s.machine s)

pub data Interleaved (p : Params) (s : System) : System → Type 0 where
  started : Interleaved p s s
  then_event : {a b : System} → Interleaved p s a → Event p a b → Interleaved p s b

-- No thread is on two cores; flags and notifiers are as the phases say; and a thread whose grant is on finds the TSO bit set
-- on every eligible core that it runs on.
pub record IsServed (p : Params) (s : System) : Type 0 where
  pub alone : (c d t : ℕ) → s.machine.running c ≡ some t → s.machine.running d ≡ some t → c ≡ d
  pub flagged : (t : ℕ) → s.machine.enabled t ≡ flag (s.phase t)
  pub notified : (t : ℕ) → s.machine.notifiers t ≡ own_notifiers t (listed (s.phase t))
  pub ordered :
      (c t : ℕ)
      → s.machine.running c ≡ some t
      → s.phase t ≡ on
      → core_eligible p c ≡ true
      → control p (s.machine.regs c) ≡ true

module _ {A : Type 0} (value : Phase → A) (phase : ℕ → Phase) (t : ℕ) (q : Phase) where
  -- A field of the grants that follows the phases, where one thread moves.
  pub put-follows :
      (f : ℕ → A)
      → ((u : ℕ) → f u ≡ value (phase u))
      → (u : ℕ) → put f t (value q) u ≡ value (put phase t q u)
  put-follows f h u = elim (same-or-other u t) [
    | inl same ↦ rw (same, put-same f t (value q), put-same phase t q) refl
    | inr apart ↦ rw (put-other f t u (value q) apart, put-other phase t u q apart) (h u)
  ]

  pub kept-follows :
      (f : ℕ → A)
      → value (phase t) ≡ value q
      → ((u : ℕ) → f u ≡ value (phase u))
      → (u : ℕ) → f u ≡ value (put phase t q u)
  kept-follows f still h u = elim (same-or-other u t) [
    | inl same ↦ rw (same, put-same phase t q) (h t ∙ still)
    | inr apart ↦ rw (put-other phase t u q apart) (h u)
  ]
