-- ===== src/MemModel/Served.antt =====
-- Every interleaving of oryx_memmodel.c with preemption serves the threads whose grant is on; and a thread that is preempted in
-- `oryx_disable` leaves its bit behind.
use oryx.Prelude.{
  ==_refl, ==_ne, Bool-cases, ℕ, ◌<◌, ◌≡◌, refl, sym, ap, ◌∙◌, ◌≢◌, ◌⊎◌, inl, inr, Bool, true,
  false, Option, none, some, [], ◌∷◌,
}
use oryx.MemModel.Machine.{
  Params, Machine, put, apply, core_eligible, sched_in, sched_out, fire_in, fire_out, notifiers_of,
  context_switch, register_notifier, set_core, remove, zeroed, lower_flag, unregister_notifier,
}
use oryx.MemModel.Control.{control, control-apply}
use oryx.MemModel.Confinement.{own_notifiers, put-same, put-other, same-or-other, put-alone}
use oryx.MemModel.Interleaving.{
  Phase, flag, listed, System, moved, Event, Interleaved, IsServed, put-follows, kept-follows,
  closed, off, registered, raised, on, lowered, dropped, switch, opens, registers, raises, sets,
  lowers, drops, clears, closes, started, then_event,
}

module _ (p : Params) (fits : p.control_bit < 64) where
  module _ (s : System) (good : IsServed p s) where
    abbrev m : Machine
    m = s.machine

    notified-kept :
        (t : ℕ) (q : Phase)
        → listed (s.phase t) ≡ listed q
        → (u : ℕ) → m.notifiers u ≡ own_notifiers u (listed (put s.phase t q u))
    notified-kept t q still u = elim (same-or-other u t) [
      | inl same ↦ rw (same, put-same s.phase t q) (good.notified t ∙ ap (own_notifiers t) still)
      | inr apart ↦ rw (put-other s.phase t u q apart) (good.notified u)
    ]

    notified-register :
        (t : ℕ)
        → s.phase t ≡ off
        → (u : ℕ)
        → (register_notifier t t m).notifiers u
          ≡ own_notifiers u (listed (put s.phase t registered u))
    notified-register t at u = elim (same-or-other u t) [
      | inl same ↦
          rw
            (
              same,
              put-same m.notifiers t (t ∷ m.notifiers t),
              put-same s.phase t registered,
              good.notified t,
              at,
            )
            refl
      | inr apart ↦
          rw
            (
              put-other m.notifiers t u (t ∷ m.notifiers t) apart,
              put-other s.phase t u registered apart,
            )
            (good.notified u)
    ]

    remove-own : (t u : ℕ) (b : Bool) → u ≢ t → remove t (own_notifiers u b) ≡ own_notifiers u b
    unfolding remove
    remove-own t u true apart = rw (==_ne u t apart) refl
    remove-own t u false apart = refl

    notified-drop :
        (t : ℕ)
        → s.phase t ≡ lowered
        → (u : ℕ) → remove t (m.notifiers u) ≡ own_notifiers u (listed (put s.phase t dropped u))
    notified-drop t at u = elim (same-or-other u t) [
      | inl same ↦
          rw (same, put-same s.phase t dropped, good.notified t, at)
            (unfold remove in (rw (==_refl t) refl))
      | inr apart ↦
          rw (put-other s.phase t u dropped apart, good.notified u)
            (remove-own t u (listed (s.phase u)) apart)
    ]

    -- A thread that goes to a phase that is not `on`, while other cores keep their registers.
    ordered-kept :
        (cpu t : ℕ) (q : Phase) (regs : ℕ → ℕ)
        → q ≢ on
        → (m.running cpu ≡ some t) ⊎ (regs ≡ m.regs)
        → ((c : ℕ) → c ≢ cpu → regs c ≡ m.regs c)
        → (c u : ℕ) → m.running c ≡ some u
        → put s.phase t q u ≡ on
        → core_eligible p c ≡ true
        → control p (regs c) ≡ true
    ordered-kept cpu t q regs leaves where_t same c u busy is_on may = elim (same-or-other u t) [
      | inl here ↦
          absurd (leaves (sym (put-same s.phase t q) ∙ ap (put s.phase t q) (sym here) ∙ is_on))
      | inr apart ↦
          let was_on : s.phase u ≡ on = sym (put-other s.phase t u q apart) ∙ is_on in
          let kept : regs c ≡ m.regs c = elim where_t [
            | inr all_same ↦ ap (λ (f : ℕ → ℕ). f c) all_same
            | inl runs ↦ same c (λ e.
                let here : m.running cpu ≡ some u = ap m.running (sym e) ∙ busy in
                let who : u ≡ t = cc in apart who)
          ] in
          ap (control p) kept ∙ good.ordered c u busy was_on may
    ]

    -- An event that is no context switch.
    moved-IsServed :
        (cpu t : ℕ) (q : Phase) (m' : Machine)
        → m'.running ≡ m.running
        → ((u : ℕ) → m'.enabled u ≡ flag (put s.phase t q u))
        → ((u : ℕ) → m'.notifiers u ≡ own_notifiers u (listed (put s.phase t q u)))
        → ((c u : ℕ)
            → m.running c ≡ some u
            → put s.phase t q u ≡ on
            → core_eligible p c ≡ true
            → control p (m'.regs c) ≡ true)
        → IsServed p (moved t q m' s)
    moved-IsServed cpu t q m' still flags lists orders = record {
      alone = λ c d u hc hd.
          good.alone c d u (ap (λ f. f c) (sym still) ∙ hc) (ap (λ f. f d) (sym still) ∙ hd);
      flagged = flags;
      notified = lists;
      ordered = λ c u busy is_on may. orders c u (ap (λ f. f c) (sym still) ∙ busy) is_on may;
    }

    -- The thread that enables gets its bit on the core where it is.
    ordered-set :
        (cpu t : ℕ)
        → m.running cpu ≡ some t
        → (c u : ℕ) → m.running c ≡ some u
        → put s.phase t on u ≡ on
        → core_eligible p c ≡ true
        → control p ((set_core p cpu m).regs c) ≡ true
    ordered-set cpu t runs c u busy is_on may = elim (same-or-other c cpu) [
      | inl here ↦
          let eligible : core_eligible p cpu ≡ true = ap (core_eligible p) (sym here) ∙ may in
          rw (here, eligible, put-same m.regs cpu (apply p true (m.regs cpu)))
            (control-apply p fits true (m.regs cpu))
      | inr away ↦
          let apart : u ≢ t = λ e. away (good.alone c cpu t (busy ∙ ap some e) runs) in
          let was_on : s.phase u ≡ on = sym (put-other s.phase t u on apart) ∙ is_on in
          let before = good.ordered c u busy was_on may in
          elim (Bool-cases (core_eligible p cpu)) [
            | inr never ↦ rw never before
            | inl sets_it ↦
                rw sets_it (
                  ap (control p) (put-other m.regs cpu c (apply p true (m.regs cpu)) away) ∙ before)
          ]
    ]

    -- The notifier of a thread that is on sets the bit when the thread comes.
    switch-ordered :
        (cpu : ℕ) (next : Option ℕ) (c u : ℕ)
        → put m.running cpu next c ≡ some u
        → s.phase u ≡ on
        → core_eligible p c ≡ true
        → control p ((context_switch p cpu next m).regs c) ≡ true
    unfolding context_switch fire_in sched_in notifiers_of
    switch-ordered cpu next c u busy is_on may = elim (same-or-other c cpu) [
      | inr away ↦
          ap (control p) (put-other m.regs cpu c _ away)
          ∙ good.ordered c u (sym (put-other m.running cpu c next away) ∙ busy) is_on may
      | inl here ↦
          let comes : next ≡ some u =
            sym (put-same m.running cpu next) ∙ ap (put m.running cpu next) (sym here) ∙ busy in
          let raised_flag : m.enabled u ≡ true = good.flagged u ∙ ap flag is_on in
          let own : m.notifiers u ≡ u ∷ [] =
            good.notified u ∙ ap (λ q. own_notifiers u (listed q)) is_on in
          let eligible : core_eligible p cpu ≡ true = ap (core_eligible p) (sym here) ∙ may in
          rw (here, put-same m.regs cpu, comes, own, raised_flag, eligible)
            (control-apply p fits true _)
    ]

  Event-IsServed : {s s' : System} → Event p s s' → IsServed p s → IsServed p s'
  unfolding zeroed
  Event-IsServed {s} (switch cpu next free) good = record {
    alone = unfold context_switch in (put-alone s.machine.running cpu next good.alone free);
    flagged = unfold context_switch in good.flagged;
    notified = unfold context_switch in good.notified;
    ordered = unfold context_switch in (switch-ordered s good cpu next);
  }
  Event-IsServed {s} (opens t at) good =
      moved-IsServed s good 0 t off _ refl (put-follows flag s.phase t off _ good.flagged)
        (notified-kept s good t off (ap listed at))
        (ordered-kept s good 0 t off _ (λ e. cc) (inr refl) (λ c h. refl))
  Event-IsServed {s} (registers cpu t runs known at) good =
      moved-IsServed s good cpu t registered _ refl
        (kept-follows flag s.phase t registered _ (ap flag at) good.flagged)
        (notified-register s good t at)
        (ordered-kept s good cpu t registered _ (λ e. cc) (inr refl) (λ c h. refl))
  Event-IsServed {s} (raises cpu t runs at) good =
      moved-IsServed s good cpu t raised _ refl (put-follows flag s.phase t raised _ good.flagged)
        (notified-kept s good t raised (ap listed at))
        (ordered-kept s good cpu t raised _ (λ e. cc) (inr refl) (λ c h. refl))
  Event-IsServed {s} (sets cpu t runs at) good =
      moved-IsServed s good cpu t on _ refl
        (kept-follows flag s.phase t on _ (ap flag at) good.flagged)
        (notified-kept s good t on (ap listed at)) (ordered-set s good cpu t runs)
  Event-IsServed {s} (lowers cpu t runs at) good =
      moved-IsServed s good cpu t lowered _ refl (put-follows flag s.phase t lowered _ good.flagged)
        (notified-kept s good t lowered (ap listed at))
        (ordered-kept s good cpu t lowered _ (λ e. cc) (inr refl) (λ c h. refl))
  Event-IsServed {s} (drops cpu t runs at) good =
      moved-IsServed s good cpu t dropped _ refl
        (kept-follows flag s.phase t dropped _ (ap flag at) good.flagged)
        (notified-drop s good t at)
        (ordered-kept s good cpu t dropped _ (λ e. cc) (inr refl) (λ c h. refl))
  Event-IsServed {s} (clears cpu t runs at) good =
      moved-IsServed s good cpu t off _ refl
        (kept-follows flag s.phase t off _ (ap flag at) good.flagged)
        (notified-kept s good t off (ap listed at))
        (ordered-kept s good cpu t off _ (λ e. cc) (inl runs)
          (λ c away. put-other s.machine.regs cpu c _ away))
  Event-IsServed {s} (closes cpu t runs at) good =
      moved-IsServed s good cpu t closed _ refl
        (kept-follows flag s.phase t closed _ (ap flag at) good.flagged)
        (notified-kept s good t closed (ap listed at))
        (ordered-kept s good cpu t closed _ (λ e. cc) (inr refl) (λ c h. refl))

  -- If the control bit is one of the 64 and each thread makes ioctls on its own grant only, then every system that
  -- the parts of their calls and context switches between them reach from a served one is served: a thread whose
  -- call to enable has returned, and that has not begun to disable or release, has the TSO bit set on every
  -- eligible core that it runs on, and a thread whose file is released has no notifier left.
  pub Interleaved-IsServed : {s s' : System} → Interleaved p s s' → IsServed p s → IsServed p s'
  Interleaved-IsServed started good = good
  Interleaved-IsServed (then_event before event) good =
      Event-IsServed event (Interleaved-IsServed before good)

  -- If the control bit is one of the 64, the system is served, and a thread whose grant is on, on an eligible
  -- core, is preempted in `oryx_disable`, with the flag lowered and the notifier still registered or already gone,
  -- then the TSO bit of that core stays set: the switch that takes the thread off it does not clear it.
  pub context_switch-lower_flag :
      (s : System) (cpu t : ℕ)
      → IsServed p s
      → s.machine.running cpu ≡ some t
      → s.phase t ≡ on
      → core_eligible p cpu ≡ true
      → let lowered_flag = lower_flag t s.machine in
        (control p ((context_switch p cpu none lowered_flag).regs cpu) ≡ true)
        × (control p ((context_switch p cpu none (unregister_notifier t lowered_flag)).regs cpu)
            ≡ true)
  unfolding context_switch fire_in fire_out sched_out notifiers_of remove
  context_switch-lower_flag s cpu t good runs is_on may =
      let own : s.machine.notifiers t ≡ t ∷ [] =
        good.notified t ∙ ap (λ q. own_notifiers t (listed q)) is_on in
      let before = good.ordered cpu t runs is_on may in
      (
        rw (put-same s.machine.regs cpu, runs, own, put-same s.machine.enabled t false) before,
        rw (put-same s.machine.regs cpu, runs, own, ==_refl t) before,
      )
