-- ===== src/MemModel/Grants.antt =====
-- The ioctls keep the TSO bit confined where the calling thread is not preempted in them and makes them on its own
-- grant. An ioctl on the grant of another thread does not.
use oryx.Prelude.{
  ==_refl, ==_ne, Bool-cases, ℕ, ◌<◌, ◌≡◌, refl, sym, ap, ◌∙◌, ◌≢◌, inl, inr, Bool, true, false,
  none, some, ◌∷◌,
}
use oryx.MemModel.Machine.{
  Params, Machine, Status, Affinity, put, apply, core_eligible, fire_in, fire_out, notifiers_of,
  context_switch, granted, enabled_by, enable, remove, revoked, disable, done, enodev, enomem,
  refused,
}
use oryx.MemModel.Control.{control, control-apply}
use oryx.MemModel.Confinement.{
  wanted, own_notifiers, IsConfined, put-same, put-other, same-or-other, wanted-other,
}

module _ (p : Params) (fits : p.control_bit < 64) where
  module _ (m : Machine) (cpu t : ℕ) (good : IsConfined p m) (busy : m.running cpu ≡ some t) where
    granted-registered :
        m.enabled t ≡ false
        → (u : ℕ)
        → put m.notifiers t (t ∷ m.notifiers t) u ≡ own_notifiers u (put m.enabled t true u)
    granted-registered off u = elim (same-or-other u t) [
      | inl same ↦
          rw
            (
              same,
              put-same m.notifiers t (t ∷ m.notifiers t),
              put-same m.enabled t true,
              good.registered t,
              off,
            )
            refl
      | inr apart ↦
          rw
            (
              put-other m.notifiers t u (t ∷ m.notifiers t) apart,
              put-other m.enabled t u true apart,
            )
            (good.registered u)
    ]

    granted-exact :
        m.enabled t ≡ false
        → (c : ℕ)
        → control p ((granted p cpu t t m).regs c) ≡ wanted p (granted p cpu t t m) c (m.running c)
    unfolding granted
    granted-exact off c = elim (same-or-other c cpu) [
      | inl same ↦ elim (Bool-cases (core_eligible p cpu)) [
        | inl may ↦
            rw
              (
                same,
                busy,
                may,
                put-same m.enabled t true,
                put-same m.regs cpu (apply p true (m.regs cpu)),
              )
              (control-apply p fits true (m.regs cpu))
        | inr never ↦
            rw (same, busy, never, put-same m.enabled t true) (good.exact cpu ∙ rw (busy, off) refl)
      ]
      | inr away ↦
          let kept =
            wanted-other p fits m (granted p cpu t t m) c cpu t good busy away
              (λ u apart. put-other m.enabled t u true apart) in
          elim (Bool-cases (core_eligible p cpu)) [
            | inl may ↦ rw may (
                ap (control p) (put-other m.regs cpu c (apply p true (m.regs cpu)) away)
                ∙ good.exact c
                ∙ sym (rw may at kept))
            | inr never ↦ rw never (good.exact c ∙ sym (rw never at kept))
          ]
    ]

    granted-IsConfined : m.enabled t ≡ false → IsConfined p (granted p cpu t t m)
    granted-IsConfined off = record {
      alone = unfold granted in good.alone;
      registered = unfold granted in (granted-registered off);
      exact = unfold granted in (granted-exact off);
    }

    remove-own : (u : ℕ) (b : Bool) → u ≢ t → remove t (own_notifiers u b) ≡ own_notifiers u b
    unfolding remove
    remove-own u true apart = rw (==_ne u t apart) refl
    remove-own u false apart = refl

    revoked-registered :
        m.enabled t ≡ true
        → (u : ℕ) → remove t (m.notifiers u) ≡ own_notifiers u (put m.enabled t false u)
    revoked-registered on u = elim (same-or-other u t) [
      | inl same ↦
          rw (same, put-same m.enabled t false, good.registered t, on)
            (unfold remove in (rw (==_refl t) refl))
      | inr apart ↦
          rw (put-other m.enabled t u false apart, good.registered u)
            (remove-own u (m.enabled u) apart)
    ]

    revoked-exact :
        (c : ℕ)
        → control p ((revoked p cpu t m).regs c) ≡ wanted p (revoked p cpu t m) c (m.running c)
    unfolding revoked
    revoked-exact c = elim (same-or-other c cpu) [
      | inl same ↦
          rw
            (
              same,
              busy,
              put-same m.enabled t false,
              put-same m.regs cpu (apply p false (m.regs cpu)),
            )
            (control-apply p fits false (m.regs cpu))
      | inr away ↦
          ap (control p) (put-other m.regs cpu c (apply p false (m.regs cpu)) away)
          ∙ good.exact c
          ∙ sym (
              wanted-other p fits m (revoked p cpu t m) c cpu t good busy away
                (λ u apart. put-other m.enabled t u false apart))
    ]

    pub disable-IsConfined : IsConfined p (disable p cpu t m)
    unfolding disable revoked
    disable-IsConfined = elim (Bool-cases (m.enabled t)) [
      | inr off ↦ simp off good
      | inl on ↦
          simp on (record {
            alone = good.alone;
            registered = revoked-registered on;
            exact = revoked-exact;
          })
    ]

    enabled_by-IsConfined :
        (status : Status) → m.enabled t ≡ false → IsConfined p (enabled_by p cpu t t m status).0
    unfolding enabled_by
    enabled_by-IsConfined done off = granted-IsConfined off
    enabled_by-IsConfined enodev off = good
    enabled_by-IsConfined enomem off = good
    enabled_by-IsConfined refused off = good

    pub enable-IsConfined : (affinity : Affinity) → IsConfined p (enable p affinity cpu t t m).0
    unfolding enable
    enable-IsConfined affinity = elim (Bool-cases p.confirmed) [
      | inr unknown ↦ simp unknown good
      | inl known ↦ elim (Bool-cases (m.enabled t)) [
        | inl on ↦ simp (known, on) good
        | inr off ↦ simp (known, off) (enabled_by-IsConfined _ off)
      ]
    ]

  left_behind :
      (m : Machine) (cpu other t : ℕ)
      → IsConfined p m
      → m.running cpu ≡ some t
      → m.enabled t ≡ true
      → cpu ≢ other
      → (context_switch p cpu none (revoked p other t m)).regs cpu ≡ m.regs cpu
  unfolding context_switch revoked notifiers_of fire_in fire_out remove
  left_behind m cpu other t good busy on apart =
      put-same (put m.regs other (apply p false (m.regs other))) cpu _
      ∙ rw (busy, good.registered t, on, ==_refl t)
          (put-other m.regs other cpu (apply p false (m.regs other)) apart)

  -- If another thread, on another core, disables the grant of a running thread, then the TSO bit stays set on the
  -- thread's core after the thread has left it.
  pub context_switch-disable :
      (m : Machine) (cpu other t : ℕ)
      → IsConfined p m
      → m.running cpu ≡ some t
      → m.enabled t ≡ true
      → core_eligible p cpu ≡ true
      → cpu ≢ other
      → control p ((context_switch p cpu none (disable p other t m)).regs cpu) ≡ true
  unfolding disable
  context_switch-disable m cpu other t good busy on may apart = rw on (
      ap (control p) (left_behind m cpu other t good busy on apart)
      ∙ good.exact cpu
      ∙ rw (busy, on, may) refl)
