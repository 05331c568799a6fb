-- ===== src/MemModel/Confinement.antt =====
-- The TSO bit of a core is set exactly while the core runs a thread that asked for it; a context switch keeps that.
use oryx.Prelude.{
  ℕ, ◌<◌, ◌≡◌, ◌≢◌, refl, sym, ap, ◌∙◌, Bool, true, false, ◌&&◌, Option, none, some, List, [], ◌∷◌,
  ◌==◌, ==_iff, ==_refl, ==_ne, Bool-cases, Option-cases, ◌⊎◌, inl, inr, arith,
}
use oryx.MemModel.Machine.{
  Params, Machine, put, core_eligible, sched_in, sched_out, fire_in, fire_out, notifiers_of,
  context_switch,
}
use oryx.MemModel.Control.{control, control-apply}

-- Whether the thread of a core has asked for the mode, and may have it there.
abbrev pub wanted : Params → Machine → ℕ → Option ℕ → Bool
wanted p m cpu none = false
wanted p m cpu (some t) = m.enabled t && core_eligible p cpu

abbrev pub own_notifiers : ℕ → Bool → List ℕ
own_notifiers t true = t ∷ []
own_notifiers t false = []

-- The grant of thread `t` is numbered `t`. No thread is on two cores, a thread has the notifier of its grant while
-- that is enabled, and the control bit of a core tells whether its thread wants it.
pub record IsConfined (p : Params) (m : Machine) : Type 0 where
  pub alone : (c d t : ℕ) → m.running c ≡ some t → m.running d ≡ some t → c ≡ d
  pub registered : (t : ℕ) → m.notifiers t ≡ own_notifiers t (m.enabled t)
  pub exact : (c : ℕ) → control p (m.regs c) ≡ wanted p m c (m.running c)

pub put-same {ℓ} : {A : Type ℓ} (f : ℕ → A) (k : ℕ) (v : A) → put f k v k ≡ v
unfolding put
put-same f k v = rw (==_refl k) refl

pub put-other {ℓ} : {A : Type ℓ} (f : ℕ → A) (k n : ℕ) (v : A) → n ≢ k → put f k v n ≡ f n
unfolding put
put-other f k n v h = rw (==_ne n k h) refl

pub same-or-other : (n k : ℕ) → (n ≡ k) ⊎ (n ≢ k)
same-or-other n k = elim (Bool-cases (n == k)) [
  | inl same ↦ inl ((==_iff n k).0 same)
  | inr other ↦ inr (λ same. ground (arith, same, other))
]

-- No thread is on two cores after a core has taken one that is on no other.
module _ (running : ℕ → Option ℕ) (cpu : ℕ) (next : Option ℕ)
    (alone : (c d t : ℕ) → running c ≡ some t → running d ≡ some t → c ≡ d)
    (free : (c t : ℕ) → next ≡ some t → running c ≡ some t → c ≡ cpu) where
  abbrev running' : ℕ → Option ℕ
  running' = put running cpu next

  pub put-alone : (c d t : ℕ) → running' c ≡ some t → running' d ≡ some t → c ≡ d
  put-alone c d t hc hd = elim (same-or-other c cpu) [
    | inl here_c ↦ elim (same-or-other d cpu) [
      | inl here_d ↦ here_c ∙ sym here_d
      | inr away_d ↦
          let taken : next ≡ some t =
            sym (put-same running cpu next) ∙ ap running' (sym here_c) ∙ hc in
          here_c ∙ sym (free d t taken (sym (put-other running cpu d next away_d) ∙ hd))
    ]
    | inr away_c ↦
        let old_c = sym (put-other running cpu c next away_c) ∙ hc in
        elim (same-or-other d cpu) [
          | inl here_d ↦
              let taken : next ≡ some t =
                sym (put-same running cpu next) ∙ ap running' (sym here_d) ∙ hd in
              free c t taken old_c ∙ sym here_d
          | inr away_d ↦ alone c d t old_c (sym (put-other running cpu d next away_d) ∙ hd)
        ]
  ]

module _ (p : Params) (fits : p.control_bit < 64) where
  -- The bit after the notifiers of a thread that leaves, and of one that enters.
  fire_out-clears :
      (m : Machine) (cpu : ℕ)
      → IsConfined p m
      → control p (fire_out p m.enabled (notifiers_of m (m.running cpu)) (m.regs cpu)) ≡ false
  unfolding fire_out sched_out notifiers_of
  fire_out-clears m cpu good = elim (Option-cases (m.running cpu)) [
    | inl idle ↦ rw idle (good.exact cpu ∙ rw idle refl)
    | inr (t, busy) ↦
        rw (busy, good.registered t)
          (elim (Bool-cases (m.enabled t)) [
            | inl on ↦ simp on (control-apply p fits false (m.regs cpu))
            | inr off ↦ simp off (good.exact cpu ∙ rw (busy, off) refl)
          ])
  ]

  fire_in-sets :
      (m : Machine) (cpu : ℕ) (next : Option ℕ) (v : ℕ)
      → IsConfined p m
      → control p v ≡ false
      → control p (fire_in p m.enabled cpu (notifiers_of m next) v) ≡ wanted p m cpu next
  unfolding fire_in sched_in notifiers_of
  fire_in-sets m cpu none v good clear = clear
  fire_in-sets m cpu (some t) v good clear =
      rw (good.registered t) (elim (Bool-cases (m.enabled t)) [
        | inr off ↦ simp off clear
        | inl on ↦ simp on (elim (Bool-cases (core_eligible p cpu)) [
          | inl may ↦ simp may (control-apply p fits true v)
          | inr not_here ↦ simp not_here clear
        ])
      ])

  module _ (m : Machine) (cpu : ℕ) (next : Option ℕ) (good : IsConfined p m)
      (free : (c t : ℕ) → next ≡ some t → m.running c ≡ some t → c ≡ cpu) where
    pub switch-IsConfined : IsConfined p (context_switch p cpu next m)
    unfolding context_switch
    switch-IsConfined = record {
      alone = put-alone m.running cpu next good.alone free;
      registered = good.registered;
      exact = λ c. elim (same-or-other c cpu) [
        | inl same ↦
            rw (same, put-same m.running cpu next)
              (ap (control p) (put-same m.regs cpu _)
                ∙ fire_in-sets m cpu next _ good (fire_out-clears m cpu good))
        | inr away ↦
            rw (put-other m.running cpu c next away)
              (ap (control p) (put-other m.regs cpu c _ away) ∙ good.exact c)
      ];
    }

  -- A grant that changes only matters to the core that runs its thread.
  pub wanted-other :
      (m m' : Machine) (c cpu t : ℕ)
      → IsConfined p m
      → m.running cpu ≡ some t
      → c ≢ cpu
      → ((u : ℕ) → u ≢ t → m'.enabled u ≡ m.enabled u)
      → wanted p m' c (m.running c) ≡ wanted p m c (m.running c)
  wanted-other m m' c cpu t good busy away same = elim (Option-cases (m.running c)) [
    | inl idle ↦ rw idle refl
    | inr (u, other) ↦
        let apart : u ≢ t = λ e. away (good.alone c cpu t (other ∙ ap some e) busy) in
        rw (other, same u apart) refl
  ]
