-- ===== src/MemModel/Client.antt =====
-- src/liboryxmm/oryxmm.c, the user's side of the kernel module. A descriptor below 0 is `none`, another
-- stands for the grant that it opened; a system call on it runs the handler of the module, as the
-- virtual file system documents. The caller is thread `t` on core `cpu`, which it keeps over a call.
use oryx.Prelude.{
  Bool-cases, ℕ, ◌<◌, ◌≡◌, refl, ◌∙◌, ◌⊎◌, inl, inr, Bool, true, false, Option, none, some,
}
use oryx.MemModel.Machine.{
  Params, Machine, Status, Affinity, core_eligible, granted, enabled_by, enable, disable, done,
  enodev, enomem, refused,
}
use oryx.MemModel.Control.{control}
use oryx.MemModel.Confinement.{IsConfined, put-same}
use oryx.MemModel.Grants.{enable-IsConfined}
use oryx.MemModel.Device.{enable_tso, disable_mm, query, Reply, status, flags, ioctl, release}

-- `ioctl(…) == 0`
unfoldable pub is_zero : Reply → Bool
is_zero (status done) = true
is_zero (flags v) = true
is_zero _ = false

unfoldable pub reply_flags : Reply → ℕ
reply_flags (flags v) = v
reply_flags _ = 0

-- A call gives the machine behind it and whether it returned 0.
module _ (p : Params) (affinity : Affinity) (copied : Bool) (cpu t : ℕ) where
  unfoldable pub mm_enable_tso : Option ℕ → Machine → Machine × Bool
  mm_enable_tso none m = (m, false)
  mm_enable_tso (some fd) m =
      let r = ioctl p affinity copied enable_tso cpu t fd m in (r.0, is_zero r.1)

  unfoldable pub mm_disable : Option ℕ → Machine → Machine × Bool
  mm_disable none m = (m, false)
  mm_disable (some fd) m =
      let r = ioctl p affinity copied disable_mm cpu t fd m in (r.0, is_zero r.1)

  -- The flags, 0 if they cannot be had.
  unfoldable pub mm_query : Option ℕ → Machine → Machine × ℕ
  mm_query none m = (m, 0)
  mm_query (some fd) m = let r = ioctl p affinity copied query cpu t fd m in (r.0, reply_flags r.1)

  unfoldable pub mm_close : Option ℕ → Machine → Machine
  mm_close none m = m
  mm_close (some fd) m = release p cpu fd m

  -- `opened` is what `open` on the device returns.
  unfoldable pub mm_open : Option ℕ → Option ℕ
  mm_open opened = opened

  -- `fd` behind the call of oryx_mm_enable_tso.
  unfoldable pub kept_or_closed : Option ℕ → Machine × Bool → Machine × Option ℕ
  kept_or_closed fd (m, true) = (m, fd)
  kept_or_closed fd (m, false) = (mm_close fd m, none)

  unfoldable pub tso_on_opened : Option ℕ → Machine → Machine × Option ℕ
  tso_on_opened none m = (m, none)
  tso_on_opened (some fd) m = kept_or_closed (some fd) (mm_enable_tso (some fd) m)

  unfoldable pub thread_tso_on : Option ℕ → Machine → Machine × Option ℕ
  thread_tso_on opened m = tso_on_opened (mm_open opened) m

  -- What the answer says of the core: with a descriptor, the thread has its grant and the bit is set if
  -- the core is eligible; without one, the bit is clear.
  abbrev pub IsHonest : Machine × Option ℕ → Type 0
  IsHonest (m, some fd) =
      (m.enabled fd ≡ true) × (control p (m.regs cpu) ≡ core_eligible p cpu) × IsConfined p m
  IsHonest (m, none) = (control p (m.regs cpu) ≡ false) × IsConfined p m

  -- What `oryx_enable` leaves, by the code that it returns.
  abbrev Enabled : Machine → Machine × Status → Type 0
  Enabled m (m', done) = (m'.enabled t ≡ true) × (m'.running ≡ m.running)
  Enabled m (m', s) = m' ≡ m

  module _ (m : Machine) (good : IsConfined p m) (fits : p.control_bit < 64)
      (busy : m.running cpu ≡ some t) (fresh : m.enabled t ≡ false) where
    enabled_by-Enabled : (s : Status) → Enabled m (enabled_by p cpu t t m s)
    unfolding enabled_by granted
    enabled_by-Enabled done = (put-same m.enabled t true, refl)
    enabled_by-Enabled enodev = refl
    enabled_by-Enabled enomem = refl
    enabled_by-Enabled refused = refl

    enable-Enabled : Enabled m (enable p affinity cpu t t m)
    unfolding enable
    enable-Enabled = elim (Bool-cases p.confirmed) [
      | inr unknown ↦ simp unknown refl
      | inl known ↦ simp (known, fresh) (enabled_by-Enabled _)
    ]

    weak : control p (m.regs cpu) ≡ false
    weak = good.exact cpu ∙ rw (busy, fresh) refl

    closed : release p cpu t m ≡ m
    unfolding release disable
    closed = rw fresh refl

    answer :
        (r : Machine × Status)
        → Enabled m r
        → IsConfined p r.0
        → IsHonest (kept_or_closed (some t) (r.0, is_zero (status r.1)))
    unfolding kept_or_closed is_zero mm_close
    answer (m', done) (on, same) confined' =
        (on, confined'.exact cpu ∙ rw (same, busy) (rw on refl), confined')
    answer (m', enodev) same confined' = rw (same, closed) (weak, good)
    answer (m', enomem) same confined' = rw (same, closed) (weak, good)
    answer (m', refused) same confined' = rw (same, closed) (weak, good)

    -- If the control bit is one of the 64 and a running thread that has not asked for the mode asks for
    -- it, whatever the device and the kernel refuse, the answer is true of the core: with a
    -- descriptor the grant is enabled and the TSO bit set exactly if the core is eligible, with
    -- -1 the bit is clear; and the machine stays confined.
    pub thread_tso_on-IsHonest :
        (opened : Option ℕ)
        → (opened ≡ none) ⊎ (opened ≡ some t)
        → IsHonest (thread_tso_on opened m)
    unfolding thread_tso_on tso_on_opened mm_open mm_enable_tso ioctl
    thread_tso_on-IsHonest none own = (weak, good)
    thread_tso_on-IsHonest (some fd) (inl absent) = cc
    thread_tso_on-IsHonest (some fd) (inr same) =
        let at : fd ≡ t = cc same in
        rw at (
          answer (enable p affinity cpu t t m) enable-Enabled
            (enable-IsConfined p fits m cpu t good busy affinity))
