-- ===== src/MemModel/Machine.antt =====
-- The handlers of oryx_memmodel.c as functions of a machine: the candidate register of each core, the
-- thread that each core runs, the `enabled` field of each grant, and the grants whose notifier each
-- thread has. A notifier runs when its thread leaves or enters a core, as linux/preempt.h documents.
use oryx.Prelude.{
  ℕ, ◌-◌, ◌^◌, bit_and, bit_or, Bool, true, false, ◌&&◌, not, Option, none, some, List, [], ◌∷◌,
  ltb, ◌==◌, if◌then◌else◌,
}

-- The module's parameters; the candidate that `oryx_reg_idx` names is the register modelled.
pub record Params : Type 0 where
  pub control_bit : ℕ
  pub confirmed : Bool
  pub eligible : ℕ

pub record Machine : Type 0 where
  pub regs : ℕ → ℕ
  pub running : ℕ → Option ℕ
  pub enabled : ℕ → Bool
  pub notifiers : ℕ → List ℕ

pub data Status : Type 0 where
  done enodev enomem refused : Status

-- What `alloc_cpumask_var` and `set_cpus_allowed_ptr` do for the calling thread.
pub data Affinity : Type 0 where
  confined out_of_memory rejected : Affinity

unfoldable pub put {ℓ} : {A : Type ℓ} → (ℕ → A) → ℕ → A → ℕ → A
put f k v n = if n == k then v else f n

-- The new value of `oryx_apply`; the register is written only if it changes.
unfoldable pub applied : Params → Bool → ℕ → ℕ
applied p true v = bit_or v (2 ^ p.control_bit)
applied p false v = bit_and v (2 ^ 64 - 1 - 2 ^ p.control_bit)

unfoldable pub apply : Params → Bool → ℕ → ℕ
apply p on v = let nv = applied p on v in if nv == v then v else nv

unfoldable pub core_eligible : Params → ℕ → Bool
core_eligible p cpu = ltb cpu 64 && not (bit_and p.eligible (2 ^ cpu) == 0)

-- The register of `cpu` after the notifier of grant `g`.
unfoldable pub sched_in : Params → (ℕ → Bool) → ℕ → ℕ → ℕ → ℕ
sched_in p enabled cpu g v = if enabled g && core_eligible p cpu then apply p true v else v

unfoldable pub sched_out : Params → (ℕ → Bool) → ℕ → ℕ → ℕ
sched_out p enabled g v = if enabled g then apply p false v else v

unfoldable pub fire_in : Params → (ℕ → Bool) → ℕ → List ℕ → ℕ → ℕ
fire_in p enabled cpu [] v = v
fire_in p enabled cpu (g ∷ gs) v = fire_in p enabled cpu gs (sched_in p enabled cpu g v)

unfoldable pub fire_out : Params → (ℕ → Bool) → List ℕ → ℕ → ℕ
fire_out p enabled [] v = v
fire_out p enabled (g ∷ gs) v = fire_out p enabled gs (sched_out p enabled g v)

unfoldable pub notifiers_of : Machine → Option ℕ → List ℕ
notifiers_of m none = []
notifiers_of m (some t) = m.notifiers t

-- The core gives up the thread that it runs and takes `next`.
unfoldable pub context_switch : Params → ℕ → Option ℕ → Machine → Machine
context_switch p cpu next m = record m {
  regs = put m.regs cpu (
      fire_in p m.enabled cpu (notifiers_of m next)
        (fire_out p m.enabled (notifiers_of m (m.running cpu)) (m.regs cpu)));
  running = put m.running cpu next;
}

abbrev pub all_cores : ℕ
all_cores = 2 ^ 64 - 1

-- The parts of a successful `oryx_enable`, between which the thread can be preempted: the registration of the notifier,
-- the flag, and the bit of the core `cpu` that the thread is on, which is set with preemption off.
abbrev pub register_notifier : ℕ → ℕ → Machine → Machine
register_notifier t g m = record m { notifiers = put m.notifiers t (g ∷ m.notifiers t) }

abbrev pub raise_flag : ℕ → Machine → Machine
raise_flag g m = record m { enabled = put m.enabled g true }

abbrev pub set_core : Params → ℕ → Machine → Machine
set_core p cpu m = record m {
  regs = if core_eligible p cpu then put m.regs cpu (apply p true (m.regs cpu)) else m.regs;
}

-- The three without a preemption between them.
unfoldable pub granted : Params → ℕ → ℕ → ℕ → Machine → Machine
granted p cpu t g m = set_core p cpu (raise_flag g (register_notifier t g m))

-- `ret` of the confinement to the eligible cores, where the module is restricted to some.
unfoldable pub confine : Affinity → Status
confine confined = done
confine out_of_memory = enomem
confine rejected = refused

unfoldable pub enabled_by : Params → ℕ → ℕ → ℕ → Machine → Status → Machine × Status
enabled_by p cpu t g m done = (granted p cpu t g m, done)
enabled_by p cpu t g m status = (m, status)

-- `oryx_enable(g)` of thread `t`, which ends on core `cpu` and is not preempted in it.
unfoldable pub enable : Params → Affinity → ℕ → ℕ → ℕ → Machine → Machine × Status
enable p affinity cpu t g m =
    if not p.confirmed
    then (m, enodev)
    else (if m.enabled g
        then (m, done)
        else enabled_by p cpu t g m (if p.eligible == all_cores then done else confine affinity))

unfoldable pub remove : ℕ → List ℕ → List ℕ
remove g [] = []
remove g (h ∷ gs) = let rest = remove g gs in if h == g then rest else h ∷ rest

-- The grant `g` as `kzalloc` of `oryx_open` leaves it.
unfoldable pub zeroed : ℕ → Machine → Machine
zeroed g m = record m { enabled = put m.enabled g false }

-- The parts of `oryx_disable` behind its guard, between which the thread can be preempted: the flag, the end of the
-- notifier, and the bit of the core `cpu`, which is cleared with preemption off.
abbrev pub lower_flag : ℕ → Machine → Machine
lower_flag g m = record m { enabled = put m.enabled g false }

abbrev pub unregister_notifier : ℕ → Machine → Machine
unregister_notifier g m = record m { notifiers = λ t. remove g (m.notifiers t) }

abbrev pub clear_core : Params → ℕ → Machine → Machine
clear_core p cpu m = record m { regs = put m.regs cpu (apply p false (m.regs cpu)) }

-- The three without a preemption between them.
unfoldable pub revoked : Params → ℕ → ℕ → Machine → Machine
revoked p cpu g m = clear_core p cpu (unregister_notifier g (lower_flag g m))

-- `oryx_disable(g)` of a thread on core `cpu` that is not preempted in it.
unfoldable pub disable : Params → ℕ → ℕ → Machine → Machine
disable p cpu g m = if not (m.enabled g) then m else revoked p cpu g m
