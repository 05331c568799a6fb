-- ===== src/MemModel/Examples.antt =====
-- Runs of oryx_memmodel.c on two cores: thread 7 runs on core 0 and asks for the mode.
use oryx.Prelude.{ℕ, ◌≡◌, refl, inr, true, false, none, some, [], arith}
use oryx.MemModel.Machine.{
  Params, Machine, put, core_eligible, context_switch, register_notifier, raise_flag, set_core,
  granted, enabled_by, enable, zeroed, lower_flag, unregister_notifier, disable, confined,
}
use oryx.MemModel.Control.{control}
use oryx.MemModel.Confinement.{IsConfined, switch-IsConfined}
use oryx.MemModel.Grants.{enable-IsConfined, context_switch-disable}
use oryx.MemModel.Client.{thread_tso_on, IsHonest, thread_tso_on-IsHonest}
use oryx.MemModel.Interleaving.{
  System, moved, Interleaved, IsServed, closed, off, registered, raised, on, switch, opens,
  registers, raises, sets, started, then_event,
}
use oryx.MemModel.Served.{Interleaved-IsServed, context_switch-lower_flag}

abbrev params : Params
params = record { control_bit = 3; confirmed = true; eligible = 0xffffffffffffffff }

abbrev idle : Machine
idle = record { regs = λ c. 0; running = λ c. none; enabled = λ g. false; notifiers = λ t. [] }

idle-IsConfined : IsConfined params idle
idle-IsConfined = record {
  alone = λ c d t h k. cc;
  registered = λ t. refl;
  exact = λ c. unfold control in refl;
}

abbrev busy : Machine
busy = context_switch params 0 (some 7) idle

abbrev asked : Machine
asked = (enable params confined 0 7 7 busy).0

busy-running : busy.running 0 ≡ some 7
unfolding context_switch put
busy-running = refl

idle-free : (c t : ℕ) → some 7 ≡ some t → idle.running c ≡ some t → c ≡ 0
idle-free c t h k = cc

busy-IsConfined : IsConfined params busy
busy-IsConfined = switch-IsConfined params (omega arith) idle 0 (some 7) idle-IsConfined idle-free

asked-IsConfined : IsConfined params asked
asked-IsConfined =
    enable-IsConfined params (omega arith) busy 0 7 busy-IsConfined busy-running confined

asked-running : asked.running 0 ≡ some 7
unfolding context_switch enable enabled_by granted put
asked-running = refl

asked-enabled : asked.enabled 7 ≡ true
unfolding context_switch enable enabled_by granted put
asked-enabled = refl

-- Core 1 disables the grant of thread 7, then core 0 goes idle.
context_switch-disable_example :
    control params ((context_switch params 0 none (disable params 1 7 asked)).regs 0) ≡ true
context_switch-disable_example =
    context_switch-disable params (omega arith) asked 0 1 7 asked-IsConfined asked-running
      asked-enabled (unfold core_eligible in refl) (omega arith)

busy-fresh : busy.enabled 7 ≡ false
unfolding context_switch
busy-fresh = refl

thread_tso_on-IsHonest_example :
    IsHonest params confined true 0 7 (thread_tso_on params confined true 0 7 (some 7) busy)
thread_tso_on-IsHonest_example =
    thread_tso_on-IsHonest params confined true 0 7 busy busy-IsConfined (omega arith) busy-running
      busy-fresh (some 7) (inr refl)

-- Thread 7 comes to core 0, opens the device, and goes through the parts of `oryx_enable`.
abbrev boot : System
boot = record { machine = idle; phase = λ t. closed }

boot-IsServed : IsServed params boot
boot-IsServed = record {
  alone = λ c d t h k. cc;
  flagged = λ t. refl;
  notified = λ t. refl;
  ordered = λ c t h k e. cc;
}

abbrev there : System
there = record boot { machine = busy }

abbrev ready : System
ready = moved 7 off (zeroed 7 there.machine) there

abbrev noted : System
noted = moved 7 registered (register_notifier 7 7 ready.machine) ready

abbrev lifted : System
lifted = moved 7 raised (raise_flag 7 noted.machine) noted

abbrev served : System
served = moved 7 on (set_core params 0 lifted.machine) lifted

served-Interleaved : Interleaved params boot served
unfolding context_switch put zeroed
served-Interleaved =
    then_event
      (then_event
        (then_event (then_event (then_event started (switch 0 (some 7) idle-free)) (opens 7 refl))
          (registers 0 7 refl refl refl))
        (raises 0 7 refl refl))
      (sets 0 7 refl refl)

Interleaved-IsServed_example : IsServed params served
Interleaved-IsServed_example =
    Interleaved-IsServed params (omega arith) served-Interleaved boot-IsServed

served-running : served.machine.running 0 ≡ some 7
unfolding context_switch put zeroed
served-running = refl

served-on : served.phase 7 ≡ on
unfolding put
served-on = refl

context_switch-lower_flag_example :
    (control params ((context_switch params 0 none (lower_flag 7 served.machine)).regs 0) ≡ true)
    × (control params (
          (context_switch params 0 none (unregister_notifier 7 (lower_flag 7 served.machine))).regs
            0)
        ≡ true)
context_switch-lower_flag_example =
    context_switch-lower_flag params (omega arith) served 0 7
      (Interleaved-IsServed params (omega arith) served-Interleaved boot-IsServed) served-running
      served-on (unfold core_eligible in refl)
