-- ===== src/MemModel/Device.antt =====
-- The device file of oryx_memmodel.c: `oryx_open`, `oryx_ioctl` and `oryx_release`.
use oryx.Prelude.{◌==◌, if◌then◌else◌, ℕ, ◌<◌, bit_or, ◌≡◌, Bool, true, false, not, some}
use oryx.MemModel.Machine.{
  Params, Machine, Status, Affinity, all_cores, enable, zeroed, disable, enomem,
}
use oryx.MemModel.Confinement.{IsConfined}
use oryx.MemModel.Grants.{disable-IsConfined, enable-IsConfined}

abbrev pub cap_available : ℕ
cap_available = 1

abbrev pub state_tso : ℕ
state_tso = 2

abbrev pub cap_core_limit : ℕ
cap_core_limit = 4

-- The command numbers of the header; `other` is any other number.
pub data Command : Type 0 where
  enable_tso disable_mm query other : Command

pub data Reply : Type 0 where
  status : Status → Reply
  flags : ℕ → Reply
  efault enotty : Reply

-- `flags |= bit` under a condition
abbrev pub with_flag : Bool → ℕ → ℕ → ℕ
with_flag true bit v = bit_or v bit
with_flag false bit v = v

unfoldable pub query_flags : Params → ℕ → Machine → ℕ
query_flags p g m =
    with_flag (not (p.eligible == all_cores)) cap_core_limit
      (with_flag (m.enabled g) state_tso (with_flag p.confirmed cap_available 0))

-- `oryx_open`, which makes the grant `g`; `room` says whether `kzalloc` succeeds.
unfoldable pub open_device : Bool → ℕ → Machine → Machine × Reply
open_device room g m = if not room then (m, status enomem) else (zeroed g m, status Status.done)

-- `oryx_ioctl` on grant `g` by thread `t`, on core `cpu`; `copied` says whether `put_user` succeeds.
unfoldable pub ioctl : Params → Affinity → Bool → Command → ℕ → ℕ → ℕ → Machine → Machine × Reply
ioctl p affinity copied enable_tso cpu t g m =
    let r = enable p affinity cpu t g m in (r.0, status r.1)
ioctl p affinity copied disable_mm cpu t g m = (disable p cpu g m, status Status.done)
ioctl p affinity copied query cpu t g m =
    if copied then (m, flags (query_flags p g m)) else (m, efault)
ioctl p affinity copied other cpu t g m = (m, enotty)

-- `oryx_release`: the grant ends with its file.
unfoldable pub release : Params → ℕ → ℕ → Machine → Machine
release p cpu g m = disable p cpu g m

module _ (p : Params) (fits : p.control_bit < 64) (m : Machine) (cpu t : ℕ) (good : IsConfined p m)
    (busy : m.running cpu ≡ some t) where
  query-IsConfined :
      (copied : Bool) (affinity : Affinity)
      → IsConfined p (ioctl p affinity copied query cpu t t m).0
  unfolding ioctl
  query-IsConfined true affinity = good
  query-IsConfined false affinity = good

  -- If the control bit is one of the 64, every ioctl that a running thread makes on its own grant keeps a confined machine
  -- confined, whatever it answers.
  pub ioctl-IsConfined :
      (affinity : Affinity) (copied : Bool) (command : Command)
      → IsConfined p (ioctl p affinity copied command cpu t t m).0
  unfolding ioctl
  ioctl-IsConfined affinity copied enable_tso = enable-IsConfined p fits m cpu t good busy affinity
  ioctl-IsConfined affinity copied disable_mm = disable-IsConfined p fits m cpu t good busy
  ioctl-IsConfined affinity copied query = query-IsConfined copied affinity
  ioctl-IsConfined affinity copied other = good
