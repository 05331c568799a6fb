-- ===== src/Probe.antt =====
-- experiments/phase0-tso-probe/probe/oryx_probe.c, a kernel module that reads and writes the candidates for the control bit.
pub mod Log
pub mod Registers
pub mod Commands
pub mod Bits
pub mod Access
pub mod Poked
pub mod Control
pub mod Reachable
mod Examples
