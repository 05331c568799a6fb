-- ===== src/Litmus.antt =====
-- experiments/phase0-tso-probe/litmus/oryx_litmus.c: the litmus tests that tell a weak memory model from TSO. `Harness` holds
-- the code, `Machine` a TSO machine, the other children what the harness counts on it.
pub mod Harness
pub mod Machine
pub mod Todo
pub mod Messages
pub mod Relay
pub mod Causality
pub mod Half
pub mod Sequenced
pub mod Counts
mod Examples
