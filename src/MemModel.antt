-- ===== src/MemModel.antt =====
-- src/kmod/oryx_memmodel: the kernel module that gives a thread the TSO memory mode of its core. `Machine` holds the
-- code of oryx_memmodel.c, the other children what is proved of it.
pub mod Machine
pub mod Control
pub mod Confinement
pub mod Grants
pub mod Device
pub mod Client
pub mod Interleaving
pub mod Served
mod Examples
