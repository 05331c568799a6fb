-- ===== src/Runtime.antt =====
-- src/liboryxrun: the execution runtime. `Linker` and `BlockCache` hold code of oryxrun.c, the other children
-- what is proved of it.
pub mod Linker
pub mod Linked
pub mod Stubs
pub mod Units
pub mod BlockCache
pub mod Dispatcher
pub mod Stepping
pub mod Occupancy
pub mod Refinement
pub mod Decoded
pub mod Regions
pub mod Mappings
pub mod Owned
pub mod Unmapped
pub mod Released
mod Examples
