-- ===== src/MemoryMap.antt =====
-- src/liboryxmap: the offline memory-class map. `Entries` and `Format` hold the code of oryxmap.c, the
-- other children what is proved of it.
pub mod Entries
pub mod Format
pub mod Classifier
pub mod Soundness
pub mod Decision
pub mod Search
pub mod RoundTrip
pub mod Parse
pub mod Cached
mod Examples
