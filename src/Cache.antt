-- ===== src/Cache.antt =====
-- src/liboryxcache: the content-addressed translation cache. `Format` and `Store` hold the code of
-- oryxcache.c, the other children what is proved of it.
pub mod Format
pub mod RoundTrip
pub mod Store
pub mod Integrity
pub mod Reading
pub mod Command
pub mod Session
mod Examples
