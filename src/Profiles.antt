-- ===== src/Profiles.antt =====
-- src/liboryxprofile: the tuning profiles. `Text`, `Format`, `Ranking` and `Env` hold the code of profile.c, the
-- other children what is proved of it.
pub mod Text
pub mod Format
pub mod Ranking
pub mod Env
pub mod Best
pub mod Rendered
pub mod Ordering
pub mod Sized
pub mod Command
pub mod Launch
mod Examples
