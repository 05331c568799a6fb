-- ===== src/Translator.antt =====
-- src/liboryxtu: the deterministic translator from guest IR to AArch64. `Encoders`, `Emitter`, `Lowering`
-- and `Block` hold the code of oryxtu.c, the other children what is proved of it.
pub mod Encoders
pub mod Emitter
pub mod Lowering
pub mod Block
pub mod Growth
pub mod Ending
pub mod Shape
pub mod Linkable
pub mod Identity
pub mod Bounds
pub mod Accepts
pub mod Verdict
pub mod Constants
mod Examples
