-- ===== src/Decoder.antt =====
-- src/liboryxdec: the decoder of one x86-64 basic block into the guest IR. `Reader`, `Instructions` and
-- `Block` hold the code of oryxdec.c, the other children what is proved of it.
pub mod Reader
pub mod Instructions
pub mod Block
pub mod Bounds
pub mod Labels
pub mod Forms
pub mod Total
pub mod Encoding
pub mod Reading
pub mod RoundTrip
pub mod Assembled
pub mod Conditions
mod Examples
