-- ===== src/Bits.antt =====
-- Binary digits: the laws of `&`, `|` and `^` that the CRC, the masks and the flags rest on.
mod Steps
pub mod Xor
pub mod Mask
pub mod Flags
