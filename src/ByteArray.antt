-- ===== src/ByteArray.antt =====
-- yk/bytearray.h, yk/bytearray.cc.
mod Runs
pub mod State
pub mod Memory
pub mod Layout
pub mod WriteLoop
pub mod ReadLoop
pub mod Contents
pub mod Transfer
pub mod Reading
pub mod Typed
pub mod Sequence
pub mod Append
pub mod Fixed
pub mod Varint
pub mod Zigzag
pub mod Texts
pub mod Export
pub mod Gather
pub mod Files
