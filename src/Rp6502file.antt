-- ===== src/Rp6502file.antt =====
-- rp6502file.c: the reader of RP6502 ROM files.
pub mod Crc
pub mod Parse
pub mod Bounds
pub mod Read
pub mod Load
pub mod Rounds
pub mod Total
pub mod Corrupt
pub mod Format
pub mod Numbers
pub mod Headers
pub mod PlainLines
pub mod Entries
pub mod RoundTrip
pub mod Stops
pub mod Stopped
pub mod Finish
pub mod Ranges
pub mod Image
pub mod Describes
