-- ===== src/Libc.antt =====
-- What the readers use of the C standard library.
pub mod Files
pub mod Numbers
pub mod Lines
pub mod Printed
pub mod Decimals
pub mod PlainLines
pub mod LongLines
