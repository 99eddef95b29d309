-- ===== src/Rp6502file/Crc.antt =====
-- `Rp6502Crc32` in rp6502file.c: the CRC-32 by a table of 16 entries, two nibbles a byte.
pub mod Bitwise
pub mod Detects
use dis.Base.{ℕ, ◌-◌, ◌/◌, List, [], ◌∷◌, get_or, bit_and, bit_xor}

-- `table`
abbrev pub crc_table : List ℕ
crc_table =
    0x00000000 ∷ 0x1db71064 ∷ 0x3b6e20c8 ∷ 0x26d930ac ∷ 0x76dc4190 ∷ 0x6b6b51f4 ∷ 0x4db26158
    ∷ 0x5005713c ∷ 0xedb88320 ∷ 0xf00f9344 ∷ 0xd6d6a3e8 ∷ 0xcb61b38c ∷ 0x9b64c2b0 ∷ 0x86d3d2d4
    ∷ 0xa00ae278 ∷ 0xbdbdf21c ∷ []

-- `(crc >> 4) ^ table[(crc ^ n) & 0x0f]`
unfoldable pub crc_nibble : ℕ → ℕ → ℕ
crc_nibble crc n = bit_xor (crc / 16) (get_or crc_table (bit_and (bit_xor crc n) 0x0f) 0)

-- The loop over `data`.
unfoldable pub crc_loop : ℕ → List ℕ → ℕ
crc_loop crc [] = crc
crc_loop crc (b ∷ bytes) = crc_loop (crc_nibble (crc_nibble crc b) (b / 16)) bytes

-- `Rp6502Crc32`; `~` on 32 bits is the difference to 0xffffffff.
unfoldable pub rp6502_crc32 : List ℕ → ℕ
rp6502_crc32 bytes = 0xffffffff - crc_loop 0xffffffff bytes
