-- ===== src/Samples/Checksums.antt =====
-- Tests of the CRC-32, and its theorems at concrete payloads.
use dis.Base.{ℕ, ◌-◌, ◌≡◌, refl, arith, List, [], ◌∷◌}
use dis.Base.Text.{codes}
use dis.Rp6502file.Crc.{crc_nibble, crc_loop, rp6502_crc32}
use dis.Rp6502file.Crc.Bitwise.{bitwise_loop, rp6502_crc32-eq}

-- The check value of rp6502file.h.
check_value : rp6502_crc32 (codes "123456789") ≡ 0xcbf43926
unfolding rp6502_crc32 crc_loop crc_nibble
check_value = refl

abbrev payload : List ℕ
payload = 0xa9 ∷ 0x42 ∷ 0x60 ∷ []

rp6502_crc32-eq_example : rp6502_crc32 payload ≡ 0xffffffff - bitwise_loop 0xffffffff payload
rp6502_crc32-eq_example = rp6502_crc32-eq payload (omega arith)
