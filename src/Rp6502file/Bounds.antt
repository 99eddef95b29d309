-- ===== src/Rp6502file/Bounds.antt =====
-- The two address spaces of a chunk, the 64 KB of RAM and the 64 KB of XRAM behind them, and the
-- test of `readRp6502File` for them.
use dis.Base.{ℕ, ◌+◌, ◌^◌, ◌≤◌, ◌<◌, ◌≡◌, ◌⊎◌, inl, inr, arith, true, false, ltb}
use dis.Rp6502file.Parse.{chunk_max, is_out_of_range}

-- A chunk has bytes, and lies in RAM or in XRAM as a whole.
abbrev pub IsInRange : ℕ → ℕ → Type 0
IsInRange addr len =
    (0 < len) × ((addr + len ≤ 0x10000) ⊎ ((0x10000 ≤ addr) × (addr + len ≤ 0x20000)))

-- An address and a length of 32 bits that are no such chunk: none of its bytes, more than one of
-- the spaces holds, over the end of RAM, or over the end of XRAM.
abbrev pub IsOutside : ℕ → ℕ → Type 0
IsOutside addr len =
    (addr < 2 ^ 32)
    × (len < 2 ^ 32)
    × ((len ≡ 0)
        ⊎ (0x10000 < len)
        ⊎ ((addr < 0x10000) × (0x10000 < addr + len))
        ⊎ (0x20000 < addr + len))

pub is_in_range_lem : (addr len : ℕ) → IsInRange addr len → is_out_of_range addr len ≡ false
unfolding is_out_of_range
is_in_range_lem addr len (bytes, inl ram) = ground (arith, bytes, ram)
is_in_range_lem addr len (bytes, inr xram) = ground (arith, bytes, xram)

pub is_outside_lem : (addr len : ℕ) → IsOutside addr len → is_out_of_range addr len ≡ true
unfolding is_out_of_range
is_outside_lem addr len (a, l, inl empty) = ground (arith, empty)
is_outside_lem addr len (a, l, inr (inl long)) = ground (arith, long)
is_outside_lem addr len (a, l, inr (inr (inl ram))) = ground (arith, ram)
is_outside_lem addr len (a, l, inr (inr (inr xram))) = ground (arith, a, l, xram)

-- What passes the test fits the payload buffer.
pub payload_fits : (addr len : ℕ) → is_out_of_range addr len ≡ false → ltb chunk_max len ≡ false
unfolding is_out_of_range
payload_fits addr len fits = ground (arith, fits)
