-- ===== src/Memory/Dump.antt =====
-- `DumpRegions` in memory.c: the regions, oldest first, each with its first bytes.
pub mod Shows
use mathlib.Core.List.{reverse}
use dis.Base.{
  ℕ, zero, suc, ◌+◌, ◌-◌, Bool, true, false, Option, none, some, List, [], ◌∷◌, ◌++◌, ltb,
  if◌then◌else◌, ◌>>=◌, length, min,
}
use dis.Base.Text.{newline, Text, codes, hex_upper, decimal}
use dis.Memory.{Memory, Region, RegionType, rom, ram, fill, null, pointer_eq, load}

-- `RegionTypeStr`
abbrev pub region_type_str : RegionType → Text
region_type_str rom = codes "ROM"
region_type_str ram = codes "RAM"
region_type_str fill = codes "FILL"

-- `len`, with the guard for an `end` below the `start`.
abbrev pub region_len : Region → ℕ
region_len r = if ltb r.end r.start then 0 else r.end + 1 - r.start

-- The `switch` of `DumpRegions`: one byte, `none` where it would leave the buffer.
unfoldable pub dump_byte : RegionType → Memory → Region → ℕ → Option ℕ
dump_byte rom m r off = if pointer_eq r.bytes_at null then some 0 else load m r.bytes_at off
dump_byte ram m r off = if pointer_eq r.bytes_at null then some 0 else load m r.bytes_at off
dump_byte fill m r off = some r.fill_byte

-- The loop over the bytes, from `off` with `left` rounds left.
unfoldable pub dump_bytes : Memory → Region → ℕ → ℕ → Option (List ℕ)
dump_bytes m r off zero = some []
dump_bytes m r off (suc left) = do
  b ← dump_byte r.type m r off
  bytes ← dump_bytes m r (off + 1) left
  some (b ∷ bytes)

-- What is printed of one region.
pub record Dump : Type 0 where
  pub index : ℕ
  pub region : Region
  pub shown : List ℕ

-- The loop over the regions, from `g_regions[i]` on.
unfoldable pub dump_from : Memory → ℕ → List Region → Option (List Dump)
dump_from m i [] = some []
dump_from m i (r ∷ rs) = do
  bytes ← dump_bytes m r 0 (min (region_len r) 16)
  dumps ← dump_from m (i + 1) rs
  some (record { index = i; region = r; shown = bytes } ∷ dumps)

-- `DumpRegions`
unfoldable pub dump_regions : Memory → Option (List Dump)
dump_regions m = dump_from m 0 (reverse m.regions)

abbrev shown_text : List ℕ → Text
shown_text [] = []
shown_text (b ∷ bytes) = codes " " ++ (hex_upper 2 b ++ shown_text bytes)

-- The text of a region.
abbrev pub dump_text : Dump → Text
dump_text d =
    codes "#"
    ++ decimal 10 d.index
    ++ codes ": ["
    ++ hex_upper 4 d.region.start
    ++ codes ".."
    ++ hex_upper 4 d.region.end
    ++ codes "] len="
    ++ decimal 10 (region_len d.region)
    ++ codes " type="
    ++ region_type_str d.region.type
    ++ codes " fill="
    ++ hex_upper 2 d.region.fill_byte
    ++ codes " writable="
    ++ (if d.region.writable then codes "yes" else codes "no")
    ++ newline
    ++ codes "     bytes:"
    ++ shown_text d.shown
    ++ (if ltb 16 (region_len d.region) then codes " ..." else [])
    ++ newline

abbrev dumps_text : List Dump → Text
dumps_text [] = []
dumps_text (d ∷ dumps) = dump_text d ++ dumps_text dumps

-- All that `DumpRegions` prints.
abbrev pub report : Memory → List Dump → Text
report m dumps =
    codes "=== "
    ++ decimal 10 (length m.regions)
    ++ codes " region(s) ==="
    ++ newline
    ++ dumps_text dumps
