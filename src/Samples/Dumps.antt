-- ===== src/Samples/Dumps.antt =====
-- The dump of a memory with a ROM and a fill region, and its theorem there.
use dis.Base.{◌≡◌, refl, Option, some, none, List, [], ◌++◌}
use dis.Base.Text.{newline, Text, codes, hex_in}
use dis.Memory.{Memory, caller, map_rom, map_fill, add_region, load}
use dis.Memory.Dump.{Dump, dump_regions, dump_from, dump_bytes, dump_byte, report}
use dis.Memory.Dump.Shows.{Shows}

abbrev unmapped : Memory
unmapped = record {
  regions = [];
  default_fill = 0;
  buffers = λ _. record { size = 4; bytes = λ i. i };
}

abbrev mapped : Memory
mapped = (map_fill (map_rom unmapped 0x200 (caller 0) 3).0 0x8000 32 0xea).0

abbrev printed : Option (List Dump) → Text
printed none = []
printed (some dumps) = report mapped dumps

prints :
    printed (dump_regions mapped)
    ≡ codes "=== 2 region(s) ==="
      ++ newline
      ++ codes "#0: [0200..0202] len=3 type=ROM fill=00 writable=no"
      ++ newline
      ++ codes "     bytes: 00 01 02"
      ++ newline
      ++ codes "#1: [8000..801F] len=32 type=FILL fill=EA writable=no"
      ++ newline
      ++ codes "     bytes: EA EA EA EA EA EA EA EA EA EA EA EA EA EA EA EA ..."
      ++ newline
unfolding dump_regions dump_from dump_bytes dump_byte map_rom map_fill add_region load hex_in
prints = refl
