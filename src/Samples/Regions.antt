-- ===== src/Samples/Regions.antt =====
-- Tests of the sparse memory, and its theorems at a concrete one.
use dis.Base.{ℕ, ◌-◌, ◌≡◌, refl, arith, true, ◌&&◌, if◌then◌else◌, Option, some, none, []}
use dis.Memory.{
  Memory, Buffer, Pointer, vec, vecpg, caller, map_rom, map_ram, map_fill, map_reset_vector,
  map_vector_page, mem_read, mem_write, add_region, find_region, read_found, read_type, write_found,
  load, store,
}
use dis.Memory.Map.{Overlays, mem_read-map}
use dis.Memory.Access.{writes_at, same_cell, cell_of, mem_read-mem_write}
use dis.Memory.Valid.{IsValid, accesses-IsValid, map-IsValid}
use dis.Memory.Vectors.{Holds, map_reset_vector-Holds, map_vector_page-Holds}

-- The arrays of the two vector mappings, and buffers of 16 bytes.
abbrev sized : Pointer → Buffer
sized vec = record { size = 2; bytes = λ _. 0 }
sized vecpg = record { size = 6; bytes = λ _. 0 }
sized _ = record { size = 16; bytes = λ i. i }

abbrev unmapped : Memory
unmapped = record { regions = []; default_fill = 0xff; buffers = sized }

-- 16 bytes of RAM at 0200, and the same buffer once more at 0300.
abbrev shared : Memory
shared = (map_ram (map_ram unmapped 0x200 (caller 0) 16).0 0x300 (caller 0) 16).0

-- A byte written through one of two regions is read through the other.
abbrev read_back : Option Memory → ℕ → Option ℕ
read_back none x = none
read_back (some m) x = mem_read m x

shared_write : read_back (mem_write shared 0x203 0xaa) 0x303 ≡ some 0xaa
unfolding map_ram add_region mem_write mem_read find_region read_found read_type write_found load
    store
shared_write = refl

unmapped_read : mem_read shared 0x1ff ≡ some 0xff
unfolding map_ram add_region mem_read find_region read_found
unmapped_read = refl

abbrev or_unmapped : Option Memory → Memory
or_unmapped none = unmapped
or_unmapped (some m) = m

written : Memory
written = or_unmapped (mem_write shared 0x203 0xaa)

write_returns : mem_write shared 0x203 0xaa ≡ some written
unfolding written map_ram add_region mem_write find_region write_found store
write_returns = refl

mem_read-mem_write_example : mem_read written 0x303 ≡ (
    if writes_at shared 0x203 && same_cell (cell_of shared 0x203) (cell_of shared 0x303)
    then some 0xaa
    else mem_read shared 0x303)
mem_read-mem_write_example = mem_read-mem_write shared written 0x203 0x303 0xaa write_returns

mem_read-map_example :
    Overlays unmapped 0x200 16 0x20f
      (map_rom unmapped 0x200 (caller 0) 16)
      (load unmapped (caller 0) (0x20f - 0x200))
    × Overlays unmapped 0x200 16 0x20f
        (map_ram unmapped 0x200 (caller 0) 16)
        (load unmapped (caller 0) (0x20f - 0x200))
    × Overlays unmapped 0x200 16 0x20f (map_fill unmapped 0x200 16 0xea) (some 0xea)
mem_read-map_example =
    mem_read-map unmapped 0x200 16 0xea 0x20f (caller 0) (omega arith) (omega arith)

map-IsValid_example :
    IsValid (map_rom unmapped 0xfff8 (caller 0) 16).0
    × IsValid (map_ram unmapped 0xfff8 (caller 0) 16).0
    × IsValid (map_fill unmapped 0xfff8 16 0xea).0
map-IsValid_example =
    map-IsValid unmapped 0xfff8 16 0xea (caller 0) (omega arith) (omega arith) (omega arith) refl
      (omega arith) (omega arith)

shared-IsValid : IsValid shared
shared-IsValid =
    (map-IsValid (map_ram unmapped 0x200 (caller 0) 16).0 0x300 16 0 (caller 0) (omega arith)
      (omega arith) (omega arith) refl (unfold map_ram add_region in omega arith)
      (map-IsValid unmapped 0x200 16 0 (caller 0) (omega arith) (omega arith) (omega arith) refl
        (omega arith) (omega arith)).1).1

accesses-IsValid_example :
    ((v : ℕ) × (mem_read shared 0x203 ≡ some v))
    × ((m' : Memory) × (mem_write shared 0x203 0xaa ≡ some m')
        × IsValid m'
        × (m'.regions ≡ shared.regions))
accesses-IsValid_example = accesses-IsValid shared 0x203 0xaa (omega arith) shared-IsValid

map_reset_vector-Holds_example :
    ((map_reset_vector unmapped 0x1234).1 ≡ true)
    × Holds (map_reset_vector unmapped 0x1234).0 0xfffc 0x1234
map_reset_vector-Holds_example =
    map_reset_vector-Holds unmapped 0x1234 (omega arith) (omega arith) refl

map_vector_page-Holds_example :
    ((map_vector_page unmapped 0x200 0x1234 0x300).1 ≡ true)
    × Holds (map_vector_page unmapped 0x200 0x1234 0x300).0 0xfffa 0x200
    × Holds (map_vector_page unmapped 0x200 0x1234 0x300).0 0xfffc 0x1234
    × Holds (map_vector_page unmapped 0x200 0x1234 0x300).0 0xfffe 0x300
map_vector_page-Holds_example =
    map_vector_page-Holds unmapped 0x200 0x1234 0x300 (omega arith) (omega arith) (omega arith)
      (omega arith) refl
