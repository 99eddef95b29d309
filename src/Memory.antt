-- ===== src/Memory.antt =====
-- memory.c: the sparse address space. The three globals are the fields of `Memory`. A `data`
-- pointer names a buffer, so that two regions may share one, and the buffers' contents are part of
-- the state. An access outside its buffer, which C leaves undefined, is `none`.
pub mod Map
pub mod Access
pub mod Valid
pub mod Vectors
pub mod Dump
use Prim.Native.Nat.{bit_and}
use dis.Base.{
  ℕ, zero, suc, ◌+◌, ◌-◌, ◌*◌, ◌/◌, Bool, true, false, not, ◌&&◌, ◌||◌, Option, none, some, List,
  [], ◌∷◌, ◌++◌, ltb, leb, ◌==◌, if◌then◌else◌, u8, u16, length,
}
use dis.Base.Table.{update}

-- `MAX_REGIONS`
abbrev pub max_regions : ℕ
max_regions = 16

pub data RegionType : Type 0 where
  rom ram fill : RegionType

-- What a `data` pointer may point at: nothing, the static arrays of `MapResetVector` and
-- `MapVectorPage`, or a buffer of a caller.
pub data Pointer : Type 0 where
  null vec vecpg : Pointer
  caller : ℕ → Pointer

abbrev pub pointer_eq : Pointer → Pointer → Bool
pointer_eq null null = true
pointer_eq vec vec = true
pointer_eq vecpg vecpg = true
pointer_eq (caller i) (caller j) = i == j
pointer_eq _ _ = false

pub record Region : Type 0 where
  pub start : ℕ
  pub end : ℕ
  pub type : RegionType
  pub bytes_at : Pointer
  pub fill_byte : ℕ
  pub writable : Bool

pub record Buffer : Type 0 where
  pub size : ℕ
  pub bytes : ℕ → ℕ

-- `regions` is `g_regions[0 .. g_region_count)`, the newest first.
pub record Memory : Type 0 where
  pub regions : List Region
  pub default_fill : ℕ
  pub buffers : Pointer → Buffer

-- One byte of a buffer, read or written.
unfoldable pub load : Memory → Pointer → ℕ → Option ℕ
load m p off =
    if pointer_eq p null || not (ltb off (m.buffers p).size)
    then none
    else some ((m.buffers p).bytes off)

abbrev pub set_byte : Memory → Pointer → ℕ → ℕ → Memory
set_byte m p off val = record m {
  buffers = λ q.
      if pointer_eq q p
      then record (m.buffers q) { bytes = update (m.buffers q).bytes off val }
      else m.buffers q;
}

unfoldable pub store : Memory → Pointer → ℕ → ℕ → Option Memory
store m p off val =
    if pointer_eq p null || not (ltb off (m.buffers p).size)
    then none
    else some (set_byte m p off val)

-- `add_region`
unfoldable pub add_region : Memory → Region → Memory × Bool
add_region m r =
    if leb max_regions (length m.regions)
    then (m, false)
    else (record m { regions = r ∷ m.regions }, true)

-- The `.end` of a new region.
abbrev pub span_end : ℕ → ℕ → ℕ
span_end addr len = u16 (addr + (if len == 0 then 0 else u16 (len - 1)))

-- `MapROM`, `MapRAM` and `MapFill`
unfoldable pub map_rom : Memory → ℕ → Pointer → ℕ → Memory × Bool
map_rom m addr bytes_at len = add_region m (record {
  start = addr;
  end = span_end addr len;
  type = rom;
  bytes_at = bytes_at;
  fill_byte = 0;
  writable = false;
})

unfoldable pub map_ram : Memory → ℕ → Pointer → ℕ → Memory × Bool
map_ram m addr storage len = add_region m (record {
  start = addr;
  end = span_end addr len;
  type = ram;
  bytes_at = storage;
  fill_byte = 0;
  writable = true;
})

unfoldable pub map_fill : Memory → ℕ → ℕ → ℕ → Memory × Bool
map_fill m addr len fill_byte = add_region m (record {
  start = addr;
  end = span_end addr len;
  type = fill;
  bytes_at = null;
  fill_byte = fill_byte;
  writable = false;
})

-- `MemSetDefaultFill`
unfoldable pub mem_set_default_fill : Memory → ℕ → Memory
mem_set_default_fill m fill_byte = record m { default_fill = fill_byte }

-- `x & 0xFF` and `(x >> 8) & 0xFF`
abbrev pub low_byte : ℕ → ℕ
low_byte x = u8 (bit_and x 0xff)

abbrev pub high_byte : ℕ → ℕ
high_byte x = u8 (bit_and (x / 256) 0xff)

-- `MapResetVector`: the static array is written whether or not the region still fits.
unfoldable pub map_reset_vector : Memory → ℕ → Memory × Bool
map_reset_vector m entry =
    let m' = set_byte (set_byte m vec 0 (low_byte entry)) vec 1 (high_byte entry) in
    map_rom m' 0xfffc vec 2

-- `MapVectorPage`
unfoldable pub map_vector_page : Memory → ℕ → ℕ → ℕ → Memory × Bool
map_vector_page m nmi reset irq =
    let m' = set_byte (set_byte m vecpg 0 (low_byte nmi)) vecpg 1 (high_byte nmi) in
    let m'' = set_byte (set_byte m' vecpg 2 (low_byte reset)) vecpg 3 (high_byte reset) in
    let m''' = set_byte (set_byte m'' vecpg 4 (low_byte irq)) vecpg 5 (high_byte irq) in
    map_rom m''' 0xfffa vecpg 6

abbrev pub covers : Region → ℕ → Bool
covers r addr = leb r.start addr && leb addr r.end

-- The loop of `MemRead` and `MemWrite`: the newest region that holds the address.
unfoldable pub find_region : List Region → ℕ → Option Region
find_region [] addr = none
find_region (r ∷ rs) addr = if covers r addr then some r else find_region rs addr

-- `(uint16_t)(addr - r->start)`
abbrev pub offset_in : Region → ℕ → ℕ
offset_in r addr = u16 (addr + 65536 - r.start)

-- The `switch` of `MemRead`.
unfoldable pub read_type : RegionType → Memory → Region → ℕ → Option ℕ
read_type rom m r off = load m r.bytes_at off
read_type ram m r off = load m r.bytes_at off
read_type fill m r off = some r.fill_byte

unfoldable pub read_found : Memory → Option Region → ℕ → Option ℕ
read_found m none addr = some m.default_fill
read_found m (some r) addr = read_type r.type m r (offset_in r addr)

-- `MemRead`
unfoldable pub mem_read : Memory → ℕ → Option ℕ
mem_read m addr = read_found m (find_region m.regions addr) addr

abbrev pub is_ram : RegionType → Bool
is_ram ram = true
is_ram _ = false

unfoldable pub write_found : Memory → Option Region → ℕ → ℕ → Option Memory
write_found m none addr val = some m
write_found m (some r) addr val =
    if r.writable && is_ram r.type then store m r.bytes_at (offset_in r addr) val else some m

-- `MemWrite`
unfoldable pub mem_write : Memory → ℕ → ℕ → Option Memory
mem_write m addr val = write_found m (find_region m.regions addr) addr val
