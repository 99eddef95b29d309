-- ===== src/Memory/Dump/Shows.antt =====
-- What `DumpRegions` shows of a valid memory.
use mathlib.Core.List
use dis.Base.{ℕ, ◌+◌, ◌<◌, ◌≡◌, some, List, [], ◌∷◌, length, get_or, min}
use dis.Memory.{Memory, Region, mem_read}
use dis.Memory.Dump.{Dump, region_len, dump_byte}

-- The memory with one region only.
abbrev alone : Memory → Region → Memory
alone m r = record m { regions = r ∷ [] }

-- The first bytes of the region, 16 at most, as `MemRead` gives them where no other region lies
-- over it.
abbrev ShowsRegion : Memory → Dump → Type 0
ShowsRegion m d =
    (length d.shown ≡ min (region_len d.region) 16)
    × ((off : ℕ)
        → off < length d.shown
        → mem_read (alone m d.region) (d.region.start + off) ≡ some (get_or d.shown off 0))

abbrev pub Shows : Memory → ℕ → List Region → List Dump → Type 0
Shows m i [] [] = Unit {0}
Shows m i (r ∷ rs) (d ∷ dumps) =
    (d.index ≡ i) × (d.region ≡ r) × ShowsRegion m d × Shows m (i + 1) rs dumps
Shows m i _ _ = ⊥

-- The byte at an offset inside the region, in the dump and read.
abbrev Same : Memory → Region → ℕ → Type 0
Same m r off =
    (b : ℕ) × (dump_byte r.type m r off ≡ some b) × (mem_read (alone m r) (r.start + off) ≡ some b)
