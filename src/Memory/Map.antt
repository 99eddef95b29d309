-- ===== src/Memory/Map.antt =====
-- Mapping a region: what is read afterwards.
use dis.Base.{
  ℕ, ◌+◌, ◌-◌, ◌≤◌, ◌<◌, ◌≡◌, refl, arith, Bool, ◌&&◌, Option, none, some, List, ◌∷◌, ltb, leb,
  if◌then◌else◌, length, inl, inr, Bool-cases, ◌∙◌,
}
use dis.Memory.{
  Memory, Region, RegionType, rom, ram, fill, Pointer, load, add_region, map_rom, map_ram, map_fill,
  max_regions, span_end, covers, offset_in, find_region, read_type, read_found, mem_read,
}

-- A read does not depend on the list of regions once the region is found.
read_found_same :
    (m : Memory) (rs : List Region) (found : Option Region) (x : ℕ)
    → read_found (record m { regions = rs }) found x ≡ read_found m found x
unfolding read_found
read_found_same m rs none x = refl
read_found_same m rs (some r) x = by_type r.type
  where
    by_type :
        (t : RegionType)
        → read_type t (record m { regions = rs }) r (offset_in r x)
          ≡ read_type t m r (offset_in r x)
    by_type rom = unfold read_type load in refl
    by_type ram = unfold read_type load in refl
    by_type fill = unfold read_type load in refl

-- The newest region decides the reads that it covers.
mem_read-newest :
    (m : Memory) (r : Region) (x : ℕ)
    → mem_read (record m { regions = r ∷ m.regions }) x
      ≡ (if covers r x then read_type r.type m r (offset_in r x) else mem_read m x)
unfolding mem_read find_region
mem_read-newest m r x = elim (Bool-cases (covers r x)) [
  | inl c ↦ rw c (read_found_same m (r ∷ m.regions) (some r) x ∙ (unfold read_found in refl))
  | inr c ↦ rw c (read_found_same m (r ∷ m.regions) (find_region m.regions x) x)
]

-- `mapped`, the result of mapping [addr, addr + len), succeeds exactly while there is room for a
-- region, and then it decides exactly the reads inside its span.
abbrev pub Overlays : Memory → ℕ → ℕ → ℕ → Memory × Bool → Option ℕ → Type 0
Overlays m addr len x mapped shown =
    (mapped.1 ≡ ltb (length m.regions) 16)
    × (mem_read mapped.0 x
        ≡ (if mapped.1 && leb addr x && ltb x (addr + len) then shown else mem_read m x))

add_region-Overlays :
    (m : Memory) (addr len x : ℕ) (r : Region)
    → 0 < len
    → addr + len ≤ 65536
    → r.start ≡ addr
    → r.end ≡ span_end addr len
    → (offset : ℕ) → (addr ≤ x → x < addr + len → offset ≡ offset_in r x)
    → Overlays m addr len x (add_region m r) (read_type r.type m r offset)
unfolding add_region
add_region-Overlays m addr len x r pos fits starts ends offset same =
    elim (Bool-cases (leb max_regions (length m.regions))) [
      | inl full ↦ (rw full (ground arith), rw full)
      | inr free ↦ (rw free (ground arith), rw (free, mem_read-newest m r x) (ground arith))
    ]

-- A mapping of at least one byte that ends in the address space succeeds exactly while there are
-- fewer than 16 regions. A ROM or RAM mapping then shows the bytes of its buffer and a FILL
-- mapping its fill byte, over all older mappings, and no read outside the span changes.
pub mem_read-map :
    (m : Memory) (addr len fill_byte x : ℕ) (p : Pointer)
    → 0 < len
    → addr + len ≤ 65536
    → Overlays m addr len x (map_rom m addr p len) (load m p (x - addr))
      × Overlays m addr len x (map_ram m addr p len) (load m p (x - addr))
      × Overlays m addr len x (map_fill m addr len fill_byte) (some fill_byte)
unfolding map_rom map_ram map_fill
mem_read-map m addr len fill_byte x p pos fits =
    let overlays = λ (r : Region) (s : r.start ≡ addr) (e : r.end ≡ span_end addr len).
      add_region-Overlays m addr len x r pos fits s e (x - addr) (λ lo hi. ground arith) in
    (
      unfold read_type in overlays _ refl refl,
      unfold read_type in overlays _ refl refl,
      unfold read_type in overlays _ refl refl,
    )
