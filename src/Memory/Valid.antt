-- ===== src/Memory/Valid.antt =====
-- A memory whose regions lie inside their buffers.
use dis.Base.{
  ℕ, ◌+◌, ◌≤◌, ◌<◌, ◌≡◌, ◌⊎◌, refl, arith, subst, Bool, true, false, ◌&&◌, Option, none, some, List,
  [], ◌∷◌, leb, length, inl, inr, Bool-cases,
}
use dis.Memory.{
  Memory, Region, RegionType, rom, ram, fill, Pointer, null, Buffer, pointer_eq, load, store,
  set_byte, add_region, map_rom, map_ram, map_fill, max_regions, covers, offset_in, find_region,
  read_type, read_found, mem_read, is_ram, write_found, mem_write,
}

abbrev is_fill : RegionType → Bool
is_fill fill = true
is_fill _ = false

-- The span of a ROM or RAM region fits its buffer.
abbrev pub IsBacked : (Pointer → Buffer) → Region → Type 0
IsBacked buffers r =
    (r.start ≤ 65535)
    × ((is_fill r.type ≡ true)
        ⊎ (pointer_eq r.bytes_at null ≡ false) × (r.end < r.start + (buffers r.bytes_at).size))

abbrev pub AllBacked : (Pointer → Buffer) → List Region → Type 0
AllBacked buffers [] = Unit
AllBacked buffers (r ∷ rs) = IsBacked buffers r × AllBacked buffers rs

abbrev pub IsValid : Memory → Type 0
IsValid m = AllBacked m.buffers m.regions

find_region-IsBacked :
    (buffers : Pointer → Buffer) (rs : List Region) (x : ℕ) (r : Region)
    → AllBacked buffers rs
    → find_region rs x ≡ some r
    → IsBacked buffers r × (r.start ≤ x) × (x ≤ r.end)
unfolding find_region
find_region-IsBacked buffers [] x r all e = cc
find_region-IsBacked buffers (s ∷ rs) x r all e = elim (Bool-cases (covers s x)) [
  | inl c ↦
      let found : some s ≡ some r = rw c at e in
      let same : s ≡ r = cc in
      subst (λ (t : Region). IsBacked buffers t × (t.start ≤ x) × (x ≤ t.end)) same
        (all.0, ground arith, ground arith)
  | inr c ↦ find_region-IsBacked buffers rs x r all.1 (rw c at e)
]

sizes-AllBacked :
    (b b' : Pointer → Buffer) (rs : List Region)
    → ((q : Pointer) → (b' q).size ≡ (b q).size)
    → AllBacked b rs
    → AllBacked b' rs
sizes-AllBacked b b' [] same all = all
sizes-AllBacked b b' (r ∷ rs) same all =
    (ground (arith, same r.bytes_at), sizes-AllBacked b b' rs same all.1)

-- What the newest region of `x` guarantees.
abbrev Guaranteed : Memory → ℕ → Region → Type 0
Guaranteed m x r = IsBacked m.buffers r × (r.start ≤ x) × (x ≤ r.end)

read_type-some :
    (m : Memory) (x : ℕ) (r : Region) (t : RegionType)
    → x < 65536
    → r.type ≡ t
    → Guaranteed m x r
    → (v : ℕ) × (read_type t m r (offset_in r x) ≡ some v)
unfolding read_type load
read_type-some m x r rom top e g = ((m.buffers r.bytes_at).bytes (offset_in r x), ground arith)
read_type-some m x r ram top e g = ((m.buffers r.bytes_at).bytes (offset_in r x), ground arith)
read_type-some m x r fill top e g = (r.fill_byte, refl)

read_found-some :
    (m : Memory) (x : ℕ) (found : Option Region)
    → x < 65536
    → ((r : Region) → found ≡ some r → Guaranteed m x r)
    → (v : ℕ) × (read_found m found x ≡ some v)
unfolding read_found
read_found-some m x none top g = (m.default_fill, refl)
read_found-some m x (some r) top g = read_type-some m x r r.type top refl (g r refl)

-- A write either changes nothing or stores one byte inside a buffer.
write_found-cases :
    (m : Memory) (x val : ℕ) (found : Option Region)
    → x < 65536
    → ((r : Region) → found ≡ some r → Guaranteed m x r)
    → (write_found m found x val ≡ some m)
      ⊎ ((p : Pointer) × (off : ℕ) × (write_found m found x val ≡ some (set_byte m p off val)))
unfolding write_found store
write_found-cases m x val none top g = inl refl
write_found-cases m x val (some r) top g = elim (Bool-cases (r.writable && is_ram r.type)) [
  | inr skip ↦ inl (rw skip)
  | inl goes ↦ inr (r.bytes_at, offset_in r x, let h = g r refl in ground (arith, h))
]

size-set_byte :
    (m : Memory) (p q : Pointer) (off val : ℕ)
    → ((set_byte m p off val).buffers q).size ≡ (m.buffers q).size
size-set_byte m p q off val = ground arith

-- In a valid memory MemRead of a 16-bit address gives a byte, and MemWrite to it returns a valid
-- memory with the same regions: neither leaves a buffer.
pub accesses-IsValid :
    (m : Memory) (x val : ℕ)
    → x < 65536
    → IsValid m
    → ((v : ℕ) × (mem_read m x ≡ some v))
      × ((m' : Memory) × (mem_write m x val ≡ some m') × IsValid m' × (m'.regions ≡ m.regions))
unfolding mem_read mem_write
accesses-IsValid m x val top ok =
    let found = λ (r : Region) (e : find_region m.regions x ≡ some r).
      find_region-IsBacked m.buffers m.regions x r ok e in
    (
      read_found-some m x (find_region m.regions x) top found,
      elim (write_found-cases m x val (find_region m.regions x) top found) [
        | inl e ↦ (m, e, ok, refl)
        | inr (p, off, e) ↦ (
          set_byte m p off val,
          e,
          sizes-AllBacked m.buffers (set_byte m p off val).buffers m.regions
              (λ q. size-set_byte m p q off val) ok,
          refl,
        )
      ],
    )

add_region-IsValid :
    (m : Memory) (r : Region) → IsBacked m.buffers r → IsValid m → IsValid (add_region m r).0
unfolding add_region
add_region-IsValid m r backed ok = elim (Bool-cases (leb max_regions (length m.regions))) [
  | inl full ↦ rw full ok
  | inr free ↦ rw free (backed, ok)
]

-- At a 16-bit address and for 1 to 65535 bytes, MapROM and MapRAM of a buffer with as many bytes,
-- and MapFill, keep a memory valid, also where they run past the top of the address space.
pub map-IsValid :
    (m : Memory) (addr len fill_byte : ℕ) (p : Pointer)
    → addr < 65536
    → 0 < len
    → len < 65536
    → pointer_eq p null ≡ false
    → len ≤ (m.buffers p).size
    → IsValid m
    → IsValid (map_rom m addr p len).0
      × IsValid (map_ram m addr p len).0
      × IsValid (map_fill m addr len fill_byte).0
unfolding map_rom map_ram map_fill
map-IsValid m addr len fill_byte p top pos len_top real fits ok = (
  add_region-IsValid m _ (ground arith) ok,
  add_region-IsValid m _ (ground arith) ok,
  add_region-IsValid m _ (omega arith, inl refl) ok,
)
