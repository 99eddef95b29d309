-- ===== src/Memory/Vectors.antt =====
-- `MapResetVector` and `MapVectorPage`, and what is read afterwards.
use dis.Base.{ℕ, ◌+◌, ◌/◌, ◌%◌, ◌<◌, ◌≡◌, arith, true, some, length}
use dis.Base.Bits.{bit_and_byte}
use dis.Memory.{
  Memory, vec, vecpg, load, mem_read, set_byte, low_byte, high_byte, map_reset_vector,
  map_vector_page,
}
use dis.Memory.Map.{mem_read-map}

-- The two bytes at an address are the little-endian `vector`.
abbrev pub Holds : Memory → ℕ → ℕ → Type 0
Holds m addr vector =
    (mem_read m addr ≡ some (vector % 256)) × (mem_read m (addr + 1) ≡ some (vector / 256))

low_byte-eq : (x : ℕ) → low_byte x ≡ x % 256
low_byte-eq x = omega (arith, bit_and_byte x)

high_byte-eq : (x : ℕ) → x < 65536 → high_byte x ≡ x / 256
high_byte-eq x h = omega (arith, bit_and_byte (x / 256))

-- With a 16-bit entry, room for a region and the static array of 2 bytes, MapResetVector succeeds,
-- and then the reset vector reads back as entry, low byte first.
pub map_reset_vector-Holds :
    (m : Memory) (entry : ℕ)
    → entry < 65536
    → length m.regions < 16
    → (m.buffers vec).size ≡ 2
    → ((map_reset_vector m entry).1 ≡ true) × Holds (map_reset_vector m entry).0 0xfffc entry
unfolding map_reset_vector load
map_reset_vector-Holds m entry top room size =
    let m' = set_byte (set_byte m vec 0 (low_byte entry)) vec 1 (high_byte entry) in
    let lo = (mem_read-map m' 0xfffc 2 0 0xfffc vec (omega arith) (omega arith)).0 in
    let hi = (mem_read-map m' 0xfffc 2 0 0xfffd vec (omega arith) (omega arith)).0 in
    (
      ground (arith, lo),
      (
        ground (arith, lo, size, low_byte-eq entry),
        ground (arith, hi, size, high_byte-eq entry top),
      ),
    )

-- With 16-bit vectors, room for a region and the static array of 6 bytes, MapVectorPage succeeds,
-- and then the three vectors read back, low byte first.
pub map_vector_page-Holds :
    (m : Memory) (nmi reset irq : ℕ)
    → nmi < 65536
    → reset < 65536
    → irq < 65536
    → length m.regions < 16
    → (m.buffers vecpg).size ≡ 6
    → ((map_vector_page m nmi reset irq).1 ≡ true)
      × Holds (map_vector_page m nmi reset irq).0 0xfffa nmi
      × Holds (map_vector_page m nmi reset irq).0 0xfffc reset
      × Holds (map_vector_page m nmi reset irq).0 0xfffe irq
unfolding map_vector_page load
map_vector_page-Holds m nmi reset irq n r i room size =
    let a = set_byte (set_byte m vecpg 0 (low_byte nmi)) vecpg 1 (high_byte nmi) in
    let b = set_byte (set_byte a vecpg 2 (low_byte reset)) vecpg 3 (high_byte reset) in
    let c = set_byte (set_byte b vecpg 4 (low_byte irq)) vecpg 5 (high_byte irq) in
    let at = λ (x : ℕ). (mem_read-map c 0xfffa 6 0 x vecpg (omega arith) (omega arith)).0 in
    (
      ground (arith, at 0xfffa),
      (
        ground (arith, at 0xfffa, size, low_byte-eq nmi),
        ground (arith, at 0xfffb, size, high_byte-eq nmi n),
      ),
      (
        ground (arith, at 0xfffc, size, low_byte-eq reset),
        ground (arith, at 0xfffd, size, high_byte-eq reset r),
      ),
      (
        ground (arith, at 0xfffe, size, low_byte-eq irq),
        ground (arith, at 0xffff, size, high_byte-eq irq i),
      ),
    )
