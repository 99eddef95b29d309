-- ===== src/Memory/Access.antt =====
-- `MemRead` and `MemWrite`: what a write changes.
use dis.Base.{
  ℕ, ◌≡◌, refl, arith, ap, Bool, true, false, ◌&&◌, Option, none, some, ◌==◌, ==_iff, if◌then◌else◌,
}
use dis.Memory.{
  Memory, Region, fill, Pointer, null, vec, vecpg, caller, pointer_eq, load, store, offset_in,
  find_region, read_type, read_found, mem_read, is_ram, write_found, mem_write,
}

-- The byte of a buffer that an address stands for, if it stands for one.
pub record Cell : Type 0 where
  pub buffer : Pointer
  pub offset : ℕ

abbrev pub cell_in : Option Region → ℕ → Option Cell
cell_in none x = none
cell_in (some r) x = elim r.type [
  | fill ↦ none
  | _ ↦ some (record { buffer = r.bytes_at; offset = offset_in r x })
]

abbrev pub cell_of : Memory → ℕ → Option Cell
cell_of m x = cell_in (find_region m.regions x) x

abbrev pub is_writable : Option Region → Bool
is_writable none = false
is_writable (some r) = r.writable && is_ram r.type

abbrev pub writes_at : Memory → ℕ → Bool
writes_at m x = is_writable (find_region m.regions x)

abbrev pub same_cell : Option Cell → Option Cell → Bool
same_cell (some c) (some d) = pointer_eq c.buffer d.buffer && c.offset == d.offset
same_cell _ _ = false

pointer_eq→eq : (p q : Pointer) → pointer_eq p q ≡ true → p ≡ q
pointer_eq→eq null null h = refl
pointer_eq→eq vec vec h = refl
pointer_eq→eq vecpg vecpg h = refl
pointer_eq→eq (caller i) (caller j) h = ap caller ((==_iff i j).0 h)
pointer_eq→eq p q h = cc

pointer_eq_refl : (p : Pointer) → pointer_eq p p ≡ true
pointer_eq_refl null = refl
pointer_eq_refl vec = refl
pointer_eq_refl vecpg = refl
pointer_eq_refl (caller i) = (==_iff i i).1 refl

pointer_eq_comm : (p q : Pointer) → pointer_eq p q ≡ pointer_eq q p
pointer_eq_comm (caller i) (caller j) = ground arith
pointer_eq_comm null q = ground arith
pointer_eq_comm p q = ground arith

-- What a store makes of a load.
load-store :
    (m m' : Memory) (p q : Pointer) (off j val : ℕ)
    → store m p off val ≡ some m'
    → (m'.regions ≡ m.regions)
      × (m'.default_fill ≡ m.default_fill)
      × (load m' q j ≡ (if pointer_eq q p && j == off then some val else load m q j))
unfolding store load
load-store m m' p q off j val h = ground (arith, pointer_eq→eq q p)

-- A write that returns, through the newest region of `x`.
write_found-load :
    (m m' : Memory) (found : Option Region) (x val : ℕ) (q : Pointer) (j : ℕ)
    → write_found m found x val ≡ some m'
    → (m'.regions ≡ m.regions)
      × (m'.default_fill ≡ m.default_fill)
      × (load m' q j ≡ (
          if is_writable found
            && same_cell (cell_in found x) (some (record { buffer = q; offset = j }))
          then some val
          else load m q j))
unfolding write_found
write_found-load m m' none x val q j h = let same : m ≡ m' = cc in rw (← same) (refl, refl, refl)
write_found-load m m' (some r) x val q j h =
    ground (arith, load-store m m' r.bytes_at q (offset_in r x) j val, pointer_eq_comm q r.bytes_at)

-- A read of `y` through its newest region, in terms of the loads.
read_found-load :
    (m m' : Memory) (wrote : Bool) (cell : Option Cell) (found : Option Region) (y val : ℕ)
    → m'.default_fill ≡ m.default_fill
    → ((q : Pointer) (j : ℕ)
        → load m' q j ≡ (
            if wrote && same_cell cell (some (record { buffer = q; offset = j }))
            then some val
            else load m q j))
    → read_found m' found y
      ≡ (if wrote && same_cell cell (cell_in found y) then some val else read_found m found y)
unfolding read_found read_type
read_found-load m m' wrote cell none y val filled loads = ground arith
read_found-load m m' wrote cell (some r) y val filled loads =
    ground (arith, loads r.bytes_at (offset_in r y))

-- After a MemWrite that returns, MemRead gives the written byte exactly if the write went to RAM
-- and both addresses stand for the same byte of a buffer, whether through one region or through
-- two that share it; every other read is what it was.
pub mem_read-mem_write :
    (m m' : Memory) (x y val : ℕ)
    → mem_write m x val ≡ some m'
    → mem_read m' y
      ≡ (if writes_at m x && same_cell (cell_of m x) (cell_of m y) then some val else mem_read m y)
unfolding mem_write mem_read
mem_read-mem_write m m' x y val h =
    let found = find_region m.regions x in
    let kept = write_found-load m m' found x val null 0 h in
    simp kept.0 (
      read_found-load m m' (is_writable found) (cell_in found x) (find_region m.regions y) y val
        kept.1 (λ q j. (write_found-load m m' found x val q j h).2))
