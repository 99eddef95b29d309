-- ===== src/Hexfile/Ranges.antt =====
-- What a list of lines says of the address space: its bytes, and the range that they lie in.
use dis.Base.{
  some, none, ℕ, ◌+◌, ◌-◌, ◌≤◌, ◌≡◌, refl, arith, false, ltb, ◌==◌, if◌then◌else◌, List, [], ◌∷◌,
  length, All, Option,
}
use dis.Rp6502file.Image.{byte_after}
use dis.Hexfile.{HexError, invalid_file, no_run_address}
use dis.Hexfile.Format.{Part, stored, typed, skipped}

-- Some bytes, inside the address space.
abbrev pub IsInside : Part → Type 0
IsInside (stored r) = (1 ≤ length r.payload) × (r.addr + length r.payload ≤ 65536)
IsInside (typed type r) = Unit {0}
IsInside (skipped text) = Unit {0}

-- A byte of the address space after the data records in order.
abbrev pub byte_of_parts : List Part → ℕ → Option ℕ → Option ℕ
byte_of_parts [] y old = old
byte_of_parts (stored r ∷ ps) y old = byte_of_parts ps y (byte_after r.addr r.payload y old)
byte_of_parts (typed type r ∷ ps) y old = byte_of_parts ps y old
byte_of_parts (skipped text ∷ ps) y old = byte_of_parts ps y old

abbrev pub larger : ℕ → ℕ → ℕ
larger a b = if ltb a b then b else a

-- The first address of a data record that is not 0, the last address of one, and the number of
-- bytes in the records.
abbrev pub first_addr : List Part → ℕ
first_addr [] = 0
first_addr (stored r ∷ ps) = if r.addr == 0 then first_addr ps else r.addr
first_addr (typed type r ∷ ps) = first_addr ps
first_addr (skipped text ∷ ps) = first_addr ps

abbrev pub last_addr : List Part → ℕ
last_addr [] = 0
last_addr (stored r ∷ ps) = larger (r.addr + length r.payload - 1) (last_addr ps)
last_addr (typed type r ∷ ps) = last_addr ps
last_addr (skipped text ∷ ps) = last_addr ps

abbrev pub count_bytes : List Part → ℕ
count_bytes [] = 0
count_bytes (stored r ∷ ps) = length r.payload + count_bytes ps
count_bytes (typed type r ∷ ps) = length r.payload + count_bytes ps
count_bytes (skipped text ∷ ps) = count_bytes ps

-- The range that is found is one, and not empty.
pub first_addr_le :
    (ps : List Part)
    → All IsInside ps
    → (first_addr ps ≤ last_addr ps) × (first_addr ps ≤ 65535) × (last_addr ps ≤ 65535)
first_addr_le [] inside = (omega arith, omega arith, omega arith)
first_addr_le (stored r ∷ ps) inside =
    let (order, low, high) = first_addr_le ps inside.1 in ground (arith, order, low, high, inside.0)
first_addr_le (typed type r ∷ ps) inside = first_addr_le ps inside.1
first_addr_le (skipped text ∷ ps) inside = first_addr_le ps inside.1

pub counts :
    (ps : List Part)
    → All IsInside ps
    → (first_addr ps == 0) ≡ false
    → (count_bytes ps == 0) ≡ false
counts [] inside started = ground arith
counts (stored r ∷ ps) inside started = ground (arith, inside.0)
counts (typed type r ∷ ps) inside started = ground (arith, counts ps inside.1 started)
counts (skipped text ∷ ps) inside started = counts ps inside.1 started

pub count_bytes-cons :
    (p : Part) (ps : List Part) → count_bytes (p ∷ ps) ≡ count_bytes (p ∷ []) + count_bytes ps
count_bytes-cons (stored r) ps = omega arith
count_bytes-cons (typed type r) ps = omega arith
count_bytes-cons (skipped text) ps = omega arith

pub first_addr-cons :
    (p : Part) (ps : List Part)
    → first_addr (p ∷ ps)
      ≡ (if first_addr (p ∷ []) == 0 then first_addr ps else first_addr (p ∷ []))
first_addr-cons (stored r) ps = ground arith
first_addr-cons (typed type r) ps = refl
first_addr-cons (skipped text) ps = refl

pub last_addr-cons :
    (p : Part) (ps : List Part) → last_addr (p ∷ ps) ≡ larger (last_addr (p ∷ [])) (last_addr ps)
last_addr-cons (stored r) ps = ground arith
last_addr-cons (typed type r) ps = ground arith
last_addr-cons (skipped text) ps = ground arith

pub byte_of_parts-cons :
    (p : Part) (ps : List Part) (y : ℕ) (old : Option ℕ)
    → byte_of_parts (p ∷ ps) y old ≡ byte_of_parts ps y (byte_of_parts (p ∷ []) y old)
byte_of_parts-cons (stored r) ps y old = refl
byte_of_parts-cons (typed type r) ps y old = refl
byte_of_parts-cons (skipped text) ps y old = refl

-- What readHexFile says of the lines.
abbrev pub error_of : List Part → Option HexError
error_of ps =
    if count_bytes ps == 0
    then some invalid_file
    else if first_addr ps == 0
    then some no_run_address
    else none
