-- ===== src/Hexfile/Image.antt =====
-- What a HEX file leaves in the image that the command line maps, and the range that is returned.
use dis.Base.{
  Bool-cases, inl, inr, ℕ, ◌+◌, ◌-◌, ◌^◌, ◌<◌, ◌≡◌, refl, sym, ap, ◌∙◌, arith, ◌==◌, if◌then◌else◌,
  List, [], ◌∷◌, ◌++◌, length, All, some, none, u16, u32,
}
use dis.Memory.{Memory, mem_read}
use dis.Rp6502file.Load.{write_payload-IsValid}
use dis.Rp6502file.Image.{IsImage, write_payload-byte}
use dis.Hexfile.{Loader, record_data, conclude, new_loader, read_hex_file, HexReading}
use dis.Hexfile.Format.{
  Style, Part, stored, typed, skipped, IsPart, parts_text, load_part, load_parts,
}
use dis.Hexfile.RoundTrip.{read_hex_file-parts_text}
use dis.Hexfile.Ranges.{
  IsInside, byte_of_parts, larger, first_addr, last_addr, count_bytes, counts, error_of,
  count_bytes-cons, first_addr-cons, last_addr-cons, byte_of_parts-cons,
}

-- What the records make of the variables.
abbrev Reads : List Part → Loader → Loader → Type 0
Reads ps s s' =
    IsImage s'.memory
    × ((y : ℕ) → y < 65536 → mem_read s'.memory y ≡ byte_of_parts ps y (mem_read s.memory y))
    × (s'.run_address ≡ (if s.run_address == 0 then first_addr ps else s.run_address))
    × (s'.last_addr ≡ larger s.last_addr (last_addr ps))
    × (s'.total ≡ s.total + count_bytes ps)

load_part-Reads :
    (s : Loader) (p : Part)
    → IsImage s.memory
    → IsPart p
    → IsInside p
    → s.total + count_bytes (p ∷ []) < 2 ^ 32
    → (s' : Loader) × (load_part s p ≡ some s') × Reads (p ∷ []) s s'
load_part-Reads s (stored r) image ok inside total =
    let n = length r.payload in
    let (m, wrote, valid, same) = write_payload-IsValid s.memory r.addr 0 r.payload image.0 in
    let start : r.addr + 0 ≡ r.addr = omega arith in
    let end : u16 (r.addr + n + 0xffffffff) ≡ r.addr + n - 1 = omega (arith, inside) in
    (
      record_data (record s { total = u32 (s.total + n) }) m r.addr n,
      rw wrote refl,
      (
        (valid, same ∙ image.1),
        λ y hy. rw start at (
            write_payload-byte s.memory m r.addr 0 r.payload y image (omega (arith, inside)) hy
              wrote),
        ground (arith, ok.0),
        rw end (ground arith),
        omega (arith, total),
      ),
    )
load_part-Reads s (typed type r) image ok inside total = (
  record s { total = u32 (s.total + length r.payload) },
  refl,
  (image, λ y hy. refl, ground arith, ground arith, omega (arith, total)),
)
load_part-Reads s (skipped text) image ok inside total =
    (s, refl, (image, λ y hy. refl, ground arith, ground arith, omega arith))

load_parts-Reads :
    (ps : List Part) (s : Loader)
    → IsImage s.memory
    → All IsPart ps
    → All IsInside ps
    → s.total + count_bytes ps < 2 ^ 32
    → (s' : Loader) × (load_parts s ps ≡ some s') × Reads ps s s'
load_parts-Reads [] s image ok inside total =
    (s, refl, (image, λ y hy. refl, ground arith, ground arith, omega arith))
load_parts-Reads (p ∷ ps) s image ok inside total =
    let count = count_bytes-cons p ps in
    let (t, loads, (image', bytes, run, last, sum)) =
      load_part-Reads s p image ok.0 inside.0 (omega arith) in
    let (s', rest, (image'', bytes', run', last', sum')) =
      load_parts-Reads ps t image' ok.1 inside.1 (omega (arith, sum)) in
    (
      s',
      rw loads rest,
      (
        image'',
        λ y hy.
            bytes' y hy
            ∙ ap (byte_of_parts ps y) (bytes y hy)
            ∙ sym (byte_of_parts-cons p ps y (mem_read s.memory y)),
        ground (arith, run, run', first_addr-cons p ps),
        ground (arith, last, last', last_addr-cons p ps),
        omega (arith, sum, sum'),
      ),
    )

-- The result, by the variables of the loop.
abbrev Returns : List Part → Loader → HexReading → Type 0
Returns ps s r =
    (r.memory ≡ s.memory)
    × (r.address ≡ first_addr ps)
    × (r.end ≡ (if first_addr ps == 0 then none else some (last_addr ps)))
    × (r.error ≡ error_of ps)

conclude-Returns :
    (ps : List Part) (s : Loader)
    → All IsInside ps
    → s.run_address ≡ first_addr ps
    → s.last_addr ≡ last_addr ps
    → s.total ≡ count_bytes ps
    → Returns ps s (conclude s)
unfolding conclude
conclude-Returns ps s inside run last sum = elim (Bool-cases (first_addr ps == 0)) [
  | inl unset ↦ elim (Bool-cases (count_bytes ps == 0)) [
    | inl empty ↦ rw (run, sum) (rw (empty, unset) (refl, ground (arith, unset), refl, refl))
    | inr counted ↦ rw (run, sum) (rw (counted, unset) (refl, ground (arith, unset), refl, refl))
  ]
  | inr started ↦
      rw (run, sum, last) (rw (counts ps inside started, started) (refl, refl, refl, refl))
]

-- In an image as the command line maps it, a HEX file of records with digits in either case, of
-- texts of up to 1021 characters that no ':' begins, with or without CRs, and of an EOF record,
-- whose data records have bytes, inside the address space, with less than 2^31 bytes in all, is
-- read. Then MemRead gives at each address the byte of the last data record that holds it, below
-- $FFFF, and elsewhere what it gave before. The file is refused as invalid if its records have no
-- bytes, and else for want of a run address if no data record is at an address other than 0. The
-- returned address is 0 in these cases, with no end, and otherwise the first such address,
-- whatever records at 0 stand before it, with the highest address of a byte as the end.
pub read_hex_file-byte :
    (stale : ℕ → ℕ) (style : Style) (ps : List Part) (behind : List ℕ) (m : Memory)
    → IsImage m
    → All IsPart ps
    → All IsInside ps
    → count_bytes ps < 2 ^ 31
    → (r : HexReading) × (read_hex_file stale (some (parts_text style ps ++ behind)) m ≡ some r)
      × ((y : ℕ) → y < 65536 → mem_read r.memory y ≡ byte_of_parts ps y (mem_read m y))
      × (r.address ≡ first_addr ps)
      × (r.end ≡ (if first_addr ps == 0 then none else some (last_addr ps)))
      × (r.error ≡ error_of ps)
read_hex_file-byte stale style ps behind m image ok inside total =
    let (s, loads, (image', bytes, run, last, sum)) =
      load_parts-Reads ps (new_loader m) image ok inside (omega arith) in
    let (memory, address, end, error) =
      conclude-Returns ps s inside run (ground (arith, last)) (omega (arith, sum)) in
    (
      conclude s,
      read_hex_file-parts_text stale style ps behind m ok ∙ rw loads refl,
      λ y hy. rw memory (bytes y hy),
      address,
      end,
      error,
    )
