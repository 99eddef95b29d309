-- ===== src/Hexfile/Total.antt =====
-- `readHexFile` on every file: its end, its accesses and its results.
use dis.Base.{
  ℕ, zero, suc, ◌+◌, ◌*◌, ◌≤◌, ◌<◌, ◌≡◌, inl, inr, refl, arith, ◌∙◌, Option, none, some, List, ◌==◌,
  length, u8, u16, u32, Bool-cases,
}
use mathlib.Core.Option
use dis.Libc.Files.{File, opened}
use dis.Libc.Lines.{fgets-cases}
use dis.Memory.{Memory}
use dis.Memory.Valid.{IsValid, accesses-IsValid}
use dis.Hexfile.Copies.{rounds-le, copied-some}
use dis.Hexfile.{
  Loader, Next, goes_on, stops, field, rounds, record_data, write_data, read_data, read_record,
  read_fields, read_hex_line, after_line, read_lines, overwrite, buffer_size, HexReading, conclude,
  new_loader, refuse, cannot_open, read_hex_file,
}

-- A valid memory with the regions of `m`.
abbrev pub Keeps : Memory → Memory → Type 0
Keeps m m' = IsValid m' × (m'.regions ≡ m.regions)

write_data-Keeps :
    (m m' : Memory) (buffer : ℕ → ℕ) (addr i left : ℕ)
    → i + left ≤ 255
    → Keeps m m'
    → (n : Memory) × (write_data m' buffer addr i left ≡ some n) × Keeps m n
unfolding write_data
write_data-Keeps m m' buffer addr i zero small ok = (m', refl, ok)
write_data-Keeps m m' buffer addr i (suc left) small ok =
    let copies = copied-some buffer i (omega arith) in
    let val = u8 (field buffer (9 + i * 2) 2) in
    let (_, (n, wrote, ok', same)) = accesses-IsValid m' (u16 (addr + i)) val (omega arith) ok.0 in
    let (n', rest, kept) =
      write_data-Keeps m n buffer addr (i + 1) left (omega arith) (ok', same ∙ ok.1) in
    (n', rw copies (rw wrote rest), kept)

-- The memory is kept, and the addresses are 16-bit.
abbrev IsSound : Memory → Loader → Type 0
IsSound m s = Keeps m s.memory × (s.run_address < 65536) × (s.last_addr < 65536)

record_data_bounds :
    (s : Loader) (m : Memory) (addr n : ℕ)
    → (s.run_address < 65536) × (s.last_addr < 65536)
    → ((record_data s m addr n).run_address < 65536) × ((record_data s m addr n).last_addr < 65536)
record_data_bounds s m addr n ok = ground (arith, ok)

abbrev NextIsSound : Memory → Next → Type 0
NextIsSound m (goes_on s) = IsSound m s
NextIsSound m (stops s) = IsSound m s

read_record-NextIsSound :
    (m : Memory) (buffer : ℕ → ℕ) (n addr type : ℕ) (s : Loader)
    → rounds n ≤ 255
    → IsSound m s
    → (next : Next) × (read_record buffer n addr type s ≡ some next) × NextIsSound m next
unfolding read_record read_data
read_record-NextIsSound m buffer n addr type s small ok = elim (Bool-cases (type == 0)) [
  | inl data_record ↦
      let (m', wrote, ok') =
        write_data-Keeps m s.memory buffer addr 0 (rounds n) (omega (arith, small)) ok.0 in
      (
        goes_on (record_data s m' addr n),
        rw (data_record, wrote),
        let bounds = record_data_bounds s m' addr n (ok.1, ok.2) in (ok', bounds.0, bounds.1),
      )
  | inr other ↦ elim (Bool-cases (type == 1)) [
    | inl eof ↦ (stops s, rw (other, eof), ok)
    | inr skipped ↦ (goes_on s, rw (other, skipped), ok)
  ]
]

read_hex_line-NextIsSound :
    (m : Memory) (buffer : ℕ → ℕ) (s : Loader)
    → IsSound m s
    → (n : Next) × (read_hex_line buffer s ≡ some n) × NextIsSound m n
unfolding read_hex_line read_fields
read_hex_line-NextIsSound m buffer s ok = elim (Bool-cases (buffer 0 == b':')) [
  | inr other ↦ (goes_on s, rw other, ok)
  | inl colon ↦
      let counted = record s { total = u32 (s.total + field buffer 1 2) } in
      let (n, reads, kept) =
        read_record-NextIsSound m buffer (field buffer 1 2) (field buffer 3 4) (field buffer 7 2)
          counted (rounds-le buffer) (ok.0, ok.1, ok.2) in
      (n, rw colon reads, kept)
]

abbrev Loads : Memory → Option Loader → Type 0
Loads m result = (s : Loader) × (result ≡ some s) × IsSound m s

after_line-Loads :
    (m : Memory) (loop : Loader → Option Loader) (n : Next)
    → ((s : Loader) → IsSound m s → Loads m (loop s))
    → NextIsSound m n
    → Loads m (after_line loop (some n))
after_line-Loads m loop (goes_on s) on kept = on s kept
after_line-Loads m loop (stops s) on kept = (s, refl, kept)

-- Fuel above the length of the file is enough.
read_lines-Loads :
    (m : Memory) (fuel : ℕ) (buffer : ℕ → ℕ) (f : File) (s : Loader)
    → length f.rest < fuel
    → IsSound m s
    → Loads m (read_lines fuel buffer f s)
unfolding read_lines
read_lines-Loads m zero buffer f s enough ok = absurd (omega arith)
read_lines-Loads m (suc fuel) buffer f s enough ok = elim (fgets-cases buffer_size f) [
  | inl ends ↦ rw ends (s, refl, ok)
  | inr (chars, f', reads, shorter) ↦
      let line = overwrite buffer chars in
      let (n, next, kept) = read_hex_line-NextIsSound m line s ok in
      rw (reads, next)
        (after_line-Loads m (λ s'. read_lines fuel line f' s') n
          (λ s'. read_lines-Loads m fuel line f' s' (omega arith)) kept)
]

conclude_lem :
    (m : Memory) (s : Loader)
    → IsSound m s
    → Keeps m (conclude s).memory
      × ((conclude s).address < 65536)
      × (Option.get_or (conclude s).end 0 < 65536)
unfolding conclude
conclude_lem m s ok =
    let memory : (conclude s).memory ≡ s.memory = ground arith in
    (rw memory ok.0, ground (arith, ok), ground (arith, ok))

-- The whole of `readHexFile`, with the bounds of what it returns.
pub read_hex_file_lem :
    (stale : ℕ → ℕ) (contents : Option (List ℕ)) (m : Memory)
    → IsValid m
    → (r : HexReading) × (read_hex_file stale contents m ≡ some r)
      × Keeps m r.memory
      × (r.address < 65536)
      × (Option.get_or r.end 0 < 65536)
unfolding read_hex_file
read_hex_file_lem stale none m ok =
    (refuse m cannot_open, refl, (ok, refl), omega arith, omega arith)
read_hex_file_lem stale (some bytes) m ok =
    let (s, reads, sound) =
      read_lines-Loads m (suc (length bytes)) stale (opened bytes) (new_loader m) (omega arith)
        ((ok, refl), omega arith, omega arith) in
    let (kept, address, last) = conclude_lem m s sound in
    (conclude s, rw reads, kept, address, last)

-- In a valid memory readHexFile returns on every file, whatever its bytes and whatever lineBuffer
-- held before, and leaves a valid memory with the same regions: it ends, no MemWrite leaves a
-- buffer, and no copy reads behind the 1024 characters of lineBuffer or writes behind the 10 of
-- tmpBuffer.
pub read_hex_file-IsValid :
    (stale : ℕ → ℕ) (contents : Option (List ℕ)) (m : Memory)
    → IsValid m
    → (r : HexReading) × (read_hex_file stale contents m ≡ some r)
      × IsValid r.memory
      × (r.memory.regions ≡ m.regions)
read_hex_file-IsValid stale contents m ok =
    let (r, reads, kept, _, _) = read_hex_file_lem stale contents m ok in (r, reads, kept.0, kept.1)
