-- ===== src/Hexfile/RoundTrip.antt =====
-- `readHexFile` on a file of printed records.
use dis.Base.{
  ℕ, zero, suc, ◌+◌, ◌^◌, ◌<◌, ◌≡◌, refl, arith, List, [], ◌∷◌, ◌++◌, length, length-append, All,
  Option, some, none, u32, ◌>>=◌,
}
use mathlib.Core.List.{append_assoc}
use mathlib.Core.Option
use dis.Base.Text.{newline}
use dis.Libc.PlainLines.{fgets-newline}
use dis.Memory.{Memory}
use dis.Rp6502file.Read.{write_payload}
use dis.Hexfile.{
  record_data, Loader, goes_on, overwrite, buffer_size, after_line, read_lines, conclude,
  new_loader, read_hex_file,
}
use dis.Hexfile.Format.{
  Style, Record, Part, stored, typed, skipped, IsPart, part_text, eof_text, parts_text, load_part,
  load_parts,
}
use dis.Hexfile.Records.{read_hex_line-part_text, read_hex_line-eof_text}
use dis.Hexfile.Lines.{record_text-IsInLine, length-record_text, part_text-fits}

abbrev pub AreParts : List Part → Type 0
AreParts = All IsPart

written-total :
    (o : Option Memory) (f : Memory → Loader) (s' : Loader)
    → ((m : Memory) → (f m).total < 2 ^ 32)
    → (o >>= (λ m. some (f m))) ≡ some s'
    → s'.total < 2 ^ 32
written-total none f s' small e = cc
written-total (some m) f s' small e = let same : f m ≡ s' = cc in rw (← same) (small m)

load_part-total :
    (s : Loader) (p : Part) (s' : Loader)
    → s.total < 2 ^ 32
    → load_part s p ≡ some s'
    → s'.total < 2 ^ 32
load_part-total s (stored r) s' small e =
    let n = length r.payload in
    written-total (write_payload s.memory r.addr 0 r.payload)
      (λ m. record_data (record s { total = u32 (s.total + n) }) m r.addr n) s' (λ m. omega arith) e
load_part-total s (typed type r) s' small e =
    let same : record s { total = u32 (s.total + length r.payload) } ≡ s' = cc in
    rw (← same) (omega arith)
load_part-total s (skipped text) s' small e = let same : s ≡ s' = cc in rw (← same) small

goes_on-loaded :
    (loop more : Loader → Option Loader) (o : Option Loader)
    → ((s : Loader) → o ≡ some s → loop s ≡ more s)
    → after_line loop (Option.map goes_on o) ≡ (o >>= more)
goes_on-loaded loop more none reads = refl
goes_on-loaded loop more (some s) reads = reads s refl

-- The loop reads the records in order, and ends with the EOF record, whatever is behind it.
read_lines-parts :
    (style : Style) (ps : List Part) (behind : List ℕ) (fuel : ℕ) (stale : ℕ → ℕ) (pos : ℕ)
    (s : Loader)
    → AreParts ps
    → length (parts_text style ps) < fuel
    → s.total < 2 ^ 32
    → read_lines fuel stale (record { rest = parts_text style ps ++ behind; pos = pos }) s
      ≡ load_parts s ps
unfolding read_lines
read_lines-parts style ps behind zero stale pos s ok enough total = absurd (omega arith)
read_lines-parts style [] behind (suc fuel) stale pos s ok enough total =
    let last : Record = record { addr = 0; payload = []; checksum = 0xff } in
    let line =
      fgets-newline buffer_size (eof_text style) behind pos (record_text-IsInLine style 1 last)
        (omega (arith, length-record_text style 1 last)) in
    rw (append_assoc (eof_text style) newline behind)
      (rw line (rw (read_hex_line-eof_text stale style s total) refl))
read_lines-parts style (p ∷ ps) behind (suc fuel) stale pos s ok enough total =
    let rest = parts_text style ps ++ behind in
    let (plain, size) = part_text-fits style p ok.0 in
    let line = fgets-newline buffer_size (part_text style p) rest pos plain (omega (arith, size)) in
    let buffer = overwrite stale (part_text style p ++ newline) in
    let does = read_hex_line-part_text stale style p s ok.0 in
    rw (append_assoc (part_text style p) (b'\n' ∷ parts_text style ps) behind) (
      rw line (
        rw does (
          goes_on-loaded
            (λ s'.
              read_lines fuel buffer
                (record { rest = rest; pos = pos + suc (length (part_text style p)) }) s')
            (λ s'. load_parts s' ps) (load_part s p)
            (λ s' e.
              read_lines-parts style ps behind fuel buffer _ s' ok.1
                (omega (arith, length-append (part_text style p) (b'\n' ∷ parts_text style ps)))
                (load_part-total s p s' total e)))))

-- A HEX file of records with digits in either case, of texts of up to 1021 characters that no ':'
-- begins, with lines that end with or without a CR, and with an EOF record behind them, is read as
-- its data records in order, where a record of another type only counts its bytes, whatever the
-- checksums are, whatever lineBuffer held before, and whatever is behind the EOF record.
pub read_hex_file-parts_text :
    (stale : ℕ → ℕ) (style : Style) (ps : List Part) (behind : List ℕ) (m : Memory)
    → AreParts ps
    → read_hex_file stale (some (parts_text style ps ++ behind)) m
      ≡ Option.map conclude (load_parts (new_loader m) ps)
unfolding read_hex_file
read_hex_file-parts_text stale style ps behind m ok =
    rw
      (read_lines-parts style ps behind (suc (length (parts_text style ps ++ behind))) stale 0
        (new_loader m) ok (omega (arith, length-append (parts_text style ps) behind)) (omega arith))
      refl
