-- ===== src/Hexfile/Format.antt =====
-- The files that readHexFile is for: lines that are records of Intel HEX, with digits in either case,
-- or that no `:` begins, and an EOF record behind them.
use dis.Base.{
  ℕ, ◌+◌, ◌≤◌, ◌<◌, ◌≡◌, false, Option, some, List, [], ◌∷◌, ◌++◌, ◌==◌, ◌>>=◌, length, All, u32,
}
use dis.Base.Text.{newline, Text, Letters, LineEnd, return_text, char_at, hex_in}
use dis.Libc.PlainLines.{IsInLine}
use dis.Rp6502file.Read.{write_payload}
use dis.Hexfile.{Loader, record_data}

-- How a file is written.
pub record Style : Type 0 where
  pub letters : Letters
  pub line_end : LineEnd

-- The reader does not look at the checksum, which may be any byte.
pub record Record : Type 0 where
  pub addr : ℕ
  pub payload : List ℕ
  pub checksum : ℕ

-- A line: a data record, a record of another type, or a text that is no record.
pub data Part : Type 0 where
  stored : Record → Part
  typed : ℕ → Record → Part
  skipped : Text → Part

abbrev pub IsByte : ℕ → Type 0
IsByte b = b < 256

abbrev pub IsRecord : Record → Type 0
IsRecord r = (r.addr < 65536) × (length r.payload ≤ 255) × All IsByte r.payload

abbrev pub IsPart : Part → Type 0
IsPart (stored r) = IsRecord r
IsPart (typed type r) = (type < 256) × ((type == 0) ≡ false) × ((type == 1) ≡ false) × IsRecord r
IsPart (skipped text) =
    All IsInLine text × (length text ≤ 1021) × ((char_at text 0 == b':') ≡ false)

abbrev pub bytes_text : Letters → List ℕ → Text
bytes_text letters [] = []
bytes_text letters (b ∷ bytes) = hex_in letters 2 b ++ bytes_text letters bytes

-- A record's line, without its newline.
abbrev pub record_text : Style → ℕ → Record → Text
record_text style type r =
    let l = style.letters in
    b':'
    ∷ (hex_in l 2 (length r.payload)
        ++ (hex_in l 4 r.addr
            ++ (hex_in l 2 type
                ++ (bytes_text l r.payload
                    ++ (hex_in l 2 r.checksum ++ return_text style.line_end)))))

abbrev pub part_text : Style → Part → Text
part_text style (stored r) = record_text style 0 r
part_text style (typed type r) = record_text style type r
part_text style (skipped text) = text ++ return_text style.line_end

-- ":00000001ff"
abbrev pub eof_text : Style → Text
eof_text style = record_text style 1 (record { addr = 0; payload = []; checksum = 0xff })

abbrev pub parts_text : Style → List Part → List ℕ
parts_text style [] = eof_text style ++ newline
parts_text style (p ∷ ps) = part_text style p ++ (b'\n' ∷ parts_text style ps)

-- What a line does.
abbrev pub load_part : Loader → Part → Option Loader
load_part s (stored r) = do
  m ← write_payload s.memory r.addr 0 r.payload
  some (
      record_data (record s { total = u32 (s.total + length r.payload) }) m r.addr
        (length r.payload))
load_part s (typed type r) = some (record s { total = u32 (s.total + length r.payload) })
load_part s (skipped text) = some s

abbrev pub load_parts : Loader → List Part → Option Loader
load_parts s [] = some s
load_parts s (p ∷ ps) = load_part s p >>= (λ s'. load_parts s' ps)
