-- ===== src/Rp6502file/Format.antt =====
-- The format of an RP6502 ROM, as rp6502file.h describes it: the shebang in either case, a group
-- header or none, comments, and chunks, each a header line with three numbers and its raw bytes; and
-- empty lines, which it does not mention.
use dis.Base.{
  ℕ, suc, ◌+◌, ◌^◌, ◌<◌, ◌≤◌, ◌≡◌, Bool, true, false, Option, some, List, [], ◌∷◌, ◌++◌, ◌==◌,
  ◌>>=◌, length, All,
}
use dis.Base.Text.{
  Text, Letters, lower_case, upper_case, LineEnd, ending, codes, char_at, hex_in, decimal,
}
use dis.Libc.PlainLines.{IsPlain}
use dis.Rp6502file.Crc.{rp6502_crc32}
use dis.Rp6502file.Bounds.{IsInRange}
use dis.Rp6502file.Read.{Loading, load_chunk}

-- A comment is the text behind its `#`.
pub data Entry : Type 0 where
  comment : Text → Entry
  empty_line : Entry
  chunk : ℕ → List ℕ → Entry

-- "Numbers may be decimal, C-style hex (0xFF) or MOS-style hex ($FF)." A hex number has one digit
-- more than the second argument says.
pub data Notation : Type 0 where
  as_decimal : Notation
  as_c_hex : Letters → ℕ → Notation
  as_mos_hex : Letters → ℕ → Notation

-- A decimal number has no zeros in front, and a hex number those that its digits leave.
abbrev pub number_text : Notation → ℕ → Text
number_text as_decimal n = decimal 10 n
number_text (as_c_hex letters k) n = b'0' ∷ b'x' ∷ hex_in letters (suc k) n
number_text (as_mos_hex letters k) n = b'$' ∷ hex_in letters (suc k) n

-- A number has 32 bits, and up to 32 hex digits that hold it.
abbrev pub IsNumber : Notation → ℕ → Type 0
IsNumber as_decimal n = n < 2 ^ 32
IsNumber (as_c_hex letters k) n = (n < 2 ^ 32) × (k < 32) × (n < 16 ^ suc k)
IsNumber (as_mos_hex letters k) n = (n < 2 ^ 32) × (k < 32) × (n < 16 ^ suc k)

-- How a line is written: the shebang, the numbers of a header, and the end of the line.
pub record Style : Type 0 where
  pub shebang : Letters
  pub addr : Notation
  pub len : Notation
  pub crc : Notation
  pub line_end : LineEnd

-- The notations of a header hold its numbers.
abbrev pub AreNumbers : Style → ℕ → ℕ → ℕ → Type 0
AreNumbers style addr len crc =
    IsNumber style.addr addr × IsNumber style.len len × IsNumber style.crc crc

abbrev pub shebang_text : Letters → Text
shebang_text lower_case = codes "#!rp6502"
shebang_text upper_case = codes "#!RP6502"

-- The line of a chunk: its address, its length and the CRC of its payload.
abbrev pub header_text : Style → ℕ → ℕ → ℕ → Text
header_text style addr len crc =
    number_text style.addr addr
    ++ (b' ' ∷ (number_text style.len len ++ (b' ' ∷ number_text style.crc crc)))

abbrev pub entry_text : Style → Entry → List ℕ
entry_text style (comment text) = (b'#' ∷ text) ++ ending style.line_end
entry_text style empty_line = ending style.line_end
entry_text style (chunk addr payload) =
    header_text style addr (length payload) (rp6502_crc32 payload)
    ++ (ending style.line_end ++ payload)

-- The styles of the lines behind one.
abbrev pub behind_line : (ℕ → Style) → ℕ → Style
behind_line styles i = styles (suc i)

-- Each entry is written in a style of its own.
abbrev pub entries_text : (ℕ → Style) → List Entry → List ℕ
entries_text styles [] = []
entries_text styles (e ∷ es) = entry_text (styles 0) e ++ entries_text (behind_line styles) es

-- The line of a group: the size of its section, and a CRC.
abbrev pub group_text : Style → ℕ → ℕ → Text
group_text style size crc =
    b'#' ∷ b'>' ∷ (number_text style.len size ++ (b' ' ∷ number_text style.crc crc))

-- A ROM file with a group.
abbrev pub grouped_text : (ℕ → Style) → List Entry → ℕ → List ℕ
grouped_text styles es crc =
    let entries = entries_text (behind_line (behind_line styles)) es in
    shebang_text (styles 0).shebang
    ++ (ending (styles 0).line_end
        ++ (group_text (styles 1) (length entries) crc ++ (ending (styles 1).line_end ++ entries)))

-- A whole ROM file without one.
abbrev pub rom_text : (ℕ → Style) → List Entry → List ℕ
rom_text styles es =
    shebang_text (styles 0).shebang
    ++ (ending (styles 0).line_end ++ entries_text (behind_line styles) es)

-- Without a group, or with one that has this CRC, and with these bytes behind its section.
pub data Layout : Type 0 where
  ungrouped : Layout
  grouped : ℕ → List ℕ → Layout

-- The styles are those of the shebang, of the group's line if there is one, and of the entries.
abbrev pub file_text : (ℕ → Style) → Layout → List Entry → List ℕ
file_text styles ungrouped es = rom_text styles es
file_text styles (grouped crc behind) es = grouped_text styles es crc ++ behind

-- A comment fits a line and is no group header; a chunk has bytes and lies in one of the two
-- address spaces, and the notations of its header hold its numbers.
abbrev pub IsEntry : Style → Entry → Type 0
IsEntry style (comment text) =
    All IsPlain text
    × (length text + length (ending style.line_end) ≤ 254)
    × ((char_at text 0 == b'>') ≡ false)
IsEntry style empty_line = Unit {0}
IsEntry style (chunk addr payload) =
    IsInRange addr (length payload) × AreNumbers style addr (length payload) (rp6502_crc32 payload)

abbrev pub AreEntries : (ℕ → Style) → List Entry → Type 0
AreEntries styles [] = Unit {0}
AreEntries styles (e ∷ es) = IsEntry (styles 0) e × AreEntries (behind_line styles) es

-- Without a group the file must be sought, and with one the notations hold its numbers.
abbrev pub IsLayout : (ℕ → Style) → Layout → List Entry → Bool → Type 0
IsLayout styles ungrouped es seeks = seeks ≡ true
IsLayout styles (grouped crc behind) es seeks =
    IsNumber (styles 1).len (length (entries_text (behind_line (behind_line styles)) es))
    × IsNumber (styles 1).crc crc

-- The styles of the entries in a file.
abbrev pub entry_styles : Layout → (ℕ → Style) → ℕ → Style
entry_styles ungrouped styles = behind_line styles
entry_styles (grouped crc behind) styles = behind_line (behind_line styles)

-- What a ROM means: its chunks loaded in order.
abbrev pub load_entry : Loading → Entry → Option Loading
load_entry s (comment text) = some s
load_entry s empty_line = some s
load_entry s (chunk addr payload) = load_chunk s addr payload

abbrev pub load_entries : Loading → List Entry → Option Loading
load_entries s [] = some s
load_entries s (e ∷ es) = load_entry s e >>= (λ s'. load_entries s' es)
