-- ===== src/Rp6502file/Parse.antt =====
-- The lines and numbers of a ROM file: `readLine`, `matchesShebang`, `parseUint32`, `parseEnd`,
-- and the chunk header of `readRp6502File`.
use dis.Base.{
  ℕ, zero, suc, ◌+◌, ◌-◌, Bool, true, false, not, ◌&&◌, ◌||◌, Option, none, some, List, [], ◌∷◌,
  ltb, leb, ◌==◌, if◌then◌else◌, ◌>>=◌, drop, length, u32,
}
use dis.Base.Text.{Text, codes, char_at}
use dis.Libc.Files.{File, fgets, c_string}
use dis.Libc.Numbers.{Number, convert, to_ulong}

-- `LINE_MAX` and `CHUNK_MAX`
abbrev pub line_max : ℕ
line_max = 256

abbrev pub chunk_max : ℕ
chunk_max = 0x10000

abbrev is_eol : ℕ → Bool
is_eol c = c == b'\n' || c == b'\r'

-- `c` before a text that is stripped already: a line end goes if nothing is left behind it.
abbrev pub keep : ℕ → Text → Text
keep c [] = if is_eol c then [] else c ∷ []
keep c (d ∷ t) = c ∷ d ∷ t

-- The `while` loop of `readLine`: the text without the line ends at its end.
abbrev pub strip : Text → Text
strip [] = []
strip (c ∷ s) = keep c (strip s)

-- The string in the buffer fills it and has no '\n' at its end.
abbrev pub is_too_long : ℕ → Text → Bool
is_too_long size s = length s + 1 == size && not (char_at s (length s - 1) == b'\n')

abbrev pub line_of : ℕ → File → Option (List ℕ × File) → Option Text × File
line_of size f none = (none, f)
line_of size f (some (chars, after)) =
    let s = c_string chars in (if is_too_long size s then none else some (strip s), after)

-- `readLine`: the line, `none` for false, and the file.
unfoldable pub read_line : ℕ → File → Option Text × File
read_line size f = line_of size f (fgets size f)

abbrev upper : ℕ → ℕ
upper c = if leb b'a' c && leb c b'z' then c - b'a' + b'A' else c

-- The loop of `matchesShebang` from `i` with `left` rounds.
abbrev shebang_from : Text → ℕ → ℕ → Bool
shebang_from line i zero = true
shebang_from line i (suc left) =
    upper (char_at line i) == char_at (codes "#!RP6502") i && shebang_from line (i + 1) left

unfoldable pub matches_shebang : Text → Bool
matches_shebang line = shebang_from line 0 8

abbrev pub skip_blanks : Text → Text
skip_blanks [] = []
skip_blanks (c ∷ s) = if c == b' ' || c == b'\t' then skip_blanks s else c ∷ s

-- The base and the digits behind `$` or `0x`.
abbrev pub radix : Text → ℕ
radix s =
    if char_at s 0 == b'$' || char_at s 0 == b'0' && (char_at s 1 == b'x' || char_at s 1 == b'X')
    then 16
    else 10

abbrev pub digits_at : Text → Text
digits_at s =
    if char_at s 0 == b'$'
    then drop 1 s
    else if char_at s 0 == b'0' && (char_at s 1 == b'x' || char_at s 1 == b'X')
    then drop 2 s
    else s

-- `v > 0xffffffffUL` is refused.
abbrev narrow : Number → ℕ → Option (ℕ × Text)
narrow n v = if ltb 0xffffffff v then none else some (v, n.after)

-- `parseUint32`: `*out` and the new `*p`, or `none` for false.
unfoldable pub parse_uint32 : Text → Option (ℕ × Text)
parse_uint32 p =
    let s = skip_blanks p in
    let d = digits_at s in
    if char_at d 0 == b'-' || char_at d 0 == b'+'
    then none
    else do n ← convert (radix s) d; v ← to_ulong n; narrow n v

unfoldable pub parse_end : Text → Bool
parse_end p = elim (skip_blanks p) [ [] ↦ true | c ∷ s ↦ false ]

pub record Header : Type 0 where
  pub addr : ℕ
  pub len : ℕ
  pub crc : ℕ

abbrev pub at_end : Header → Text → Option Header
at_end header p = if parse_end p then some header else none

-- The three numbers of a chunk header; `none` for a malformed one.
unfoldable pub chunk_header : Text → Option Header
chunk_header line = do
  addr ← parse_uint32 line
  len ← parse_uint32 addr.1
  crc ← parse_uint32 len.1
  at_end (record { addr = addr.0; len = len.0; crc = crc.0 }) crc.1

-- The test of `addr` and `len`.
unfoldable pub is_out_of_range : ℕ → ℕ → Bool
is_out_of_range addr len =
    ltb 0x1ffff addr
    || len == 0
    || ltb chunk_max len
    || ltb addr 0x10000 && ltb 0x10000 (u32 (addr + len))
    || ltb 0x20000 (u32 (addr + len))
