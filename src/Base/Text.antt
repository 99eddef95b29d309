-- ===== src/Base/Text.antt =====
-- C strings as lists of character codes, without the terminating NUL, and what printf writes.
use Prim.Native.Nat.{ℕ, zero, suc, ◌+◌, ◌-◌, ◌/◌, ◌%◌, ◌≤◌}
use Prim.Native.Char.{code}
use Prim.Native.String.{String}
use mathlib.Core.Bool.{Bool, true, false, ◌&&◌}
use mathlib.Core.List.{List, [], ◌∷◌, ◌++◌}
use dis.Base.Tests.{ltb, ◌==◌, if◌then◌else◌}
use dis.Base.Lists.{get_or, take, length}
use native.Mathlib.Omega.{arith}

abbrev pub Text : Type 0
Text = List ℕ

-- The character codes of a literal.
abbrev pub codes : String → Text
codes String.[] = []
codes (String.◌∷◌ c s) = code c ∷ codes s

abbrev pub newline : Text
newline = b'\n' ∷ []

-- What may stand before the newline of a line.
pub data LineEnd : Type 0 where
  lf crlf : LineEnd

abbrev pub return_text : LineEnd → Text
return_text lf = []
return_text crlf = b'\r' ∷ []

-- The end of a line, with its newline.
abbrev pub ending : LineEnd → Text
ending lf = newline
ending crlf = b'\r' ∷ newline

pub length-ending :
    (line_end : LineEnd) → (1 ≤ length (ending line_end)) × (length (ending line_end) ≤ 2)
length-ending lf = (omega arith, omega arith)
length-ending crlf = (omega arith, omega arith)

-- `s[i]`, with the NUL behind the last character.
abbrev pub char_at : Text → ℕ → ℕ
char_at s i = get_or s i 0

-- `strcmp(s, t) == 0`
abbrev pub str_eq : Text → Text → Bool
str_eq [] [] = true
str_eq [] (d ∷ t) = false
str_eq (c ∷ s) [] = false
str_eq (c ∷ s) (d ∷ t) = c == d && str_eq s t

-- What `snprintf(buf, size, ...)` leaves in a buffer of `size` bytes, for `0 < size`.
abbrev pub snprintf : ℕ → Text → Text
snprintf size s = take (size - 1) s

abbrev pub hex_digit : ℕ → ℕ
hex_digit d = if ltb d 10 then b'0' + d else b'a' + d - 10

abbrev upper_digit : ℕ → ℕ
upper_digit d = if ltb d 10 then b'0' + d else b'A' + d - 10

pub data Letters : Type 0 where
  lower_case : Letters
  upper_case : Letters

abbrev pub digit_in : Letters → ℕ → ℕ
digit_in lower_case d = hex_digit d
digit_in upper_case d = upper_digit d

-- The lowest `k` hexadecimal digits.
unfoldable pub hex_in : Letters → ℕ → ℕ → Text
hex_in letters zero n = []
hex_in letters (suc k) n = hex_in letters k (n / 16) ++ digit_in letters (n % 16) ∷ []

-- `%0kx` and `%0kX` for a number below 16 ^ k.
abbrev pub hex : ℕ → ℕ → Text
hex k n = hex_in lower_case k n

abbrev pub hex_upper : ℕ → ℕ → Text
hex_upper k n = hex_in upper_case k n

-- `%u` for a number of at most `k` digits.
abbrev pub decimal : ℕ → ℕ → Text
decimal zero n = []
decimal (suc k) n =
    let before = decimal k (n / 10) in (if n / 10 == 0 then [] else before) ++ (b'0' + n % 10) ∷ []
