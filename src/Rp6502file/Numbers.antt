-- ===== src/Rp6502file/Numbers.antt =====
-- `parseUint32`, where a number was printed in any of the notations.
use dis.Base.{
  ℕ, suc, ◌+◌, ◌^◌, ◌<◌, ◌≤◌, ◌≡◌, refl, arith, true, false, ◌||◌, some, [], ◌∷◌, ◌++◌, ◌==◌,
  length, All,
}
use dis.Base.Text.{Text, Letters, lower_case, upper_case, char_at, decimal, digit_in, hex_in}
use dis.Libc.Numbers.{convert, to_ulong}
use dis.Libc.Printed.{convert-hex_short, hex_first, hex-All, length-hex}
use dis.Libc.Decimals.{
  Breaks, IsDecimal, decimal-Leads, IsPlainDigit, IsNoX, convert-decimal, decimal-All,
  length-decimal,
}
use dis.Libc.PlainLines.{is_plain, IsPlain}
use dis.Rp6502file.Parse.{parse_uint32, skip_blanks, radix, digits_at}
use dis.Rp6502file.Format.{Notation, as_decimal, as_c_hex, as_mos_hex, number_text, IsNumber}

no_sign : (l : Letters) (d : ℕ) → d < 16 → (digit_in l d == b'-' || digit_in l d == b'+') ≡ false
no_sign lower_case d h = ground arith
no_sign upper_case d h = ground arith

small :
    (n : ℕ) (rest : Text)
    → n < 2 ^ 32
    → to_ulong (record { negative = false; magnitude = n; after = rest }) ≡ some n
unfolding to_ulong
small n rest fits = ground arith

-- What stands behind the prefix of a hex number.
hex_digits :
    (l : Letters) (k n : ℕ) (rest : Text)
    → n < 16 ^ suc k
    → Breaks rest
    → ((char_at (hex_in l (suc k) n ++ rest) 0 == b'-'
          || char_at (hex_in l (suc k) n ++ rest) 0 == b'+')
        ≡ false)
      × (convert 16 (hex_in l (suc k) n ++ rest)
          ≡ some (record { negative = false; magnitude = n; after = rest }))
hex_digits l k n rest fits breaks =
    let (d, d-lt, first) = hex_first l k n rest in
    (rw first (no_sign l d d-lt), convert-hex_short l k n rest fits breaks)

skip_blanks_digit : (s : Text) → IsPlainDigit (char_at s 0) → skip_blanks s ≡ s
skip_blanks_digit [] first = refl
skip_blanks_digit (c ∷ s) (space, _, _, _, _) =
    let solid : (c == b' ' || c == b'\t') ≡ false = ground (arith, space) in rw solid refl

prefix_none :
    (s : Text)
    → IsPlainDigit (char_at s 0)
    → IsNoX (char_at s 1)
    → (radix s ≡ 10) × (digits_at s ≡ s)
prefix_none s (_, _, _, dollar, _) (x, X) =
    (rw (dollar, x, X) (ground arith), rw (dollar, x, X) (ground arith))

parse_decimal :
    (s rest : Text) (n : ℕ)
    → n < 2 ^ 32
    → IsPlainDigit (char_at s 0)
    → IsNoX (char_at s 1)
    → convert 10 s ≡ some (record { negative = false; magnitude = n; after = rest })
    → parse_uint32 s ≡ some (n, rest)
unfolding parse_uint32
parse_decimal s rest n fits first second reads =
    let (base, from) = prefix_none s first second in
    let blank = skip_blanks_digit s first in
    let (_, minus, plus, _, _) = first in
    rw (blank, base, from, minus, plus, reads, small n rest fits) (ground arith)

-- A printed number is parsed back, with what stands behind it.
pub parse_uint32-number_text :
    (notation : Notation) (n : ℕ) (rest : Text)
    → IsNumber notation n
    → Breaks rest
    → parse_uint32 (number_text notation n ++ rest) ≡ some (n, rest)
unfolding parse_uint32
parse_uint32-number_text as_decimal n rest fits breaks =
    let (first, second, reads) = convert-decimal 9 n rest (omega arith) breaks in
    parse_decimal (decimal 10 n ++ rest) rest n fits first second reads
parse_uint32-number_text (as_c_hex l k) n rest (fits, _, enough) breaks =
    let (sign, reads) = hex_digits l k n rest enough breaks in
    rw (sign, reads, small n rest fits) (ground arith)
parse_uint32-number_text (as_mos_hex l k) n rest (fits, _, enough) breaks =
    let (sign, reads) = hex_digits l k n rest enough breaks in
    rw (sign, reads, small n rest fits) (ground arith)

digit-IsPlain : (l : Letters) (d : ℕ) → d < 16 → is_plain (digit_in l d) ≡ true
digit-IsPlain lower_case d h = ground arith
digit-IsPlain upper_case d h = ground arith

decimal-IsPlain : (d : ℕ) → d < 10 → is_plain (b'0' + d) ≡ true
decimal-IsPlain d h = ground arith

pub number_text-IsPlain : (notation : Notation) (n : ℕ) → All IsPlain (number_text notation n)
number_text-IsPlain as_decimal n = decimal-All IsPlain 10 n decimal-IsPlain
number_text-IsPlain (as_c_hex l k) n = (refl, (refl, hex-All IsPlain l (suc k) n (digit-IsPlain l)))
number_text-IsPlain (as_mos_hex l k) n = (refl, hex-All IsPlain l (suc k) n (digit-IsPlain l))

pub length-number_text :
    (notation : Notation) (n : ℕ) → IsNumber notation n → length (number_text notation n) ≤ 34
length-number_text as_decimal n is = omega (arith, length-decimal 10 n)
length-number_text (as_c_hex l k) n is = omega (arith, length-hex l (suc k) n)
length-number_text (as_mos_hex l k) n is = omega (arith, length-hex l (suc k) n)

decimal_first : (c : ℕ) → IsDecimal c → ((c == b'#') ≡ false) × ((c == 0) ≡ false)
decimal_first c (d, fits, is) = (ground (arith, is), ground (arith, is))

-- A number does not begin with `#`, nor with a NUL.
pub number_text-first :
    (notation : Notation) (n : ℕ) (rest : Text)
    → ((char_at (number_text notation n ++ rest) 0 == b'#') ≡ false)
      × ((char_at (number_text notation n ++ rest) 0 == 0) ≡ false)
number_text-first as_decimal n rest =
    decimal_first (char_at (decimal 10 n ++ rest) 0) (decimal-Leads 9 n rest).0
number_text-first (as_c_hex l k) n rest = (refl, refl)
number_text-first (as_mos_hex l k) n rest = (refl, refl)
