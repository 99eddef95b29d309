-- ===== src/Main/ReadBack.antt =====
-- A reader of the listing's text: the lines of `printInstruction`, by their columns.
use dis.Base.{
  ℕ, zero, suc, ◌-◌, ◌+◌, ◌*◌, ◌/◌, ◌%◌, ◌<◌, ◌≤◌, ◌≡◌, refl, ap, ap₂, ◌∙◌, arith, false, List, [],
  ◌∷◌, ◌++◌, ◌==◌, if◌then◌else◌, map, length, All, All-append,
}
use mathlib.Core.List.{append_assoc}
use dis.Base.Text.{newline, Text, lower_case, hex, hex_in, digit_in, codes, char_at}
use dis.Libc.Numbers.{digit_value}
use dis.Libc.Printed.{hex-All}
use dis.Disassemble.{Line}
use dis.Listing.{print_instruction, padded, spaces, bytes_text}
use dis.Main.Prints.{lines_text}

-- The text, cut at the newlines.
abbrev onto : ℕ → List Text → List Text
onto c [] = (c ∷ []) ∷ []
onto c (line ∷ lines) = (c ∷ line) ∷ lines

abbrev pub lines_of : Text → List Text
lines_of [] = []
lines_of (c ∷ s) = let rest = lines_of s in if c == b'\n' then [] ∷ rest else onto c rest

abbrev digit_at : Text → ℕ → ℕ
digit_at s i = digit_value (char_at s i)

abbrev byte_at : Text → ℕ → ℕ
byte_at s i = digit_at s i * 16 + digit_at s (i + 1)

-- A line's address and bytes.
abbrev pub addr_of : Text → ℕ
addr_of s = (byte_at s 0) * 256 + byte_at s 2

abbrev pub bytes_of : Text → List ℕ
bytes_of s =
    byte_at s 6
    ∷ (if char_at s 9 == b' '
        then []
        else byte_at s 9 ∷ (if char_at s 12 == b' ' then [] else byte_at s 12 ∷ []))

abbrev pub parse_listing : Text → List (ℕ × List ℕ)
parse_listing s = map (λ line. (addr_of line, bytes_of line)) (lines_of s)

-- A line that is printed as one.
abbrev pub IsShown : ℕ → Type 0
IsShown c = (c == b'\n') ≡ false

abbrev pub IsByte : ℕ → Type 0
IsByte b = b < 256

abbrev pub IsPrinted : Line → Type 0
IsPrinted l =
    (l.addr < 65536)
    × (1 ≤ length l.bytes)
    × (length l.bytes ≤ 3)
    × All IsByte l.bytes
    × All IsShown l.text

lines_of-newline :
    (line rest : Text) → All IsShown line → lines_of (line ++ (b'\n' ∷ rest)) ≡ line ∷ lines_of rest
lines_of-newline [] rest shown = refl
lines_of-newline (c ∷ line) rest shown =
    rw shown.0 (ap (onto c) (lines_of-newline line rest shown.1))

digit_lem :
    (d : ℕ)
    → d < 16
    → (digit_value (digit_in lower_case d) ≡ d)
      × ((digit_in lower_case d == b' ') ≡ false)
      × IsShown (digit_in lower_case d)
digit_lem d h = ground arith

-- The line without its newline.
abbrev body : Line → Text
body l = hex 4 l.addr ++ codes ": " ++ bytes_text l.bytes ++ padded l.text

pub hex-IsShown : (k n : ℕ) → All IsShown (hex k n)
hex-IsShown k n = hex-All IsShown lower_case k n (λ d h. (digit_lem d h).2)

spaces-IsShown : (n : ℕ) → All IsShown (spaces n)
spaces-IsShown zero = tt
spaces-IsShown (suc n) = (refl, spaces-IsShown n)

two_digits :
    (b : ℕ)
    → b < 256
    → digit_value (digit_in lower_case (b / 16 % 16)) * 16
        + digit_value (digit_in lower_case (b % 16))
      ≡ b
two_digits b h =
    let (high, _, _) = digit_lem (b / 16 % 16) (omega arith) in
    let (low, _, _) = digit_lem (b % 16) (omega arith) in rw (high, low) (omega arith)

same_three : (x y z a b c : ℕ) → x ≡ a → y ≡ b → z ≡ c → x ∷ y ∷ z ∷ [] ≡ a ∷ b ∷ c ∷ []
same_three x y z a b c one two three = rw (one, two, three) refl

body-bytes :
    (addr : ℕ) (bytes : List ℕ) (text : Text)
    → 1 ≤ length bytes
    → length bytes ≤ 3
    → All IsByte bytes
    → bytes_of (body (record { addr = addr; bytes = bytes; text = text })) ≡ bytes
unfolding hex_in
body-bytes addr [] text some_byte few fit = absurd (omega arith)
body-bytes addr (a ∷ []) text some_byte few fit = ap (λ (b : ℕ). b ∷ []) (two_digits a fit.0)
body-bytes addr (a ∷ b ∷ []) text some_byte few fit =
    let (_, second, _) = digit_lem (b / 16 % 16) (omega arith) in
    rw second (ap₂ (λ (x y : ℕ). x ∷ y ∷ []) (two_digits a fit.0) (two_digits b fit.1.0))
body-bytes addr (a ∷ b ∷ c ∷ []) text some_byte few fit =
    let (_, second, _) = digit_lem (b / 16 % 16) (omega arith) in
    let (_, third, _) = digit_lem (c / 16 % 16) (omega arith) in
    rw (second, third)
      (same_three _ _ _ a b c (two_digits a fit.0) (two_digits b fit.1.0) (two_digits c fit.1.1.0))
body-bytes addr (a ∷ b ∷ c ∷ d ∷ rest) text some_byte few fit = absurd (omega arith)

body-addr : (l : Line) → l.addr < 65536 → addr_of (body l) ≡ l.addr
unfolding hex_in
body-addr l fits =
    let n = l.addr in
    let (a, _, _) = digit_lem (n / 16 / 16 / 16 % 16) (omega arith) in
    let (b, _, _) = digit_lem (n / 16 / 16 % 16) (omega arith) in
    let (c, _, _) = digit_lem (n / 16 % 16) (omega arith) in
    let (d, _, _) = digit_lem (n % 16) (omega arith) in rw (a, b, c, d) (omega arith)

number-IsShown :
    (before : Text) (b n : ℕ) → All IsShown before → All IsShown (before ++ hex 2 b ++ spaces n)
number-IsShown before b n shown =
    All-append IsShown (before ++ hex 2 b) (spaces n)
      (All-append IsShown before (hex 2 b) shown (hex-IsShown 2 b)) (spaces-IsShown n)

three-IsShown :
    (a b c : ℕ)
    → All IsShown (hex 2 a ++ codes " " ++ hex 2 b ++ codes " " ++ hex 2 c ++ codes "  ")
three-IsShown a b c =
    let one = number-IsShown [] a 1 tt in
    let two = number-IsShown (hex 2 a ++ codes " ") b 1 one in
    number-IsShown (hex 2 a ++ codes " " ++ hex 2 b ++ codes " ") c 2 two

bytes_text-IsShown : (bytes : List ℕ) → All IsShown (bytes_text bytes)
bytes_text-IsShown [] = three-IsShown 0 0 0
bytes_text-IsShown (a ∷ []) = number-IsShown [] a 8 tt
bytes_text-IsShown (a ∷ b ∷ []) =
    number-IsShown (hex 2 a ++ codes " ") b 5 (number-IsShown [] a 1 tt)
bytes_text-IsShown (a ∷ b ∷ c ∷ bytes) = three-IsShown a b c

body-IsShown : (l : Line) → All IsShown l.text → All IsShown (body l)
body-IsShown l shown =
    let front =
      All-append IsShown (hex 4 l.addr) (codes ": ") (hex-IsShown 4 l.addr) (refl, (refl, tt)) in
    let middle =
      All-append IsShown (hex 4 l.addr ++ codes ": ") (bytes_text l.bytes) front
        (bytes_text-IsShown l.bytes) in
    let back =
      All-append IsShown l.text (spaces (10 - length l.text)) shown
        (spaces-IsShown (10 - length l.text)) in
    All-append IsShown (hex 4 l.addr ++ codes ": " ++ bytes_text l.bytes) (padded l.text) middle
      back

-- What a line says.
abbrev pub said : Line → ℕ × List ℕ
said l = (l.addr, l.bytes)

-- The lines that print_instruction prints are read back.
pub parse_listing-lines_text :
    (lines : List Line) → All IsPrinted lines → parse_listing (lines_text lines) ≡ map said lines
parse_listing-lines_text [] printed = refl
parse_listing-lines_text (l ∷ lines) ((addr, some_byte, few, fit, shown), printed) =
    let rest = lines_text lines in
    let cut : lines_of (print_instruction l ++ rest) ≡ body l ∷ lines_of rest =
      ap lines_of (append_assoc (body l) newline rest)
      ∙ lines_of-newline (body l) rest (body-IsShown l shown) in
    ap (map (λ line. (addr_of line, bytes_of line))) cut
    ∙ ap₂ (λ (x : ℕ × List ℕ) (xs : List (ℕ × List ℕ)). x ∷ xs)
        (ap₂ (λ (a : ℕ) (bs : List ℕ). (a, bs)) (body-addr l addr)
          (body-bytes l.addr l.bytes l.text some_byte few fit))
        (parse_listing-lines_text lines printed)
