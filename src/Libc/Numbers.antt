-- ===== src/Libc/Numbers.antt =====
-- `strtoul` and `strtol` for the bases 10 and 16, with a `long` of 64 bits.
use dis.Base.{
  ℕ, ◌+◌, ◌-◌, ◌*◌, ◌%◌, ◌^◌, Bool, ◌&&◌, ◌||◌, Option, none, some, [], ◌∷◌, ltb, leb, ◌==◌,
  if◌then◌else◌, drop,
}
use dis.Base.Text.{Text, char_at}

-- `isspace`
abbrev pub is_space : ℕ → Bool
is_space c = c == b' ' || leb 9 c && leb c 13

unfoldable pub skip_space : Text → Text
skip_space [] = []
skip_space (c ∷ s) = if is_space c then skip_space s else c ∷ s

-- The value of a digit or letter, and 36 for any other character.
abbrev pub digit_value : ℕ → ℕ
digit_value c =
    if leb b'0' c && leb c b'9'
    then c - b'0'
    else if leb b'a' c && leb c b'z'
    then c - b'a' + 10
    else if leb b'A' c && leb c b'Z'
    then c - b'A' + 10
    else 36

abbrev pub is_digit : ℕ → ℕ → Bool
is_digit base c = ltb (digit_value c) base

-- The number that the leading digits of the text say, after `acc`.
abbrev pub digits : ℕ → ℕ → Text → ℕ
digits base acc [] = acc
digits base acc (c ∷ s) =
    if is_digit base c then digits base (acc * base + digit_value c) s else acc

abbrev pub after_digits : ℕ → Text → Text
after_digits base [] = []
after_digits base (c ∷ s) = if is_digit base c then after_digits base s else c ∷ s

unfoldable pub is_prefixed : Text → Bool
is_prefixed s =
    char_at s 0 == b'0' && (char_at s 1 == b'x' || char_at s 1 == b'X') && is_digit 16 (char_at s 2)

unfoldable pub skip_prefix : ℕ → Text → Text
skip_prefix base s = if base == 16 && is_prefixed s then drop 2 s else s

unfoldable pub skip_sign : Text → Text
skip_sign s = if char_at s 0 == b'-' || char_at s 0 == b'+' then drop 1 s else s

-- A conversion: the sign, the magnitude, and the text at `endp`; `none` where `endp` is `s`.
pub record Number : Type 0 where
  pub negative : Bool
  pub magnitude : ℕ
  pub after : Text

unfoldable pub convert : ℕ → Text → Option Number
convert base s =
    let signed = skip_space s in
    let body = skip_prefix base (skip_sign signed) in
    if is_digit base (char_at body 0)
    then some (record {
      negative = char_at signed 0 == b'-';
      magnitude = digits base 0 body;
      after = after_digits base body;
    })
    else none

-- `strtoul` once there is a number: `none` for ERANGE.
unfoldable pub to_ulong : Number → Option ℕ
to_ulong n =
    if leb (2 ^ 64) n.magnitude
    then none
    else some (if n.negative then (2 ^ 64 - n.magnitude) % 2 ^ 64 else n.magnitude)

-- The value of a conversion as an `int`.
abbrev pub int_of : Option Number → ℕ
int_of none = 0
int_of (some n) = if n.negative then (2 ^ 32 - n.magnitude) % 2 ^ 32 else n.magnitude

-- `(int)strtol(s, NULL, 16)` for a text of at most four characters, in two's complement.
unfoldable pub hex_int : Text → ℕ
hex_int s = int_of (convert 16 s)
