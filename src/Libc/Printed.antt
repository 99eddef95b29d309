-- ===== src/Libc/Printed.antt =====
-- Reading back what was printed: lines, and hexadecimal numbers.
use dis.Base.{
  ℕ, zero, suc, ◌+◌, ◌*◌, ◌/◌, ◌%◌, ◌^◌, ◌<◌, ◌≡◌, refl, sym, ap₂, ◌∙◌, arith, true, false, some,
  [], ◌∷◌, ◌++◌, ◌==◌, length, length-append, All, All-append, Bool-cases, inl, inr,
}
use mathlib.Core.List.{append_assoc}
use native.Mathlib.Nat.{pow-suc}
use dis.Base.Text.{Text, char_at, Letters, lower_case, upper_case, digit_in, hex_in}
use dis.Libc.Decimals.{Breaks, IsNoX}
use dis.Libc.Numbers.{
  is_space, skip_space, skip_sign, skip_prefix, is_prefixed, digit_value, is_digit, digits,
  after_digits, convert,
}

digit_in_lem :
    (l : Letters) (d : ℕ)
    → d < 16
    → (digit_value (digit_in l d) ≡ d) × (is_digit 16 (digit_in l d) ≡ true)
digit_in_lem lower_case d h = ground arith
digit_in_lem upper_case d h = ground arith

-- No digit follows.
abbrev pub Ends : Text → Type 0
Ends rest = is_digit 16 (char_at rest 0) ≡ false

digits_end :
    (acc : ℕ) (rest : Text) → Ends rest → (digits 16 acc rest ≡ acc) × (after_digits 16 rest ≡ rest)
digits_end acc [] ends = (refl, refl)
digits_end acc (c ∷ rest) ends = (rw ends, rw ends)

shifted : (acc p q d : ℕ) → (acc * p + q) * 16 + d ≡ acc * (16 * p) + (q * 16 + d)
shifted acc p q d = grind arith

digits-hex :
    (l : Letters) (k acc n : ℕ) (rest : Text)
    → n < 16 ^ k
    → digits 16 acc (hex_in l k n ++ rest) ≡ digits 16 (acc * 16 ^ k + n) rest
unfolding hex_in
digits-hex l zero acc n rest fits = let e : acc * 1 + n ≡ acc = omega arith in rw e
digits-hex l (suc k) acc n rest fits =
    let power : 16 ^ suc k ≡ 16 * 16 ^ k = omega (arith, pow-suc 16 k) in
    let d = n % 16 in
    let (value, is) = digit_in_lem l d (omega arith) in
    let before = digits-hex l k acc (n / 16) (digit_in l d ∷ rest) (omega arith) in
    let whole : n / 16 * 16 + d ≡ n = omega arith in
    let total : (acc * 16 ^ k + n / 16) * 16 + d ≡ acc * 16 ^ suc k + n =
      shifted acc (16 ^ k) (n / 16) d ∙ ap₂ (λ (a b : ℕ). acc * a + b) (sym power) whole in
    rw (append_assoc (hex_in l k (n / 16)) (digit_in l d ∷ []) rest)
      (before ∙ rw (is, value, total))

after_digits-hex :
    (l : Letters) (k n : ℕ) (rest : Text)
    → after_digits 16 (hex_in l k n ++ rest) ≡ after_digits 16 rest
unfolding hex_in
after_digits-hex l zero n rest = refl
after_digits-hex l (suc k) n rest =
    let d = n % 16 in
    let (value, is) = digit_in_lem l d (omega arith) in
    rw (append_assoc (hex_in l k (n / 16)) (digit_in l d ∷ []) rest)
      (after_digits-hex l k (n / 16) (digit_in l d ∷ rest) ∙ rw is)

-- The first character is a digit, and so is the second.
pub hex_head :
    (l : Letters) (k n : ℕ) (rest : Text)
    → (d : ℕ) × (e : ℕ) × (d < 16)
      × (e < 16)
      × (char_at (hex_in l (suc (suc k)) n ++ rest) 0 ≡ digit_in l d)
      × (char_at (hex_in l (suc (suc k)) n ++ rest) 1 ≡ digit_in l e)
unfolding hex_in
hex_head l zero n rest = (n / 16 % 16, n % 16, omega arith, omega arith, refl, refl)
hex_head l (suc k) n rest =
    let d = n % 16 in
    rw (append_assoc (hex_in l (suc (suc k)) (n / 16)) (digit_in l d ∷ []) rest)
      (hex_head l k (n / 16) (digit_in l d ∷ rest))

-- A digit is no blank, no sign and no x.
abbrev IsDigitChar : ℕ → Type 0
IsDigitChar c =
    (is_space c ≡ false)
    × ((c == b'-') ≡ false)
    × ((c == b'+') ≡ false)
    × ((c == b'x') ≡ false)
    × ((c == b'X') ≡ false)
    × (is_digit 16 c ≡ true)

digit_in-IsDigitChar : (l : Letters) (d : ℕ) → d < 16 → IsDigitChar (digit_in l d)
digit_in-IsDigitChar lower_case d h = ground arith
digit_in-IsDigitChar upper_case d h = ground arith

unprefixed : (s : Text) → IsNoX (char_at s 1) → skip_prefix 16 s ≡ s
unfolding skip_prefix is_prefixed
unprefixed s (x, y) = elim (Bool-cases (char_at s 0 == b'0')) [
  | inl nought ↦ rw (nought, x, y)
  | inr other ↦ rw other
]

unsigned : (s : Text) → IsDigitChar (char_at s 0) → skip_sign s ≡ s
unfolding skip_sign
unsigned s (_, minus, plus, _, _, _) = rw (minus, plus)

unspaced : (s : Text) → IsDigitChar (char_at s 0) → skip_space s ≡ s
unfolding skip_space
unspaced [] is = refl
unspaced (c ∷ s) is = rw is.0

convert-digits :
    (s : Text)
    → IsDigitChar (char_at s 0)
    → IsNoX (char_at s 1)
    → convert 16 s
      ≡ some (record { negative = false; magnitude = digits 16 0 s; after = after_digits 16 s })
unfolding convert
convert-digits s first second =
    rw (unspaced s first, unsigned s first, unprefixed s second, first.1, first.5)

-- The first character of a number is a digit.
pub hex_first :
    (l : Letters) (k n : ℕ) (rest : Text)
    → (d : ℕ) × (d < 16) × (char_at (hex_in l (suc k) n ++ rest) 0 ≡ digit_in l d)
unfolding hex_in
hex_first l zero n rest = (n % 16, omega arith, refl)
hex_first l (suc k) n rest =
    let d = n % 16 in
    rw (append_assoc (hex_in l (suc k) (n / 16)) (digit_in l d ∷ []) rest)
      (hex_first l k (n / 16) (digit_in l d ∷ rest))

Breaks-IsNoX : (rest : Text) → Breaks rest → IsNoX (char_at rest 0)
Breaks-IsNoX rest breaks = (ground (arith, breaks), ground (arith, breaks))

-- The second is no x: it is a digit, or stands behind a number of one.
hex_second :
    (l : Letters) (k n : ℕ) (rest : Text)
    → Breaks rest
    → IsNoX (char_at (hex_in l (suc k) n ++ rest) 1)
unfolding hex_in
hex_second l zero n rest breaks = Breaks-IsNoX rest breaks
hex_second l (suc k) n rest breaks =
    let (_, e, _, e-lt, _, second) = hex_head l k n rest in
    let (_, _, _, x, y, _) = digit_in-IsDigitChar l e e-lt in rw second (x, y)

convert_from :
    (l : Letters) (k n : ℕ) (rest : Text)
    → n < 16 ^ suc k
    → Ends rest
    → IsNoX (char_at (hex_in l (suc k) n ++ rest) 1)
    → convert 16 (hex_in l (suc k) n ++ rest)
      ≡ some (record { negative = false; magnitude = n; after = rest })
convert_from l k n rest fits ends second =
    let s = hex_in l (suc k) n ++ rest in
    let (d, d-lt, first) = hex_first l k n rest in
    let is = convert-digits s (rw first (digit_in-IsDigitChar l d d-lt)) second in
    let value : digits 16 0 s ≡ n =
      digits-hex l (suc k) 0 n rest fits
      ∙ (digits_end (0 * 16 ^ suc k + n) rest ends).0
      ∙ grind arith in
    let after : after_digits 16 s ≡ rest =
      after_digits-hex l (suc k) n rest ∙ (digits_end 0 rest ends).1 in
    is
    ∙ ap₂ (λ (v : ℕ) (t : Text). some (record { negative = false; magnitude = v; after = t })) value
        after

-- `strtoul` and `strtol` to base 16 read a printed number back.
pub convert-hex :
    (l : Letters) (k n : ℕ) (rest : Text)
    → n < 16 ^ suc (suc k)
    → Ends rest
    → convert 16 (hex_in l (suc (suc k)) n ++ rest)
      ≡ some (record { negative = false; magnitude = n; after = rest })
convert-hex l k n rest fits ends =
    let (_, e, _, e-lt, _, second) = hex_head l k n rest in
    let (_, _, _, x, y, _) = digit_in-IsDigitChar l e e-lt in
    convert_from l (suc k) n rest fits ends (rw second (x, y))

-- Where a blank or nothing is behind it, one digit is enough.
pub convert-hex_short :
    (l : Letters) (k n : ℕ) (rest : Text)
    → n < 16 ^ suc k
    → Breaks rest
    → convert 16 (hex_in l (suc k) n ++ rest)
      ≡ some (record { negative = false; magnitude = n; after = rest })
convert-hex_short l k n rest fits breaks =
    convert_from l k n rest fits (ground (arith, breaks)) (hex_second l k n rest breaks)

-- Every character of a printed number is a digit.
pub hex-All :
    (P : ℕ → Type 0) (l : Letters) (k n : ℕ)
    → ((d : ℕ) → d < 16 → P (digit_in l d))
    → All P (hex_in l k n)
unfolding hex_in
hex-All P l zero n each = tt
hex-All P l (suc k) n each =
    All-append P (hex_in l k (n / 16)) (digit_in l (n % 16) ∷ []) (hex-All P l k (n / 16) each)
      (each (n % 16) (omega arith), tt)

pub length-hex : (l : Letters) (k n : ℕ) → length (hex_in l k n) ≡ k
unfolding hex_in
length-hex l zero n = refl
length-hex l (suc k) n =
    omega (
      arith,
      length-append (hex_in l k (n / 16)) (digit_in l (n % 16) ∷ []),
      length-hex l k (n / 16),
    )
