-- ===== src/Libc/Decimals.antt =====
-- Reading back a number that was printed in decimal digits.
use dis.Base.{
  ℕ, zero, suc, ◌+◌, ◌*◌, ◌/◌, ◌%◌, ◌^◌, ◌<◌, ◌≤◌, ◌≡◌, ◌⊎◌, refl, sym, subst, ap₂, ◌∙◌, arith,
  true, false, some, [], ◌∷◌, ◌++◌, ◌==◌, ◌||◌, length, length-append, All, All-append, Bool-cases,
  inl, inr,
}
use mathlib.Core.List.{append_assoc}
use native.Mathlib.Nat.{pow-suc}
use dis.Base.Text.{Text, char_at, decimal}
use dis.Libc.Numbers.{
  is_space, skip_space, skip_sign, skip_prefix, digit_value, is_digit, digits, after_digits,
  convert,
}

-- The text with the digits of a number in front.
decimal_text-0 :
    (k n : ℕ) (rest : Text)
    → (n / 10 == 0) ≡ true
    → decimal (suc k) n ++ rest ≡ (b'0' + n % 10) ∷ rest
decimal_text-0 k n rest small = rw small refl

decimal_text-suc :
    (k n : ℕ) (rest : Text)
    → (n / 10 == 0) ≡ false
    → decimal (suc k) n ++ rest ≡ decimal k (n / 10) ++ (b'0' + n % 10) ∷ rest
decimal_text-suc k n rest large =
    rw large (append_assoc (decimal k (n / 10)) ((b'0' + n % 10) ∷ []) rest)

digit_value_lem : (d : ℕ) → d < 10 → (digit_value (b'0' + d) ≡ d) × (is_digit 10 (b'0' + d) ≡ true)
digit_value_lem d h = ground arith

digit_lem :
    (acc d : ℕ) (rest : Text)
    → d < 10
    → (digits 10 acc ((b'0' + d) ∷ rest) ≡ digits 10 (acc * 10 + d) rest)
      × (after_digits 10 ((b'0' + d) ∷ rest) ≡ after_digits 10 rest)
digit_lem acc d rest fits =
    let (value, is) = digit_value_lem d fits in (rw (is, value) refl, rw is refl)

digits-decimal :
    (k n : ℕ) (rest : Text)
    → n < 10 ^ k
    → (digits 10 0 (decimal k n ++ rest) ≡ digits 10 n rest)
      × (after_digits 10 (decimal k n ++ rest) ≡ after_digits 10 rest)
digits-decimal zero n rest fits = let none_left : n ≡ 0 = omega arith in rw none_left (refl, refl)
digits-decimal (suc k) n rest fits =
    let power : 10 ^ suc k ≡ 10 * 10 ^ k = omega (arith, pow-suc 10 k) in
    let d = n % 10 in
    elim (Bool-cases (n / 10 == 0)) [
      | inl small ↦
          let (value, after) = digit_lem 0 d rest (omega arith) in
          let whole : 0 * 10 + d ≡ n = ground (arith, small) in
          rw (decimal_text-0 k n rest small) (value ∙ rw whole refl, after)
      | inr large ↦
          let (value, after) = digit_lem (n / 10) d rest (omega arith) in
          let (value', after') = digits-decimal k (n / 10) ((b'0' + d) ∷ rest) (omega arith) in
          let whole : n / 10 * 10 + d ≡ n = omega arith in
          rw (decimal_text-suc k n rest large) (value' ∙ value ∙ rw whole refl, after' ∙ after)
    ]

-- A digit of a decimal number.
abbrev pub IsDecimal : ℕ → Type 0
IsDecimal c = (d : ℕ) × (d < 10) × (c ≡ b'0' + d)

-- What stands behind a number: nothing, or a blank.
abbrev pub Breaks : Text → Type 0
Breaks rest = (char_at rest 0 == 0 || char_at rest 0 == b' ') ≡ true

-- The first character is a digit, and the second is one or what follows.
abbrev pub Leads : Text → Text → Type 0
Leads s rest = IsDecimal (char_at s 0) × (IsDecimal (char_at s 1) ⊎ (char_at s 1 ≡ char_at rest 0))

Leads-behind : (s rest : Text) (d : ℕ) → d < 10 → Leads s ((b'0' + d) ∷ rest) → Leads s rest
Leads-behind s rest d fits (first, inl second) = (first, inl second)
Leads-behind s rest d fits (first, inr second) = (first, inl (d, fits, second))

pub decimal-Leads : (k n : ℕ) (rest : Text) → Leads (decimal (suc k) n ++ rest) rest
decimal-Leads zero n rest = elim (Bool-cases (n / 10 == 0)) [
  | inl small ↦ rw (decimal_text-0 0 n rest small) ((n % 10, omega arith, refl), inr refl)
  | inr large ↦ rw (decimal_text-suc 0 n rest large) ((n % 10, omega arith, refl), inr refl)
]
decimal-Leads (suc k) n rest = elim (Bool-cases (n / 10 == 0)) [
  | inl small ↦ rw (decimal_text-0 (suc k) n rest small) ((n % 10, omega arith, refl), inr refl)
  | inr large ↦ rw (decimal_text-suc (suc k) n rest large) (
      Leads-behind (decimal (suc k) (n / 10) ++ (b'0' + n % 10) ∷ rest) rest (n % 10) (omega arith)
        (decimal-Leads k (n / 10) ((b'0' + n % 10) ∷ rest)))
]

-- A decimal digit is no blank, no sign and no prefix.
abbrev pub IsPlainDigit : ℕ → Type 0
IsPlainDigit c =
    (is_space c ≡ false)
    × ((c == b'-') ≡ false)
    × ((c == b'+') ≡ false)
    × ((c == b'$') ≡ false)
    × (is_digit 10 c ≡ true)

digit-IsPlainDigit : (d : ℕ) → d < 10 → IsPlainDigit (b'0' + d)
digit-IsPlainDigit d h = ground arith

skip_space_first : (s : Text) → is_space (char_at s 0) ≡ false → skip_space s ≡ s
unfolding skip_space
skip_space_first [] is = refl
skip_space_first (c ∷ s) is = rw is refl

convert-digits :
    (s : Text)
    → IsPlainDigit (char_at s 0)
    → convert 10 s
      ≡ some (record { negative = false; magnitude = digits 10 0 s; after = after_digits 10 s })
unfolding convert skip_sign skip_prefix
convert-digits s (space, minus, plus, _, is) = rw (skip_space_first s space, minus, plus, is) refl

IsDecimal-IsPlainDigit : (c : ℕ) → IsDecimal c → IsPlainDigit c
IsDecimal-IsPlainDigit c (d, fits, is) = subst IsPlainDigit (sym is) (digit-IsPlainDigit d fits)

-- The second character of a number is no x.
abbrev pub IsNoX : ℕ → Type 0
IsNoX c = ((c == b'x') ≡ false) × ((c == b'X') ≡ false)

second-IsNoX : (s rest : Text) → Breaks rest → Leads s rest → IsNoX (char_at s 1)
second-IsNoX s rest breaks (first, inl (d, fits, is)) = (ground (arith, is), ground (arith, is))
second-IsNoX s rest breaks (first, inr is) = (ground (arith, is), ground (arith, is))

digits_break :
    (n : ℕ) (rest : Text) → Breaks rest → (digits 10 n rest ≡ n) × (after_digits 10 rest ≡ rest)
digits_break n [] breaks = (refl, refl)
digits_break n (c ∷ rest) breaks =
    let other : is_digit 10 c ≡ false = ground (arith, breaks) in (rw other refl, rw other refl)

-- What a conversion meets in front of a decimal number, and what it gives.
pub convert-decimal :
    (k n : ℕ) (rest : Text)
    → n < 10 ^ suc k
    → Breaks rest
    → IsPlainDigit (char_at (decimal (suc k) n ++ rest) 0)
      × IsNoX (char_at (decimal (suc k) n ++ rest) 1)
      × (convert 10 (decimal (suc k) n ++ rest)
          ≡ some (record { negative = false; magnitude = n; after = rest }))
convert-decimal k n rest fits breaks =
    let s = decimal (suc k) n ++ rest in
    let leads = decimal-Leads k n rest in
    let first = IsDecimal-IsPlainDigit (char_at s 0) leads.0 in
    let (value, after) = digits-decimal (suc k) n rest fits in
    let (kept, left) = digits_break n rest breaks in
    (
      first,
      second-IsNoX s rest breaks leads,
      convert-digits s first
          ∙ ap₂ (λ (v : ℕ) (t : Text). some (record { negative = false; magnitude = v; after = t }))
              (value ∙ kept) (after ∙ left),
    )

-- Every character of a decimal number is a digit, and there are no more than places.
pub decimal-All :
    (P : ℕ → Type 0) (k n : ℕ) → ((d : ℕ) → d < 10 → P (b'0' + d)) → All P (decimal k n)
decimal-All P zero n each = tt
decimal-All P (suc k) n each = elim (Bool-cases (n / 10 == 0)) [
  | inl small ↦ rw small (each (n % 10) (omega arith), tt)
  | inr large ↦ rw large (
      All-append P (decimal k (n / 10)) ((b'0' + n % 10) ∷ []) (decimal-All P k (n / 10) each)
        (each (n % 10) (omega arith), tt))
]

pub length-decimal : (k n : ℕ) → length (decimal k n) ≤ k
length-decimal zero n = omega arith
length-decimal (suc k) n = elim (Bool-cases (n / 10 == 0)) [
  | inl small ↦ rw small (omega arith)
  | inr large ↦ rw large (
      omega (
        arith,
        length-append (decimal k (n / 10)) ((b'0' + n % 10) ∷ []),
        length-decimal k (n / 10),
      ))
]
