-- ===== src/Libc/PlainLines.antt =====
-- `fgets` on a line whose text has no newline and no NUL.
use dis.Base.{
  ℕ, zero, suc, ◌+◌, ◌-◌, ◌≤◌, ◌<◌, ◌≡◌, refl, ap, arith, Bool, true, false, not, ◌||◌, some, List,
  [], ◌∷◌, ◌++◌, ◌==◌, length, take, drop, All,
}
use dis.Base.Text.{newline}
use dis.Libc.Files.{fgets, line_len, c_string}

-- What a line may hold.
abbrev pub is_plain : ℕ → Bool
is_plain c = not (c == b'\n' || c == b'\r' || c == 0)

abbrev pub IsPlain : ℕ → Type 0
IsPlain c = is_plain c ≡ true

-- What does not end a line, nor the string that it is read as.
abbrev pub is_in_line : ℕ → Bool
is_in_line c = not (c == b'\n' || c == 0)

abbrev pub IsInLine : ℕ → Type 0
IsInLine c = is_in_line c ≡ true

pub plain-IsInLine : (text : List ℕ) → All IsPlain text → All IsInLine text
plain-IsInLine [] plain = tt
plain-IsInLine (c ∷ text) plain = (ground (arith, plain), plain-IsInLine text plain.1)

line_len-newline :
    (text rest : List ℕ) (most : ℕ)
    → All IsInLine text
    → length text < most
    → line_len most (text ++ (b'\n' ∷ rest)) ≡ suc (length text)
line_len-newline text rest zero plain fits = absurd (omega arith)
line_len-newline [] rest (suc most) plain fits = refl
line_len-newline (c ∷ text) rest (suc most) plain fits =
    let other : (c == b'\n') ≡ false = ground (arith, plain) in
    rw other (ap suc (line_len-newline text rest most plain.1 (omega arith)))

take-newline :
    (text rest : List ℕ) → take (suc (length text)) (text ++ (b'\n' ∷ rest)) ≡ text ++ newline
take-newline [] rest = refl
take-newline (c ∷ text) rest = ap (λ (t : List ℕ). c ∷ t) (take-newline text rest)

drop-newline : (text rest : List ℕ) → drop (suc (length text)) (text ++ (b'\n' ∷ rest)) ≡ rest
drop-newline [] rest = refl
drop-newline (c ∷ text) rest = drop-newline text rest

pub c_string-newline :
    (text : List ℕ) → All IsInLine text → c_string (text ++ newline) ≡ text ++ newline
c_string-newline [] plain = refl
c_string-newline (c ∷ text) plain =
    let other : (c == 0) ≡ false = ground (arith, plain) in
    rw other (ap (λ (t : List ℕ). c ∷ t) (c_string-newline text plain.1))

pub fgets-newline :
    (size : ℕ) (text rest : List ℕ) (pos : ℕ)
    → All IsInLine text
    → length text + 2 ≤ size
    → fgets size (record { rest = text ++ (b'\n' ∷ rest); pos = pos })
      ≡ some (text ++ newline, record { rest = rest; pos = pos + suc (length text) })
unfolding fgets
fgets-newline size text rest pos plain fits =
    let len = line_len-newline text rest (size - 1) plain (omega arith) in
    let whole = take-newline text rest in
    let behind = drop-newline text rest in
    let reads : (suc (length text) == 0) ≡ false = ground arith in
    rw len (rw whole (rw behind (rw reads refl)))
