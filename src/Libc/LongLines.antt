-- ===== src/Libc/LongLines.antt =====
-- `fgets` on a line that does not fit its buffer.
use dis.Base.{
  ℕ, zero, suc, ◌+◌, ◌-◌, ◌≡◌, refl, ap, arith, false, some, List, [], ◌∷◌, ◌++◌, ◌==◌, length,
  take-append, drop-append, All,
}
use dis.Base.Text.{char_at}
use dis.Libc.Files.{fgets, line_len, c_string}
use dis.Libc.PlainLines.{IsInLine}

line_len-full :
    (text rest : List ℕ) → All IsInLine text → line_len (length text) (text ++ rest) ≡ length text
line_len-full [] rest inner = refl
line_len-full (c ∷ text) rest inner =
    let other : (c == b'\n') ≡ false = ground (arith, inner) in
    rw other (ap suc (line_len-full text rest inner.1))

pub c_string-full : (text : List ℕ) → All IsInLine text → c_string text ≡ text
c_string-full [] inner = refl
c_string-full (c ∷ text) inner =
    let other : (c == 0) ≡ false = ground (arith, inner) in
    rw other (ap (λ (t : List ℕ). c ∷ t) (c_string-full text inner.1))

pub char_at-IsInLine :
    (text : List ℕ) (i : ℕ) → All IsInLine text → (char_at text i == b'\n') ≡ false
char_at-IsInLine [] i inner = refl
char_at-IsInLine (c ∷ text) zero inner = ground (arith, inner)
char_at-IsInLine (c ∷ text) (suc i) inner = char_at-IsInLine text i inner.1

-- The buffer is filled.
pub fgets-full :
    (c : ℕ) (text rest : List ℕ) (pos : ℕ)
    → All IsInLine (c ∷ text)
    → fgets (suc (length (c ∷ text))) (record { rest = (c ∷ text) ++ rest; pos = pos })
      ≡ some (c ∷ text, record { rest = rest; pos = pos + length (c ∷ text) })
unfolding fgets
fgets-full c text rest pos inner =
    let whole = c ∷ text in
    let most : suc (length whole) - 1 ≡ length whole = omega arith in
    let some_read : (length whole == 0) ≡ false = ground arith in
    rw (most, line_len-full whole rest inner)
      (rw (take-append whole rest, drop-append whole rest) (rw some_read refl))
