-- ===== src/Hexfile/Fields.antt =====
-- The fields of a line of `readHexFile`, where a number was printed to their columns.
use dis.Base.{
  ℕ, suc, ◌^◌, ◌<◌, ◌≡◌, refl, ap, ap₂, ◌∙◌, arith, true, false, List, [], ◌∷◌, ◌++◌, leb, ◌==◌,
  length, length-append, get_or, All,
}
use mathlib.Core.List.{append_assoc, append-nil}
use dis.Base.Text.{Text, Letters, lower_case, upper_case, digit_in, hex_in}
use dis.Libc.Files.{c_string}
use dis.Libc.Numbers.{hex_int}
use dis.Libc.Printed.{convert-hex, hex-All, length-hex}
use dis.Hexfile.{overwrite, slice, field}

get_or-append : (before rest : List ℕ) (b : ℕ) → get_or (before ++ b ∷ rest) (length before) 0 ≡ b
get_or-append [] rest b = refl
get_or-append (c ∷ before) rest b = get_or-append before rest b

pub overwrite-append :
    (stale : ℕ → ℕ) (before rest : List ℕ) (b : ℕ)
    → overwrite stale (before ++ b ∷ rest) (length before) ≡ b
overwrite-append stale before rest b =
    let inside : leb (length before) (length (before ++ b ∷ rest)) ≡ true =
      ground (arith, length-append before (b ∷ rest)) in
    rw inside (get_or-append before rest b)

-- The columns behind `before` hold `mid`.
slice-overwrite :
    (stale : ℕ → ℕ) (before mid after : List ℕ)
    → slice (overwrite stale (before ++ (mid ++ after))) (length before) (length mid) ≡ mid
slice-overwrite stale before [] after = refl
slice-overwrite stale before (b ∷ mid) after =
    let next = slice-overwrite stale (before ++ b ∷ []) mid after in
    let size = length-append before (b ∷ []) in
    ap₂ ◌∷◌ (overwrite-append stale before (mid ++ after) b)
      (rw (append_assoc before (b ∷ []) (mid ++ after), size) at next)

abbrev IsNotNul : ℕ → Type 0
IsNotNul c = (c == 0) ≡ false

digit-IsNotNul : (l : Letters) (d : ℕ) → d < 16 → (digit_in l d == 0) ≡ false
digit-IsNotNul lower_case d h = ground arith
digit-IsNotNul upper_case d h = ground arith

c_string-All : (s : Text) → All IsNotNul s → c_string s ≡ s
c_string-All [] all = refl
c_string-All (c ∷ s) all = rw all.0 (ap (λ (t : Text). c ∷ t) (c_string-All s all.1))

hex_int-hex :
    (l : Letters) (k n : ℕ) → n < 16 ^ suc (suc k) → hex_int (hex_in l (suc (suc k)) n) ≡ n
unfolding hex_int
hex_int-hex l k n fits =
    let read = rw append-nil at (convert-hex l k n [] fits refl) in rw read refl

pub field-hex :
    (stale : ℕ → ℕ) (before after : List ℕ) (l : Letters) (k n : ℕ)
    → n < 16 ^ suc (suc k)
    → field
        (overwrite stale (before ++ (hex_in l (suc (suc k)) n ++ after)))
        (length before)
        (suc (suc k))
      ≡ n
field-hex stale before after l k n fits =
    let digits = hex_in l (suc (suc k)) n in
    let size = length-hex l (suc (suc k)) n in
    let columns = rw size at (slice-overwrite stale before digits after) in
    let string = c_string-All digits (hex-All IsNotNul l (suc (suc k)) n (digit-IsNotNul l)) in
    ap hex_int (ap c_string columns ∙ string) ∙ hex_int-hex l k n fits
