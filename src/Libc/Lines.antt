-- ===== src/Libc/Lines.antt =====
-- Reading a line takes bytes from the file.
use dis.Base.{
  ℕ, zero, suc, ◌-◌, ◌≤◌, ◌<◌, ◌≡◌, ◌⊎◌, inl, inr, refl, arith, true, false, none, some, List, [],
  ◌∷◌, ◌==◌, length, take, drop, Bool-cases,
}
use dis.Libc.Files.{File, fgets, line_len, skip}

pub length-drop {ℓ} : {A : Type ℓ} (n : ℕ) (xs : List A) → length (drop n xs) ≤ length xs
length-drop zero xs = omega arith
length-drop (suc n) [] = omega arith
length-drop (suc n) (x ∷ xs) = omega (arith, length-drop n xs)

drop_shorter :
    (n : ℕ) (bytes : List ℕ)
    → (n == 0) ≡ false
    → (bytes ≡ []) ⊎ (length (drop n bytes) < length bytes)
drop_shorter zero bytes h = cc
drop_shorter (suc n) [] h = inl refl
drop_shorter (suc n) (b ∷ bytes) h = inr (omega (arith, length-drop n bytes))

line_len-nil : (most : ℕ) → line_len most [] ≡ 0
line_len-nil zero = refl
line_len-nil (suc most) = refl

-- `fgets` fails or takes a byte at least.
pub fgets-cases :
    (size : ℕ) (f : File)
    → (fgets size f ≡ none)
      ⊎ ((chars : List ℕ) × (f' : File) × (fgets size f ≡ some (chars, f'))
          × (length f'.rest < length f.rest))
unfolding fgets
fgets-cases size f =
    let n = line_len (size - 1) f.rest in
    elim (Bool-cases (n == 0)) [
      | inl stop ↦ inl (rw stop)
      | inr more ↦ elim (drop_shorter n f.rest more) [
        | inr shorter ↦ inr (take n f.rest, skip n f, rw more, shorter)
        | inl empty ↦ let none_read : (n == 0) ≡ true = rw (empty, line_len-nil (size - 1)) in cc
      ]
    ]
