-- ===== src/Hexfile/Copies.antt =====
-- The copies of `readHexFile` out of `lineBuffer` and into `tmpBuffer`, for every byte of a record.
use dis.Base.{
  ℕ, zero, suc, ◌+◌, ◌*◌, ◌≤◌, ◌<◌, ◌≡◌, refl, arith, true, ◌&&◌, some, List, [], ◌∷◌, ltb, leb,
  ◌==◌, length, drop, Bool-cases, inl, inr,
}
use dis.Base.Text.{Text, char_at}
use dis.Libc.Files.{c_string}
use dis.Libc.Numbers.{
  is_space, is_digit, digits, skip_space, skip_prefix, skip_sign, convert, hex_int,
}
use dis.Hexfile.{slice, field, copied, rounds, tmp_size, buffer_size}

length-slice : (buffer : ℕ → ℕ) (from n : ℕ) → length (slice buffer from n) ≡ n
length-slice buffer from zero = refl
length-slice buffer from (suc n) = omega (arith, length-slice buffer (from + 1) n)

length-c_string : (s : List ℕ) → length (c_string s) ≤ length s
length-c_string [] = omega arith
length-c_string (c ∷ s) = elim (Bool-cases (c == 0)) [
  | inl nul ↦ rw nul (omega arith)
  | inr other ↦ rw other (omega (arith, length-c_string s))
]

length-skip_space : (s : Text) → length (skip_space s) ≤ length s
unfolding skip_space
length-skip_space [] = omega arith
length-skip_space (c ∷ s) = elim (Bool-cases (is_space c)) [
  | inl blank ↦ rw blank (omega (arith, length-skip_space s))
  | inr other ↦ rw other (omega arith)
]

length-drop_le : (n : ℕ) (s : Text) → length (drop n s) ≤ length s
length-drop_le zero s = omega arith
length-drop_le (suc n) [] = omega arith
length-drop_le (suc n) (c ∷ s) = omega (arith, length-drop_le n s)

length-skip_sign : (s : Text) → length (skip_sign s) ≤ length s
unfolding skip_sign
length-skip_sign s = ground (arith, length-drop_le 1 s)

length-skip_prefix : (s : Text) → length (skip_prefix 16 s) ≤ length s
unfolding skip_prefix
length-skip_prefix s = ground (arith, length-drop_le 2 s)

-- A text of up to two digits, and one of any length.
digits_two : (s : Text) → length s ≤ 2 → digits 16 0 s < 256
digits_two [] fits = omega arith
digits_two (c ∷ []) fits = ground arith
digits_two (c ∷ d ∷ []) fits = ground arith
digits_two (c ∷ d ∷ e ∷ s) fits = absurd (omega arith)

-- The value of two characters, as an `int`: below 256, or negative.
int_two : (s : Text) → length s ≤ 2 → rounds (hex_int s) ≤ 255
unfolding hex_int convert
int_two s fits =
    let signed = skip_space s in
    let body = skip_prefix 16 (skip_sign signed) in
    let small : digits 16 0 body < 256 = digits_two body (
      omega (
        arith,
        length-skip_prefix (skip_sign signed),
        length-skip_sign signed,
        length-skip_space s,
      )) in
    elim (Bool-cases (is_digit 16 (char_at body 0))) [
      | inr nothing ↦ rw nothing (omega arith)
      | inl number ↦ rw number (elim (Bool-cases (char_at signed 0 == b'-')) [
        | inl minus ↦ rw minus (ground (arith, small))
        | inr plus ↦ rw plus (ground (arith, small))
      ])
    ]

-- The loop over the data bytes makes 255 rounds at most.
pub rounds-le : (buffer : ℕ → ℕ) → rounds (field buffer 1 2) ≤ 255
rounds-le buffer =
    int_two (c_string (slice buffer 1 2))
      (omega (arith, length-c_string (slice buffer 1 2), length-slice buffer 1 2))

-- Each of them copies inside the buffers.
pub copied-some :
    (buffer : ℕ → ℕ) (i : ℕ)
    → i < 255
    → copied buffer (9 + i * 2) 2 ≡ some (field buffer (9 + i * 2) 2)
copied-some buffer i small =
    let inside : (ltb 2 tmp_size && leb (9 + i * 2 + 2) buffer_size) ≡ true =
      ground (arith, small) in
    rw inside refl
