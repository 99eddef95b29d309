-- ===== src/Rp6502file/PlainLines.antt =====
-- `readLine` on a line that was printed.
use dis.Base.{
  ℕ, suc, ◌+◌, ◌-◌, ◌≤◌, ◌≡◌, refl, ap, ◌∙◌, arith, Bool, true, false, ◌&&◌, some, List, [], ◌∷◌,
  ◌++◌, ◌==◌, length, length-append, All, All-append,
}
use mathlib.Core.List.{append_assoc}
use dis.Base.Text.{newline, LineEnd, lf, crlf, ending, char_at}
use dis.Libc.PlainLines.{IsPlain, IsInLine, plain-IsInLine, c_string-newline, fgets-newline}
use dis.Rp6502file.Parse.{read_line, line_max, strip, keep, is_too_long}

last_newline : (text : List ℕ) → char_at (text ++ newline) (length text) ≡ b'\n'
last_newline [] = refl
last_newline (c ∷ text) = last_newline text

strip-newline : (text : List ℕ) → All IsPlain text → strip (text ++ newline) ≡ text
strip-newline [] plain = refl
strip-newline (c ∷ []) plain = ground (arith, plain)
strip-newline (c ∷ d ∷ text) plain = ap (keep c) (strip-newline (d ∷ text) plain.1)

strip-return : (text : List ℕ) → All IsPlain text → strip (text ++ b'\r' ∷ newline) ≡ text
strip-return [] plain = refl
strip-return (c ∷ []) plain = ground (arith, plain)
strip-return (c ∷ d ∷ text) plain = ap (keep c) (strip-return (d ∷ text) plain.1)

and_false : (test : Bool) → (test && false) ≡ false
and_false true = refl
and_false false = refl

is_too_long-newline :
    (text : List ℕ) → length text ≤ 254 → is_too_long line_max (text ++ newline) ≡ false
is_too_long-newline text fits =
    let size : length (text ++ newline) ≡ length text + 1 = length-append text newline in
    let last : char_at (text ++ newline) (length (text ++ newline) - 1) ≡ b'\n' =
      ap (char_at (text ++ newline)) (omega arith) ∙ last_newline text in
    rw last (and_false (length (text ++ newline) + 1 == line_max))

-- A line that fits the buffer is stripped.
read_line-newline :
    (text rest : List ℕ) (pos : ℕ)
    → All IsInLine text
    → length text ≤ 254
    → read_line line_max (record { rest = text ++ (b'\n' ∷ rest); pos = pos })
      ≡ (some (strip (text ++ newline)), record { rest = rest; pos = pos + suc (length text) })
unfolding read_line
read_line-newline text rest pos inner fits =
    let read = fgets-newline line_max text rest pos inner (omega arith) in
    let string = c_string-newline text inner in
    let short = is_too_long-newline text fits in rw read (rw string (rw short refl))

-- A line with either end.
pub read_line-ending :
    (line_end : LineEnd) (text rest : List ℕ) (pos : ℕ)
    → All IsPlain text
    → length text + length (ending line_end) ≤ 255
    → read_line line_max (record { rest = text ++ (ending line_end ++ rest); pos = pos })
      ≡ (some text, record { rest = rest; pos = pos + length text + length (ending line_end) })
read_line-ending lf text rest pos plain fits =
    let moved : pos + suc (length text) ≡ pos + length text + 1 = omega arith in
    let read = read_line-newline text rest pos (plain-IsInLine text plain) (omega arith) in
    read ∙ rw (strip-newline text plain, moved) refl
read_line-ending crlf text rest pos plain fits =
    let whole = text ++ b'\r' ∷ [] in
    let size : length whole ≡ length text + 1 = length-append text (b'\r' ∷ []) in
    let moved : pos + suc (length whole) ≡ pos + length text + 2 = omega (arith, size) in
    let read =
      read_line-newline whole rest pos
        (All-append IsInLine text (b'\r' ∷ []) (plain-IsInLine text plain) (refl, tt))
        (omega (arith, size)) in
    let stripped : strip (whole ++ newline) ≡ text =
      ap strip (append_assoc text (b'\r' ∷ []) newline) ∙ strip-return text plain in
    rw (← append_assoc text (b'\r' ∷ []) (b'\n' ∷ rest)) (read ∙ rw (stripped, moved) refl)
