-- ===== src/Hexfile/Lines.antt =====
-- The lines of a HEX file, as `fgets` reads them.
use dis.Base.{
  ℕ, ◌+◌, ◌*◌, ◌≤◌, ◌<◌, ◌≡◌, refl, arith, true, List, [], ◌∷◌, ◌++◌, length, length-append, All,
  All-append,
}
use dis.Base.Text.{
  LineEnd, lf, crlf, return_text, Letters, lower_case, upper_case, digit_in, hex_in,
}
use dis.Libc.Printed.{length-hex, hex-All}
use dis.Libc.PlainLines.{IsInLine, is_in_line}
use dis.Hexfile.Format.{
  Style, Record, Part, stored, typed, skipped, IsPart, bytes_text, record_text, part_text,
}

digit-IsInLine : (l : Letters) (d : ℕ) → d < 16 → is_in_line (digit_in l d) ≡ true
digit-IsInLine lower_case d h = ground arith
digit-IsInLine upper_case d h = ground arith

hex-IsInLine : (l : Letters) (k n : ℕ) → All IsInLine (hex_in l k n)
hex-IsInLine l k n = hex-All IsInLine l k n (digit-IsInLine l)

bytes_text-IsInLine : (l : Letters) (bytes : List ℕ) → All IsInLine (bytes_text l bytes)
bytes_text-IsInLine l [] = tt
bytes_text-IsInLine l (b ∷ bytes) =
    All-append IsInLine (hex_in l 2 b) (bytes_text l bytes) (hex-IsInLine l 2 b)
      (bytes_text-IsInLine l bytes)

return_text-IsInLine : (line_end : LineEnd) → All IsInLine (return_text line_end)
return_text-IsInLine lf = tt
return_text-IsInLine crlf = (refl, tt)

length-return_text : (line_end : LineEnd) → length (return_text line_end) ≤ 1
length-return_text lf = omega arith
length-return_text crlf = omega arith

pub record_text-IsInLine :
    (style : Style) (type : ℕ) (r : Record) → All IsInLine (record_text style type r)
record_text-IsInLine style type r =
    let l = style.letters in
    let b = hex_in l 4 r.addr in
    let c = hex_in l 2 type in
    let d = bytes_text l r.payload in
    let e = hex_in l 2 r.checksum in
    let f = return_text style.line_end in
    let last =
      All-append IsInLine e f (hex-IsInLine l 2 r.checksum) (return_text-IsInLine style.line_end) in
    let filled = All-append IsInLine d (e ++ f) (bytes_text-IsInLine l r.payload) last in
    let typed_part = All-append IsInLine c (d ++ (e ++ f)) (hex-IsInLine l 2 type) filled in
    let located =
      All-append IsInLine b (c ++ (d ++ (e ++ f))) (hex-IsInLine l 4 r.addr) typed_part in
    (
      refl,
      All-append IsInLine (hex_in l 2 (length r.payload)) (b ++ (c ++ (d ++ (e ++ f))))
          (hex-IsInLine l 2 (length r.payload)) located,
    )

length-bytes_text : (l : Letters) (bytes : List ℕ) → length (bytes_text l bytes) ≡ length bytes * 2
length-bytes_text l [] = refl
length-bytes_text l (b ∷ bytes) = omega (
  arith,
  length-append (hex_in l 2 b) (bytes_text l bytes),
  length-hex l 2 b,
  length-bytes_text l bytes,
)

pub length-record_text :
    (style : Style) (type : ℕ) (r : Record)
    → length (record_text style type r) ≤ 12 + length r.payload * 2
length-record_text style type r =
    let l = style.letters in
    let a = hex_in l 2 (length r.payload) in
    let b = hex_in l 4 r.addr in
    let c = hex_in l 2 type in
    let d = bytes_text l r.payload in
    let e = hex_in l 2 r.checksum in
    let f = return_text style.line_end in
    omega (
      arith,
      length-append a (b ++ (c ++ (d ++ (e ++ f)))),
      length-append b (c ++ (d ++ (e ++ f))),
      length-append c (d ++ (e ++ f)),
      length-append d (e ++ f),
      length-append e f,
      length-hex l 2 (length r.payload),
      length-hex l 4 r.addr,
      length-hex l 2 type,
      length-hex l 2 r.checksum,
      length-bytes_text l r.payload,
      length-return_text style.line_end,
    )

-- A line fits the buffer.
pub part_text-fits :
    (style : Style) (p : Part)
    → IsPart p
    → All IsInLine (part_text style p) × (length (part_text style p) ≤ 1022)
part_text-fits style (stored r) (_, size, _) =
    (record_text-IsInLine style 0 r, omega (arith, length-record_text style 0 r, size))
part_text-fits style (typed type r) (_, _, _, (_, size, _)) =
    (record_text-IsInLine style type r, omega (arith, length-record_text style type r, size))
part_text-fits style (skipped text) (plain, size, _) =
    let back = return_text style.line_end in
    (
      All-append IsInLine text back plain (return_text-IsInLine style.line_end),
      omega (arith, length-append text back, length-return_text style.line_end, size),
    )
