-- ===== src/Rp6502file/Headers.antt =====
-- The header lines of rp6502file.c, where they were printed.
use dis.Base.{
  ℕ, ◌≤◌, ◌≡◌, refl, ◌∙◌, arith, true, false, ◌==◌, some, [], ◌∷◌, ◌++◌, length, length-append, All,
  All-append,
}
use mathlib.Core.List.{append-nil}
use dis.Base.Text.{Text, char_at}
use dis.Libc.PlainLines.{IsPlain}
use dis.Rp6502file.Parse.{parse_uint32, parse_end, chunk_header}
use dis.Rp6502file.Read.{section_len}
use dis.Rp6502file.Format.{
  Notation, IsNumber, AreNumbers, Style, group_text, number_text, header_text,
}
use dis.Rp6502file.Numbers.{
  parse_uint32-number_text, number_text-IsPlain, length-number_text, number_text-first,
}

parse_uint32_blank : (s : Text) → parse_uint32 (b' ' ∷ s) ≡ parse_uint32 s
unfolding parse_uint32
parse_uint32_blank s = refl

-- The last number of a line.
last_number :
    (notation : Notation) (n : ℕ)
    → IsNumber notation n
    → parse_uint32 (b' ' ∷ number_text notation n) ≡ some (n, [])
last_number notation n fits =
    parse_uint32_blank (number_text notation n)
    ∙ rw append-nil at (parse_uint32-number_text notation n [] fits refl)

pub chunk_header-header_text :
    (style : Style) (addr len crc : ℕ)
    → AreNumbers style addr len crc
    → chunk_header (header_text style addr len crc)
      ≡ some (record { addr = addr; len = len; crc = crc })
unfolding chunk_header
chunk_header-header_text style addr len crc (a, l, c) =
    let third = b' ' ∷ number_text style.crc crc in
    let second = b' ' ∷ (number_text style.len len ++ third) in
    let last = last_number style.crc crc c in
    let middle : parse_uint32 second ≡ some (len, third) =
      parse_uint32_blank (number_text style.len len ++ third)
      ∙ parse_uint32-number_text style.len len third l refl in
    let ends : parse_end [] ≡ true = unfold parse_end in refl in
    rw (parse_uint32-number_text style.addr addr second a refl, middle, last, ends)

-- The group header whose two numbers were printed.
pub section_len-group_text :
    (style : Style) (size crc : ℕ)
    → IsNumber style.len size
    → IsNumber style.crc crc
    → section_len (some (group_text style size crc)) ≡ some size
unfolding section_len
section_len-group_text style size crc s c =
    let second = b' ' ∷ number_text style.crc crc in
    let last = last_number style.crc crc c in
    rw (parse_uint32-number_text style.len size second s refl, last)

-- Two numbers behind each other.
two_numbers-IsPlain :
    (n_as m_as : Notation) (n m : ℕ)
    → All IsPlain (number_text n_as n ++ (b' ' ∷ number_text m_as m))
two_numbers-IsPlain n_as m_as n m =
    All-append IsPlain (number_text n_as n) (b' ' ∷ number_text m_as m) (number_text-IsPlain n_as n)
      (refl, number_text-IsPlain m_as m)

length-two_numbers :
    (n_as m_as : Notation) (n m : ℕ)
    → IsNumber n_as n
    → IsNumber m_as m
    → length (number_text n_as n ++ (b' ' ∷ number_text m_as m)) ≤ 69
length-two_numbers n_as m_as n m n_is m_is = omega (
  arith,
  length-append (number_text n_as n) (b' ' ∷ number_text m_as m),
  length-number_text n_as n n_is,
  length-number_text m_as m m_is,
)

pub header_text-IsPlain :
    (style : Style) (addr len crc : ℕ) → All IsPlain (header_text style addr len crc)
header_text-IsPlain style addr len crc =
    All-append IsPlain (number_text style.addr addr)
      (b' ' ∷ (number_text style.len len ++ (b' ' ∷ number_text style.crc crc)))
      (number_text-IsPlain style.addr addr) (refl, two_numbers-IsPlain style.len style.crc len crc)

pub length-header_text :
    (style : Style) (addr len crc : ℕ)
    → AreNumbers style addr len crc
    → length (header_text style addr len crc) ≤ 104
length-header_text style addr len crc (a, l, c) = omega (
  arith,
  length-append (number_text style.addr addr)
      (b' ' ∷ (number_text style.len len ++ (b' ' ∷ number_text style.crc crc))),
  length-number_text style.addr addr a,
  length-two_numbers style.len style.crc len crc l c,
)

pub header_text-first :
    (style : Style) (addr len crc : ℕ)
    → ((char_at (header_text style addr len crc) 0 == b'#') ≡ false)
      × ((char_at (header_text style addr len crc) 0 == 0) ≡ false)
header_text-first style addr len crc =
    number_text-first style.addr addr
      (b' ' ∷ (number_text style.len len ++ (b' ' ∷ number_text style.crc crc)))

pub group_text-IsPlain : (style : Style) (size crc : ℕ) → All IsPlain (group_text style size crc)
group_text-IsPlain style size crc = (refl, (refl, two_numbers-IsPlain style.len style.crc size crc))

pub length-group_text :
    (style : Style) (size crc : ℕ)
    → IsNumber style.len size
    → IsNumber style.crc crc
    → length (group_text style size crc) ≤ 71
length-group_text style size crc s c =
    omega (arith, length-two_numbers style.len style.crc size crc s c)
