-- ===== src/Rp6502file/RoundTrip.antt =====
-- `readRp6502File` on a file in the format of rp6502file.h.
use dis.Base.{
  ℕ, ◌+◌, ◌≡◌, refl, ap, ◌∙◌, Bool, arith, true, false, none, some, List, [], ◌∷◌, ◌++◌, ◌>>=◌,
  length, length-append, All,
}
use mathlib.Core.List.{append_assoc, append-nil}
use dis.Base.Text.{Letters, lower_case, upper_case, ending, length-ending}
use dis.Libc.PlainLines.{IsPlain}
use dis.Libc.Files.{File, opened, fgets}
use dis.Memory.{Memory}
use dis.Rp6502file.Crc.{rp6502_crc32}
use dis.Rp6502file.Parse.{read_line, matches_shebang, line_max}
use dis.Rp6502file.Read.{
  chunk_fuel, finish, is_group, read_sections, read_rp6502_file, has_shebang, nothing_loaded,
}
use dis.Rp6502file.Format.{
  Style, shebang_text, Layout, ungrouped, grouped, IsLayout, file_text, group_text, grouped_text,
  Entry, comment, empty_line, chunk, header_text, entries_text, rom_text, AreEntries, IsNumber,
  behind_line, entry_styles, load_entries,
}
use dis.Rp6502file.Headers.{
  group_text-IsPlain, length-group_text, section_len-group_text, header_text-IsPlain,
  length-header_text, header_text-first,
}
use dis.Rp6502file.Entries.{chunks-entries, chunks-section, chunks-nothing, IsBefore-section}
use dis.Rp6502file.PlainLines.{read_line-ending}

-- The first line is no group header, if what is behind the entries begins with none.
pub entries_text-Ungrouped :
    (styles : ℕ → Style) (es : List Entry) (behind : List ℕ) (pos : ℕ)
    → AreEntries styles es
    → is_group (read_line line_max (record { rest = behind; pos = pos })).0 ≡ false
    → is_group
        (read_line line_max (record { rest = entries_text styles es ++ behind; pos = pos })).0
      ≡ false
entries_text-Ungrouped styles [] behind pos ok other = other
entries_text-Ungrouped styles (comment text ∷ es) behind pos ((plain, fits, unmarked), ok) other =
    let others = entries_text (behind_line styles) es in
    let style = styles 0 in
    let rest = others ++ behind in
    let back = ending style.line_end in
    let line = read_line-ending style.line_end (b'#' ∷ text) rest pos (refl, plain) (omega arith) in
    rw (append_assoc (text ++ back) others behind)
      (rw (append_assoc text back rest) (rw line unmarked))
entries_text-Ungrouped styles (empty_line ∷ es) behind pos ok other =
    let others = entries_text (behind_line styles) es in
    let style = styles 0 in
    let line =
      read_line-ending style.line_end [] (others ++ behind) pos tt
        (omega (arith, length-ending style.line_end)) in
    rw (append_assoc (ending style.line_end) others behind) (rw line refl)
entries_text-Ungrouped styles (chunk addr payload ∷ es) behind pos ((fits, are), ok) other =
    let others = entries_text (behind_line styles) es in
    let style = styles 0 in
    let crc = rp6502_crc32 payload in
    let head = header_text style addr (length payload) crc in
    let back = ending style.line_end in
    let rest = others ++ behind in
    let line =
      read_line-ending style.line_end head (payload ++ rest) pos
        (header_text-IsPlain style addr (length payload) crc)
        (omega (
          arith,
          length-header_text style addr (length payload) crc are,
          length-ending style.line_end,
        )) in
    let (mark, solid) = header_text-first style addr (length payload) crc in
    rw (append_assoc (head ++ (back ++ payload)) others behind) (
      rw (append_assoc head (back ++ payload) rest)
        (rw (append_assoc back payload rest) (rw line (rw mark refl))))

nothing-Ungrouped :
    (pos : ℕ) → is_group (read_line line_max (record { rest = []; pos = pos })).0 ≡ false
unfolding read_line fgets
nothing-Ungrouped pos = refl

shebang_text-IsPlain : (letters : Letters) → All IsPlain (shebang_text letters)
shebang_text-IsPlain lower_case = (refl, (refl, (refl, (refl, (refl, (refl, (refl, (refl, tt))))))))
shebang_text-IsPlain upper_case = (refl, (refl, (refl, (refl, (refl, (refl, (refl, (refl, tt))))))))

shebang_text-Eight :
    (letters : Letters)
    → (length (shebang_text letters) ≡ 8) × (has_shebang (some (shebang_text letters)) ≡ true)
unfolding matches_shebang
shebang_text-Eight lower_case = (refl, refl)
shebang_text-Eight upper_case = (refl, refl)

-- What stands behind the shebang, in the file.
abbrev pub behind_shebang : Style → List ℕ → File
behind_shebang style rest = record { rest = rest; pos = 8 + length (ending style.line_end) }

shebang_line :
    (style : Style) (rest : List ℕ)
    → read_line line_max (opened (shebang_text style.shebang ++ (ending style.line_end ++ rest)))
      ≡ (some (shebang_text style.shebang), behind_shebang style rest)
shebang_line style rest =
    let word = shebang_text style.shebang in
    let size = (shebang_text-Eight style.shebang).0 in
    let moved : 0 + length word + length (ending style.line_end)
        ≡ 8 + length (ending style.line_end) =
      omega (arith, size) in
    read_line-ending style.line_end word rest 0 (shebang_text-IsPlain style.shebang)
      (omega (arith, size, length-ending style.line_end))
    ∙ rw moved refl

-- The reader from the line behind the shebang on.
pub after_shebang :
    (style : Style) (seeks : Bool) (rest : List ℕ) (m : Memory)
    → read_rp6502_file seeks
        (some (shebang_text style.shebang ++ (ending style.line_end ++ rest)))
        m
      ≡ read_sections seeks (behind_shebang style rest) (nothing_loaded m)
unfolding read_rp6502_file
after_shebang style seeks rest m =
    rw (shebang_line style rest) (rw (shebang_text-Eight style.shebang).1 refl)

-- A ROM without a group.
read_rp6502_file-rom_text :
    (styles : ℕ → Style) (es : List Entry) (m : Memory)
    → AreEntries (behind_line styles) es
    → read_rp6502_file true (some (rom_text styles es)) m
      ≡ (load_entries (nothing_loaded m) es >>= finish)
unfolding read_sections
read_rp6502_file-rom_text styles es m ok =
    let others = behind_line styles in
    let body = behind_shebang (styles 0) (entries_text others es) in
    let stop = body.pos + length (entries_text others es) in
    let other : is_group (read_line line_max body).0 ≡ false =
      rw append-nil at
        (entries_text-Ungrouped others es [] body.pos ok (nothing-Ungrouped body.pos)) in
    after_shebang (styles 0) true (entries_text others es) m
    ∙ rw other (
        rw append-nil at (
          chunks-entries others none es [] (chunk_fuel body) body.pos stop finish (nothing_loaded m)
            ok refl (λ p before rest. refl) (chunks-nothing stop) (omega arith)))

-- A ROM with one.
read_rp6502_file-grouped_text :
    (styles : ℕ → Style) (seeks : Bool) (es : List Entry) (crc : ℕ) (behind : List ℕ) (m : Memory)
    → AreEntries (behind_line (behind_line styles)) es
    → IsNumber (styles 1).len (length (entries_text (behind_line (behind_line styles)) es))
    → IsNumber (styles 1).crc crc
    → read_rp6502_file seeks (some (grouped_text styles es crc ++ behind)) m
      ≡ (load_entries (nothing_loaded m) es >>= finish)
unfolding read_sections
read_rp6502_file-grouped_text styles seeks es crc behind m ok size_fits crc_fits =
    let others = behind_line (behind_line styles) in
    let entries = entries_text others es in
    let size = length entries in
    let group = group_text (styles 1) size crc in
    let word = shebang_text (styles 0).shebang in
    let back = ending (styles 0).line_end in
    let next = ending (styles 1).line_end in
    let rest = entries ++ behind in
    let start = 8 + length back in
    let body : File = record { rest = rest; pos = start + length group + length next } in
    let line =
      read_line-ending (styles 1).line_end group rest start (group_text-IsPlain (styles 1) size crc)
        (omega (
          arith,
          length-group_text (styles 1) size crc size_fits crc_fits,
          length-ending (styles 1).line_end,
        )) in
    let parsed = section_len-group_text (styles 1) size crc size_fits crc_fits in
    let split : grouped_text styles es crc ++ behind ≡ word ++ (back ++ (group ++ (next ++ rest))) =
      append_assoc word (back ++ (group ++ (next ++ entries))) behind
      ∙ ap (λ (t : List ℕ). word ++ t)
          (append_assoc back (group ++ (next ++ entries)) behind
            ∙ ap (λ (t : List ℕ). back ++ t)
                (append_assoc group (next ++ entries) behind
                  ∙ ap (λ (t : List ℕ). group ++ t) (append_assoc next entries behind))) in
    ap (λ (t : List ℕ). read_rp6502_file seeks (some t) m) split
    ∙ after_shebang (styles 0) seeks (group ++ (next ++ rest)) m
    ∙ rw line (
        rw parsed (
          chunks-entries others (some (body.pos + size)) es behind (chunk_fuel body) body.pos
            (body.pos + size) finish (nothing_loaded m) ok refl (IsBefore-section (body.pos + size))
            (λ left t. chunks-section (body.pos + size) left behind t)
            (omega (arith, length-append entries behind))))

-- A file in the format of rp6502file.h, with the shebang in either case, comments that fit a line,
-- empty lines and chunks, each line with its own notations (decimal, or C or MOS hex of up to 32
-- digits in either case) and its own line end, with or without a CR, is read as its entries: the
-- chunks are loaded in order, and the result is that of the last state. Without a group this takes
-- an fseek that succeeds. With one, whose size and CRC have 32 bits, it holds whether or not the
-- file can be sought, and whatever bytes stand behind the section.
pub read_rp6502_file-file_text :
    (styles : ℕ → Style) (layout : Layout) (seeks : Bool) (es : List Entry) (m : Memory)
    → AreEntries (entry_styles layout styles) es
    → IsLayout styles layout es seeks
    → read_rp6502_file seeks (some (file_text styles layout es)) m
      ≡ (load_entries (nothing_loaded m) es >>= finish)
read_rp6502_file-file_text styles ungrouped seeks es m ok sought =
    rw sought (read_rp6502_file-rom_text styles es m ok)
read_rp6502_file-file_text styles (grouped crc behind) seeks es m ok (size, fits) =
    read_rp6502_file-grouped_text styles seeks es crc behind m ok size fits
