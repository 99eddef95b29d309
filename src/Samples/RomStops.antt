-- ===== src/Samples/RomStops.antt =====
-- ROMs that the reader gives up, or stops reading.
use dis.Base.{
  ℕ, inl, zero, suc, ◌≡◌, refl, sym, ap, ◌∙◌, arith, true, some, List, [], ◌∷◌, ◌>>=◌, All, length,
}
use dis.Base.Text.{Text, upper_case, crlf}
use dis.Libc.PlainLines.{IsInLine}
use dis.Rp6502file.Crc.{rp6502_crc32, crc_loop, crc_nibble}
use dis.Rp6502file.Read.{read_rp6502_file, nothing_loaded}
use dis.Rp6502file.Format.{
  Style, as_decimal, as_mos_hex, Entry, chunk, AreEntries, load_entries, ungrouped, file_text,
}
use dis.Rp6502file.RoundTrip.{read_rp6502_file-file_text}
use dis.Rp6502file.Stops.{Stop, corrupted, truncated, overlong, IsStop, stopped_text, stopped}
use dis.Rp6502file.Stopped.{read_rp6502_file-stopped_text}
use dis.Samples.Image.{image}

abbrev style : Style
style = record {
  shebang = upper_case;
  addr = as_mos_hex upper_case 3;
  len = as_decimal;
  crc = as_mos_hex upper_case 7;
  line_end = crlf;
}

abbrev parts : List Entry
parts = chunk 0x200 (0xea ∷ 0x60 ∷ []) ∷ []

abbrev styles : ℕ → Style
styles i = style

parts-AreEntries : AreEntries styles parts
unfolding rp6502_crc32
parts-AreEntries = (((omega arith, inl (omega arith)), omega arith), tt)

-- A second chunk whose CRC is 0, with a byte behind it.
abbrev wrong : Stop
wrong = corrupted 0x300 0 (0xea ∷ 0x60 ∷ []) (0x60 ∷ [])

wrong-IsStop : IsStop style wrong
unfolding rp6502_crc32 crc_loop crc_nibble
wrong-IsStop = (omega arith, (omega arith, inl (omega arith)), refl)

read_rp6502_file-stopped_text_example :
    read_rp6502_file true (some (stopped_text styles parts style wrong)) image
    ≡ (load_entries (nothing_loaded image) parts >>= stopped wrong)
read_rp6502_file-stopped_text_example =
    read_rp6502_file-stopped_text styles parts style wrong image parts-AreEntries wrong-IsStop

-- A second chunk that is cut off.
abbrev cut : Stop
cut = truncated 0x300 3 0 (0xea ∷ 0x60 ∷ [])

cut-IsStop : IsStop style cut
cut-IsStop = (omega arith, (omega arith, inl (omega arith)), omega arith)

abbrev stars : ℕ → Text
stars zero = []
stars (suc n) = b'*' ∷ stars n

stars-IsInLine : (n : ℕ) → All IsInLine (stars n)
stars-IsInLine zero = tt
stars-IsInLine (suc n) = (refl, stars-IsInLine n)

length-stars : (n : ℕ) → length (stars n) ≡ n
length-stars zero = refl
length-stars (suc n) = ap suc (length-stars n)

-- Behind a comment of 255 characters nothing is read, and the ROM counts as read.
hides_rest :
    (rest : List ℕ)
    → read_rp6502_file true
        (some (stopped_text styles parts style (overlong (b'#' ∷ stars 254) rest)))
        image
      ≡ read_rp6502_file true (some (file_text styles ungrouped parts)) image
hides_rest rest =
    read_rp6502_file-stopped_text styles parts style (overlong (b'#' ∷ stars 254) rest) image
      parts-AreEntries ((refl, stars-IsInLine 254), ap suc (length-stars 254))
    ∙ sym (read_rp6502_file-file_text styles ungrouped true parts image parts-AreEntries refl)
