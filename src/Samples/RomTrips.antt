-- ===== src/Samples/RomTrips.antt =====
-- The round trip of a ROM with a comment, two chunks of RAM that overlap, and one of XRAM.
use dis.Base.{
  ℕ, zero, suc, inl, inr, ◌≤◌, ◌<◌, ◌≡◌, refl, arith, true, false, ◌++◌, some, List, [], ◌∷◌, ◌>>=◌,
}
use dis.Base.Text.{codes, hex_in, lower_case, upper_case, lf, crlf}
use dis.Memory.{mem_read, map_ram, add_region}
use dis.Rp6502file.Crc.{rp6502_crc32, crc_loop, crc_nibble}
use dis.Rp6502file.Bounds.{IsInRange}
use dis.Rp6502file.Read.{Reading, read_rp6502_file, nothing_loaded, finish}
use dis.Rp6502file.Format.{
  Style, as_decimal, as_c_hex, as_mos_hex, Layout, ungrouped, grouped, IsLayout, file_text,
  entry_text, Entry, comment, empty_line, chunk, AreEntries, entry_styles, load_entries,
}
use dis.Rp6502file.RoundTrip.{read_rp6502_file-file_text}
use dis.Rp6502file.Image.{IsImage, byte_of, read_rp6502_file-byte}
use dis.Base.{none, ◌+◌, ◌*◌, ◌&&◌}
use dis.Rp6502file.Ranges.{highest, supplies}
use dis.Rp6502file.Describes.{start_of, read_rp6502_file-start}
use dis.Samples.Image.{image, image-IsValid}

abbrev parts : List Entry
parts =
    comment (codes " hello")
    ∷ chunk 0x200 (0xa9 ∷ 0x0a ∷ 0x60 ∷ [])
    ∷ chunk 0x10000 (0xff ∷ [])
    ∷ chunk 0x201 (0x42 ∷ [])
    ∷ []

-- As an editor may write it: "#!RP6502", `$0200 $2`, and eight digits of a CRC.
abbrev unix : Style
unix = record {
  shebang = upper_case;
  addr = as_mos_hex upper_case 3;
  len = as_mos_hex upper_case 0;
  crc = as_mos_hex upper_case 7;
  line_end = lf;
}

-- The other notations, with a CR at the end of a line.
abbrev mixed : Style
mixed = record {
  shebang = lower_case;
  addr = as_c_hex lower_case 4;
  len = as_decimal;
  crc = as_mos_hex lower_case 7;
  line_end = crlf;
}

-- The two in turn.
abbrev all_unix : ℕ → Style
all_unix i = unix

abbrev in_turn : ℕ → Style
in_turn zero = mixed
in_turn (suc zero) = record unix { len = as_mos_hex upper_case 2 }
in_turn (suc (suc i)) = in_turn i

-- With a group, and bytes behind its section.
abbrev layout : Layout
layout = grouped 7 (0xde ∷ 0xad ∷ [])

chunk_text :
    entry_text mixed (chunk 0x200 (0xa9 ∷ 0x0a ∷ 0x60 ∷ []))
    ≡ codes "0x00200 3 $9eb5362f" ++ b'\r' ∷ b'\n' ∷ 0xa9 ∷ 0x0a ∷ 0x60 ∷ []
unfolding hex_in rp6502_crc32 crc_loop crc_nibble
chunk_text = refl

short_text :
    entry_text unix (chunk 0x200 (0xea ∷ 0x60 ∷ []))
    ≡ codes "$0200 $2 $"
      ++ hex_in upper_case 8 (rp6502_crc32 (0xea ∷ 0x60 ∷ []))
      ++ b'\n' ∷ 0xea ∷ 0x60 ∷ []
unfolding hex_in rp6502_crc32 crc_loop crc_nibble
short_text = refl

-- The bytes of RAM, and a byte of XRAM.
in_ram : (addr len : ℕ) → 0 < len → addr + len ≤ 0x10000 → IsInRange addr len
in_ram addr len some_bytes below = (some_bytes, inl below)

parts-AreEntries : AreEntries (entry_styles layout in_turn) parts
unfolding rp6502_crc32
parts-AreEntries = (
  ((refl, (refl, (refl, (refl, (refl, (refl, tt)))))), omega arith, refl),
  (
    (in_ram 0x200 3 (omega arith) (omega arith), omega arith),
    (
      ((omega arith, inr (omega arith)), omega arith),
      ((in_ram 0x201 1 (omega arith) (omega arith), omega arith), tt),
    ),
  ),
)

image-IsImage : IsImage image
unfolding map_ram add_region
image-IsImage = (image-IsValid, refl)

parts-IsLayout : IsLayout in_turn layout parts false
unfolding rp6502_crc32 hex_in
parts-IsLayout = (omega arith, omega arith)

read_rp6502_file-file_text_example :
    read_rp6502_file false (some (file_text in_turn layout parts)) image
    ≡ (load_entries (nothing_loaded image) parts >>= finish)
read_rp6502_file-file_text_example =
    read_rp6502_file-file_text in_turn layout false parts image parts-AreEntries parts-IsLayout

read_rp6502_file-byte_example :
    (r : Reading) × (read_rp6502_file false (some (file_text in_turn layout parts)) image ≡ some r)
    × (r.error ≡ none)
    × ((y : ℕ) → y < 65536 → mem_read r.loading.memory y ≡ byte_of parts y (mem_read image y))
read_rp6502_file-byte_example =
    read_rp6502_file-byte in_turn layout false parts image image-IsImage parts-AreEntries
      parts-IsLayout

second_byte : byte_of parts 0x201 (some 0) ≡ some 0x42
second_byte = refl

-- A ROM with an empty line, which supplies the reset vector $0201.
abbrev vectored : List Entry
vectored = chunk 0x200 (0xea ∷ 0x60 ∷ []) ∷ empty_line ∷ chunk 0xfffc (0x01 ∷ 0x02 ∷ []) ∷ []

vectored-AreEntries : AreEntries (entry_styles ungrouped all_unix) vectored
unfolding rp6502_crc32
vectored-AreEntries = (
  (in_ram 0x200 2 (omega arith) (omega arith), omega arith),
  (tt, ((in_ram 0xfffc 2 (omega arith) (omega arith), omega arith), tt)),
)

read_rp6502_file-start_example :
    (r : Reading) × (read_rp6502_file true (some (file_text all_unix ungrouped vectored)) image
      ≡ some r)
    × (r.error ≡ none)
    × (r.loading.out.end ≡ highest vectored)
    × (r.loading.out.has_reset_vector ≡ (supplies vectored 0xfffc && supplies vectored 0xfffd))
    × (r.loading.out.entry ≡ start_of vectored (0x01 + 0x02 * 256))
read_rp6502_file-start_example =
    read_rp6502_file-start all_unix ungrouped true vectored image 0x01 0x02 image-IsImage
      vectored-AreEntries refl refl (omega arith) (omega arith) refl refl

vector : (start_of vectored 0x201 ≡ 0x201) × (start_of parts 0 ≡ 0x200) × (highest parts ≡ 0x202)
vector = (refl, refl, refl)
