-- ===== src/Samples/HexTrips.antt =====
-- The round trip of a HEX file with two records that overlap, an extended address and a comment.
use dis.Base.{◌==◌, if◌then◌else◌, ℕ, ◌<◌, ◌≡◌, refl, arith, some, none, List, [], ◌∷◌, ◌++◌, All}
use mathlib.Core.Option
use dis.Base.Text.{lf, crlf, newline, codes, hex_in, lower_case, upper_case}
use dis.Memory.{mem_read, map_ram, add_region}
use dis.Rp6502file.Image.{IsImage}
use dis.Hexfile.{invalid_file, no_run_address, HexReading, read_hex_file, conclude, new_loader}
use dis.Hexfile.Format.{Style, Record, Part, stored, typed, skipped, IsPart, parts_text, load_parts}
use dis.Hexfile.RoundTrip.{read_hex_file-parts_text}
use dis.Hexfile.Ranges.{IsInside, byte_of_parts, first_addr, last_addr, error_of}
use dis.Hexfile.Image.{read_hex_file-byte}
use dis.Samples.Image.{image, image-IsValid}

abbrev one : Record
one = record { addr = 0x200; payload = 0xa9 ∷ 0x0a ∷ 0x60 ∷ []; checksum = 0xe8 }

abbrev two : Record
two = record { addr = 0x201; payload = 0x42 ∷ []; checksum = 0xba }

abbrev segment : Record
segment = record { addr = 0; payload = 0 ∷ 0 ∷ []; checksum = 0xfa }

abbrev parts : List Part
parts = typed 4 segment ∷ stored one ∷ skipped (codes "; a note") ∷ stored two ∷ []

abbrev style : Style
style = record { letters = upper_case; line_end = lf }

text :
    parts_text style parts
    ≡ codes ":020000040000FA"
      ++ newline
      ++ codes ":03020000A90A60E8"
      ++ newline
      ++ codes "; a note"
      ++ newline
      ++ codes ":0102010042BA"
      ++ newline
      ++ codes ":00000001FF"
      ++ newline
unfolding hex_in
text = refl

returned :
    parts_text (record { letters = lower_case; line_end = crlf }) []
    ≡ codes ":00000001ff" ++ b'\r' ∷ newline
unfolding hex_in
returned = refl

parts-All : All IsPart parts
parts-All = (
  (omega arith, refl, refl, (omega arith, omega arith, (omega arith, (omega arith, tt)))),
  (
    (omega arith, omega arith, (omega arith, (omega arith, (omega arith, tt)))),
    (
      ((refl, (refl, (refl, (refl, (refl, (refl, (refl, (refl, tt)))))))), omega arith, refl),
      ((omega arith, omega arith, (omega arith, tt)), tt),
    ),
  ),
)

parts-IsInside : All IsInside parts
parts-IsInside = (tt, ((omega arith, omega arith), (tt, ((omega arith, omega arith), tt))))

image-IsImage : IsImage image
unfolding map_ram add_region
image-IsImage = (image-IsValid, refl)

abbrev stale : ℕ → ℕ
stale i = 7

read_hex_file-parts_text_example :
    read_hex_file stale (some (parts_text style parts ++ (0xff ∷ []))) image
    ≡ Option.map conclude (load_parts (new_loader image) parts)
read_hex_file-parts_text_example =
    read_hex_file-parts_text stale style parts (0xff ∷ []) image parts-All

read_hex_file-byte_example :
    (r : HexReading) × (read_hex_file stale (some (parts_text style parts ++ [])) image ≡ some r)
    × ((y : ℕ) → y < 65536 → mem_read r.memory y ≡ byte_of_parts parts y (mem_read image y))
    × (r.address ≡ first_addr parts)
    × (r.end ≡ (if first_addr parts == 0 then none else some (last_addr parts)))
    × (r.error ≡ error_of parts)
read_hex_file-byte_example =
    read_hex_file-byte stale style parts [] image image-IsImage parts-All parts-IsInside
      (omega arith)

errors :
    (error_of parts ≡ none)
    × (error_of (typed 4 segment ∷ []) ≡ some no_run_address)
    × (error_of (skipped (codes "; a note") ∷ []) ≡ some invalid_file)
errors = (refl, refl, refl)

second_byte : byte_of_parts parts 0x201 (some 0) ≡ some 0x42
second_byte = refl

range : (first_addr parts ≡ 0x200) × (last_addr parts ≡ 0x202)
range = (refl, refl)
