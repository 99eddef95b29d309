-- ===== src/Samples/HexFiles.antt =====
-- Tests of the HEX reader.
use dis.Base.{ℕ, ◌≡◌, refl, Option, some, none, [], ◌∷◌, ◌++◌}
use dis.Base.Text.{Text, codes}
use dis.Libc.Files.{fgets}
use dis.Libc.Numbers.{convert, skip_space, skip_sign, skip_prefix, is_prefixed, hex_int}
use dis.Memory.{
  map_ram, mem_read, mem_write, add_region, find_region, read_found, read_type, write_found, load,
  store,
}
use dis.Hexfile.{
  HexReading, read_hex_file, read_lines, conclude, read_hex_line, read_fields, read_record,
  read_data, write_data,
}
use dis.Memory.Valid.{IsValid}
use dis.Hexfile.Total.{read_hex_file-IsValid}
use dis.Samples.Image.{image, image-IsValid}

abbrev newline : Text
newline = b'\n' ∷ []

abbrev shown : Option HexReading → ℕ → Option (ℕ × Option ℕ × Option ℕ)
shown none x = none
shown (some r) x = some (r.address, r.end, mem_read r.memory x)

abbrev hex_file : Text
hex_file = codes ":03020000A94260B0" ++ newline ++ codes ":00000001FF" ++ newline

loads :
    shown (read_hex_file (λ _. 0) (some hex_file) image) 0x201 ≡ some (0x200, some 0x202, some 0x42)
unfolding read_hex_file read_lines conclude read_hex_line read_fields read_record read_data
    write_data hex_int convert skip_space skip_sign skip_prefix is_prefixed fgets map_ram add_region
    mem_write mem_read find_region read_found read_type write_found load store
loads = refl

-- An empty data record at address 0 makes $FFFF the end.
abbrev empty_record_file : Text
empty_record_file = codes ":0000000000" ++ newline ++ hex_file

empty_record :
    shown (read_hex_file (λ _. 0) (some empty_record_file) image) 0x201
    ≡ some (0x200, some 0xffff, some 0x42)
unfolding read_hex_file read_lines conclude read_hex_line read_fields read_record read_data
    write_data hex_int convert skip_space skip_sign skip_prefix is_prefixed fgets map_ram add_region
    mem_write mem_read find_region read_found read_type write_found load store
empty_record = refl

read_hex_file-IsValid_example :
    (r : HexReading) × (read_hex_file (λ _. 0) (some hex_file) image ≡ some r)
    × IsValid r.memory
    × (r.memory.regions ≡ image.regions)
read_hex_file-IsValid_example = read_hex_file-IsValid (λ _. 0) (some hex_file) image image-IsValid
