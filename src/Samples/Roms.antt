-- ===== src/Samples/Roms.antt =====
-- Tests of the ROM reader.
use dis.Base.{ℕ, ◌≡◌, refl, true, false, Option, some, none, [], ◌∷◌, ◌++◌}
use dis.Base.Text.{Text, codes}
use dis.Libc.Files.{fgets}
use dis.Libc.Numbers.{convert, skip_space, skip_sign, skip_prefix, is_prefixed, to_ulong}
use dis.Memory.{map_ram, mem_write, add_region, find_region, write_found, store}
use dis.Rp6502file.Crc.{rp6502_crc32, crc_loop, crc_nibble}
use dis.Rp6502file.Parse.{
  parse_uint32, read_line, matches_shebang, chunk_header, is_out_of_range, parse_end,
}
use dis.Rp6502file.Read.{
  Reading, RomError, Rp6502Rom, empty_rom, read_rp6502_file, read_sections, chunks, round,
  read_chunk, load_chunk, write_payload, section_len, finish, reset_vector,
}
use dis.Rp6502file.Total.{IsGood, read_rp6502_file-IsGood}
use dis.Samples.Image.{image, image-IsValid}
use dis.Base.{arith, List}
use dis.Libc.Files.{File}
use dis.Rp6502file.Parse.{Header}
use dis.Rp6502file.Read.{Loading, goes_on, refused, nothing_loaded}
use dis.Rp6502file.Corrupt.{read_chunk-corrupted}

dollar : parse_uint32 (codes " $ff 3") ≡ some (0xff, codes " 3")
unfolding parse_uint32 convert skip_space skip_sign skip_prefix is_prefixed to_ulong
dollar = refl

-- A second prefix is taken, and so is a sign behind a blank.
second_prefix : parse_uint32 (codes "0x0x10") ≡ some (0x10, [])
unfolding parse_uint32 convert skip_space skip_sign skip_prefix is_prefixed to_ulong
second_prefix = refl

late_sign : parse_uint32 (codes "$ +5") ≡ some (5, [])
unfolding parse_uint32 convert skip_space skip_sign skip_prefix is_prefixed to_ulong
late_sign = refl

-- A negative number that wraps: 5 - 2^64.
wraps : parse_uint32 (codes "$ -fffffffffffffffb") ≡ some (5, [])
unfolding parse_uint32 convert skip_space skip_sign skip_prefix is_prefixed to_ulong
wraps = refl

abbrev newline : Text
newline = b'\n' ∷ []

abbrev rom_file : Text
rom_file =
    codes "#!RP6502"
    ++ newline
    ++ codes "# a comment"
    ++ newline
    ++ codes "$0200 3 0xa615f322"
    ++ newline
    ++ 0xa9 ∷ 0x42 ∷ 0x60 ∷ []

abbrev answer : Option Reading → Option RomError × Rp6502Rom
answer none = (some RomError.no_code, empty_rom)
answer (some r) = (r.error, r.loading.out)

loads : answer (read_rp6502_file true (some rom_file) image) ≡ (
  none,
  record {
    entry = 0x200;
    end = 0x202;
    has_reset_vector = false;
    ram_chunks = 1;
    xram_chunks = 0;
    xram_bytes = 0;
  },
)
unfolding read_rp6502_file read_sections chunks round read_chunk load_chunk write_payload
    section_len finish reset_vector parse_uint32 convert skip_space skip_sign skip_prefix
    is_prefixed to_ulong read_line matches_shebang chunk_header is_out_of_range parse_end fgets
    rp6502_crc32 crc_loop crc_nibble map_ram add_region mem_write find_region write_found store
loads = refl

read_rp6502_file-IsGood_example :
    (r : Reading) × (read_rp6502_file true (some rom_file) image ≡ some r) × IsGood image r
read_rp6502_file-IsGood_example = read_rp6502_file-IsGood true (some rom_file) image image-IsValid

abbrev chunk : Header
chunk = record { addr = 0x200; len = 3; crc = 0xa615f322 }

abbrev at_payload : List ℕ → File
at_payload payload = record { rest = payload; pos = 28 }

abbrev or_nothing : Option Loading → Loading
or_nothing none = nothing_loaded image
or_nothing (some s) = s

loaded : Loading
loaded = or_nothing (load_chunk (nothing_loaded image) 0x200 (0xa9 ∷ 0x42 ∷ 0x60 ∷ []))

chunk_loads :
    read_chunk
      (some chunk)
      (at_payload (((0xa9 ∷ []) ++ 0x42 ∷ 0x60 ∷ []) ++ []))
      (nothing_loaded image)
    ≡ some (goes_on (record { rest = []; pos = 31 }) loaded)
unfolding loaded read_chunk load_chunk write_payload is_out_of_range rp6502_crc32 crc_loop
    crc_nibble map_ram add_region mem_write find_region write_found store
chunk_loads = refl

read_chunk-corrupted_example :
    read_chunk
      (some chunk)
      (at_payload (((0xa9 ∷ []) ++ 0x43 ∷ 0x60 ∷ []) ++ []))
      (nothing_loaded image)
    ≡ some (refused (RomError.crc_mismatch 0x200 3) (nothing_loaded image))
read_chunk-corrupted_example =
    read_chunk-corrupted chunk (0xa9 ∷ []) (0x60 ∷ []) [] 0x42 0x43 28 (nothing_loaded image) loaded
      (nothing_loaded image) (record { rest = []; pos = 31 }) (omega arith) (omega arith)
      (omega arith) (omega arith) (omega arith) refl chunk_loads
