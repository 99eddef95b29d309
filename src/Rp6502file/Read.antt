-- ===== src/Rp6502file/Read.antt =====
-- `isRp6502File` and `readRp6502File`: the file is its bytes, `none` if it does not open. What is
-- printed is a value: the reason of a refusal, and the warning about the reset vector. A MemWrite
-- that leaves a buffer, which C leaves undefined, is `none`, and so is an `fread` that is told to
-- store more than its buffer holds, and a reader out of fuel.
use dis.Base.{
  ℕ, zero, suc, ◌+◌, ◌-◌, ◌*◌, Bool, true, false, not, ◌&&◌, ◌||◌, Option, none, some, List, [],
  ◌∷◌, ltb, leb, ◌==◌, if◌then◌else◌, ◌>>=◌, drop, take, length, u16, u32, bit_or,
}
use mathlib.Core.Option
use dis.Base.Text.{Text, char_at}
use dis.Libc.Files.{File, opened, fread}
use dis.Memory.{Memory, mem_read, mem_write}
use dis.Rp6502file.Crc.{rp6502_crc32}
use dis.Rp6502file.Parse.{
  read_line, matches_shebang, parse_uint32, chunk_header, is_out_of_range, Header, line_max,
  chunk_max,
}

pub record Rp6502Rom : Type 0 where
  pub entry : ℕ
  pub end : ℕ
  pub has_reset_vector : Bool
  pub ram_chunks : ℕ
  pub xram_chunks : ℕ
  pub xram_bytes : ℕ

-- After the `memset`.
abbrev pub empty_rom : Rp6502Rom
empty_rom = record {
  entry = 0;
  end = 0;
  has_reset_vector = false;
  ram_chunks = 0;
  xram_chunks = 0;
  xram_bytes = 0;
}

-- The messages before a `goto done`, and that of a file that does not open.
pub data RomError : Type 0 where
  cannot_open missing_header malformed_group seek_failed malformed_chunk : RomError
  chunk_out_of_range truncated_payload no_code : RomError
  crc_mismatch : ℕ → ℕ → RomError

-- `isRp6502File`
abbrev pub is_rp6502_file : Option (List ℕ) → Bool
is_rp6502_file none = false
is_rp6502_file (some bytes) = let magic = take 8 bytes in length magic == 8 && matches_shebang magic

-- The variables of the chunk loop, with the memory that it writes and `*out`.
pub record Loading : Type 0 where
  pub memory : Memory
  pub out : Rp6502Rom
  pub code_low : ℕ
  pub code_high : ℕ
  pub have_code : Bool
  pub reset_lo : Bool
  pub reset_hi : Bool

abbrev pub nothing_loaded : Memory → Loading
nothing_loaded m = record {
  memory = m;
  out = empty_rom;
  code_low = 0xffffffff;
  code_high = 0;
  have_code = false;
  reset_lo = false;
  reset_hi = false;
}

-- `MemWrite((uint16_t)(addr + i), payload[i])` for each byte from `i` on.
unfoldable pub write_payload : Memory → ℕ → ℕ → List ℕ → Option Memory
write_payload m addr i [] = some m
write_payload m addr i (b ∷ payload) = do
  m' ← mem_write m (u16 (addr + i)) b
  write_payload m' addr (i + 1) payload

-- `VECTOR_BASE`
abbrev pub vector_base : ℕ
vector_base = 0xfffa

abbrev pub last_code : ℕ → ℕ → ℕ
last_code addr len =
    let last = u32 (addr + len - 1) in if leb vector_base last then vector_base - 1 else last

-- The range of the code after a chunk below the vectors.
abbrev pub extend : Loading → ℕ → ℕ → Loading
extend s addr len =
    if ltb addr vector_base
    then record s {
      code_low = if ltb addr s.code_low then addr else s.code_low;
      code_high = if ltb s.code_high (last_code addr len) then last_code addr len else s.code_high;
      have_code = true;
    }
    else s

-- A chunk for XRAM.
abbrev pub count_xram : Loading → ℕ → Loading
count_xram s len = record s {
  out = record (s.out) {
    xram_chunks = u32 (s.out.xram_chunks + 1);
    xram_bytes = u32 (s.out.xram_bytes + len);
  };
}

abbrev pub count_ram : Loading → Memory → ℕ → ℕ → Loading
count_ram s m addr len = record s {
  memory = m;
  out = record (s.out) { ram_chunks = u32 (s.out.ram_chunks + 1) };
  reset_lo = s.reset_lo || leb addr 0xfffc && ltb 0xfffc (u32 (addr + len));
  reset_hi = s.reset_hi || leb addr 0xfffd && ltb 0xfffd (u32 (addr + len));
}

-- The rest of a round of the loop, from the payload with the right CRC on.
unfoldable pub load_chunk : Loading → ℕ → List ℕ → Option Loading
load_chunk s addr payload =
    let len = length payload in
    if leb 0x10000 addr then some (count_xram s len) else do
      m ← write_payload s.memory addr 0 payload
      some (extend (count_ram s m addr len) addr len)

-- How a round ends: at the end of the section or the file, with the next round, or refused.
pub data Round : Type 0 where
  ended : Loading → Round
  goes_on : File → Loading → Round
  refused : RomError → Loading → Round

-- A round on the chunk whose header is parsed, with the file behind the header's line. An `fread`
-- of more than the `CHUNK_MAX` bytes of `payload` is `none`.
unfoldable pub read_chunk : Option Header → File → Loading → Option Round
read_chunk none f s = some (refused malformed_chunk s)
read_chunk (some h) f s =
    let (payload, after) = fread h.len f in
    if is_out_of_range h.addr h.len
    then some (refused chunk_out_of_range s)
    else if ltb chunk_max h.len
    then none
    else if not (length payload == h.len)
    then some (refused truncated_payload s)
    else if not (rp6502_crc32 payload == h.crc)
    then some (refused (crc_mismatch h.addr h.len) s)
    else Option.map (goes_on after) (load_chunk s h.addr payload)

abbrev pub at_section_end : Option ℕ → File → Bool
at_section_end none f = false
at_section_end (some end) f = leb end f.pos

-- A round on a line, `none` for a `readLine` that failed.
abbrev pub read_entry : Option Text → File → Loading → Option Round
read_entry none f s = some (ended s)
read_entry (some line) f s =
    if char_at line 0 == 0
    then some (goes_on f s)
    else if char_at line 0 == b'#'
    then some (goes_on f s)
    else read_chunk (chunk_header line) f s

-- A round of the loop. `section_end` is `chunkSectionEnd`, `none` for -1.
unfoldable pub round : Option ℕ → File → Loading → Option Round
round section_end f s =
    let (line, after) = read_line line_max f in
    if at_section_end section_end f then some (ended s) else read_entry line after s

-- What the reader leaves: its result, where `some` is an error and false, and the vector that it
-- warned about.
pub record Reading : Type 0 where
  pub loading : Loading
  pub error : Option RomError
  pub warning : Option ℕ

abbrev pub failed : RomError → Loading → Reading
failed e s = record { loading = s; error = some e; warning = none }

-- The entry that the reset vector gives, `none` for a file without one.
abbrev pub start_at : Loading → Option ℕ → Reading
start_at s none = record {
  loading = record s { out = record (s.out) { entry = u16 s.code_low } };
  error = none;
  warning = none;
}
start_at s (some vector) =
    if leb s.code_low vector && leb vector s.code_high
    then record {
      loading = record s { out = record (s.out) { entry = vector } };
      error = none;
      warning = none;
    }
    else record {
      loading = record s { out = record (s.out) { entry = u16 s.code_low } };
      error = none;
      warning = some vector;
    }

abbrev pub described : Loading → Loading
described s = record s {
  out = record (s.out) { has_reset_vector = s.reset_lo && s.reset_hi; end = u16 s.code_high };
}

-- The reset vector, as MemRead gives it.
unfoldable pub reset_vector : Memory → Option ℕ
reset_vector m = do
  lo ← mem_read m 0xfffc
  hi ← mem_read m 0xfffd
  some (u16 (bit_or lo (u16 (hi * 256))))

abbrev pub start_with : Loading → Option ℕ → Option Reading
start_with s none = none
start_with s (some vector) = some (start_at s (some vector))

-- `readRp6502File` after the loop.
unfoldable pub finish : Loading → Option Reading
finish s =
    if not s.have_code
    then some (failed no_code s)
    else if s.reset_lo && s.reset_hi
    then start_with (described s) (reset_vector s.memory)
    else some (start_at (described s) none)

-- What follows a round, with the loop that goes on.
abbrev pub after_round : (File → Loading → Option Reading) → Option Round → Option Reading
after_round loop none = none
after_round loop (some (ended s)) = finish s
after_round loop (some (refused e s)) = some (failed e s)
after_round loop (some (goes_on f s)) = loop f s

-- The loop and what follows it.
unfoldable pub chunks : Option ℕ → ℕ → File → Loading → Option Reading
chunks section_end zero f s = none
chunks section_end (suc fuel) f s =
    after_round (λ f' s'. chunks section_end fuel f' s') (round section_end f s)

abbrev pub is_group : Option Text → Bool
is_group none = false
is_group (some line) = char_at line 0 == b'#' && char_at line 1 == b'>'

-- `sectionLen` of a group header whose two numbers parse.
unfoldable pub section_len : Option Text → Option ℕ
section_len line = do
  line ← line
  len ← parse_uint32 (drop 2 line)
  crc ← parse_uint32 len.1
  some len.0

-- Each round takes a byte at least, so the length of the file and one more are enough.
abbrev pub chunk_fuel : File → ℕ
chunk_fuel f = suc (length f.rest)

-- The chunks up to the end of a section whose length parses.
abbrev pub read_section : Option ℕ → File → Loading → Option Reading
read_section none f s = some (failed malformed_group s)
read_section (some len) f s = chunks (some (f.pos + len)) (chunk_fuel f) f s

-- The group header, from `afterShebang` on. `seeks` says whether `fseek` succeeds.
unfoldable pub read_sections : Bool → File → Loading → Option Reading
read_sections seeks f s =
    let (line, after) = read_line line_max f in
    if is_group line
    then read_section (section_len line) after s
    else if seeks
    then chunks none (chunk_fuel f) f s
    else some (failed seek_failed s)

abbrev pub has_shebang : Option Text → Bool
has_shebang none = false
has_shebang (some line) = not (ltb (length line) 8) && matches_shebang line

-- `readRp6502File`
unfoldable pub read_rp6502_file : Bool → Option (List ℕ) → Memory → Option Reading
read_rp6502_file seeks none m = some (failed cannot_open (nothing_loaded m))
read_rp6502_file seeks (some bytes) m =
    let (line, f) = read_line line_max (opened bytes) in
    if has_shebang line
    then read_sections seeks f (nothing_loaded m)
    else some (failed missing_header (nothing_loaded m))
