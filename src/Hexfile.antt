-- ===== src/Hexfile.antt =====
-- hexfile.c: the reader of Intel HEX files. An `int` is its 32 bits in two's complement.
-- `lineBuffer` keeps what earlier lines left behind a shorter one, so its bytes are part of the
-- state, and what it holds at first is an argument. A MemWrite that leaves a buffer is `none`, and
-- so is a `strncpy_s` that reads behind `lineBuffer` or writes behind `tmpBuffer`.
pub mod Copies
pub mod Total
pub mod Format
pub mod Fields
pub mod Columns
pub mod Records
pub mod Lines
pub mod RoundTrip
pub mod Ranges
pub mod Image
use dis.Base.{
  ℕ, zero, suc, ◌+◌, ◌-◌, ◌*◌, Bool, true, false, not, ◌&&◌, ◌||◌, Option, none, some, List, [],
  ◌∷◌, ◌++◌, ltb, leb, ◌==◌, if◌then◌else◌, ◌>>=◌, length, get_or, take, u8, u16, u32,
}
use mathlib.Core.Option
use dis.Libc.Files.{File, opened, fgets, c_string}
use dis.Libc.Numbers.{hex_int}
use dis.Memory.{Memory, mem_write}

-- `sizeof(lineBuffer)`
abbrev pub buffer_size : ℕ
buffer_size = 1024

-- The buffer after `fgets` has stored `chars` and their NUL.
abbrev pub overwrite : (ℕ → ℕ) → List ℕ → ℕ → ℕ
overwrite buffer chars i = if leb i (length chars) then get_or chars i 0 else buffer i

-- The `n` bytes of the buffer from `from` on.
abbrev pub slice : (ℕ → ℕ) → ℕ → ℕ → List ℕ
slice buffer from zero = []
slice buffer from (suc n) = buffer from ∷ slice buffer (from + 1) n

-- `sizeof(tmpBuffer)`
abbrev pub tmp_size : ℕ
tmp_size = 10

-- `(int)strtol(tmpBuffer, NULL, 16)` for these characters in `tmpBuffer`.
abbrev pub field : (ℕ → ℕ) → ℕ → ℕ → ℕ
field buffer from n = hex_int (c_string (slice buffer from n))

-- The same behind the `strncpy_s` of the characters and a NUL into `tmpBuffer`.
abbrev pub copied : (ℕ → ℕ) → ℕ → ℕ → Option ℕ
copied buffer from n =
    if ltb n tmp_size && leb (from + n) buffer_size then some (field buffer from n) else none

-- The rounds of a loop `for (int i = 0; i < n; ++i)`.
abbrev pub rounds : ℕ → ℕ
rounds n = if leb 0x80000000 n then 0 else n

-- The variables of the line loop and the memory that it writes.
pub record Loader : Type 0 where
  pub memory : Memory
  pub run_address : ℕ
  pub last_addr : ℕ
  pub total : ℕ

-- The data bytes of a record from `i` on, with `left` rounds left.
unfoldable pub write_data : Memory → (ℕ → ℕ) → ℕ → ℕ → ℕ → Option Memory
write_data m buffer addr i zero = some m
write_data m buffer addr i (suc left) = do
  value ← copied buffer (9 + i * 2) 2
  m' ← mem_write m (u16 (addr + i)) (u8 value)
  write_data m' buffer addr (i + 1) left

-- A data record, once its bytes are written.
abbrev pub record_data : Loader → Memory → ℕ → ℕ → Loader
record_data s m addr n =
    let end = u16 (addr + n + 0xffffffff) in
    record s {
      memory = m;
      run_address = if s.run_address == 0 then u16 addr else s.run_address;
      last_addr = if ltb s.last_addr end then end else s.last_addr;
    }

-- How a line ends: with the next one, or with the loop for an EOF record.
pub data Next : Type 0 where
  goes_on : Loader → Next
  stops : Loader → Next

-- A data record of `n` bytes.
unfoldable pub read_data : (ℕ → ℕ) → ℕ → ℕ → Loader → Option Next
read_data buffer n addr s = do
  m ← write_data s.memory buffer addr 0 (rounds n)
  some (goes_on (record_data s m addr n))

-- The test of the record type, once the length is counted.
unfoldable pub read_record : (ℕ → ℕ) → ℕ → ℕ → ℕ → Loader → Option Next
read_record buffer n addr type s =
    if type == 0 then read_data buffer n addr s else some (if type == 1 then stops s else goes_on s)

-- The fields of a record.
unfoldable pub read_fields : (ℕ → ℕ) → Loader → Option Next
read_fields buffer s = do
  n ← copied buffer 1 2
  addr ← copied buffer 3 4
  type ← copied buffer 7 2
  read_record buffer n addr type (record s { total = u32 (s.total + n) })

unfoldable pub read_hex_line : (ℕ → ℕ) → Loader → Option Next
read_hex_line buffer s = if buffer 0 == b':' then read_fields buffer s else some (goes_on s)

abbrev pub after_line : (Loader → Option Loader) → Option Next → Option Loader
after_line loop none = none
after_line loop (some (goes_on s)) = loop s
after_line loop (some (stops s)) = some s

-- A round of the loop for what `fgets` gives.
abbrev pub with_line :
    ((ℕ → ℕ) → File → Loader → Option Loader)
    → (ℕ → ℕ)
    → Option (List ℕ × File)
    → Loader
    → Option Loader
with_line loop buffer none s = some s
with_line loop buffer (some (chars, f)) s =
    after_line (loop (overwrite buffer chars) f) (read_hex_line (overwrite buffer chars) s)

-- The loop over the lines, or `none` out of fuel.
unfoldable pub read_lines : ℕ → (ℕ → ℕ) → File → Loader → Option Loader
read_lines zero buffer f s = none
read_lines (suc fuel) buffer f s =
    with_line (λ b f' s'. read_lines fuel b f' s') buffer (fgets buffer_size f) s

-- What is printed, if anything.
pub data HexError : Type 0 where
  cannot_open invalid_file no_run_address : HexError

-- The returned address, and what is written to a `*out_end` that is not NULL.
pub record HexReading : Type 0 where
  pub memory : Memory
  pub address : ℕ
  pub end : Option ℕ
  pub error : Option HexError

abbrev pub refuse : Memory → HexError → HexReading
refuse m e = record { memory = m; address = 0; end = none; error = some e }

-- The tests after the loop.
unfoldable pub conclude : Loader → HexReading
conclude s =
    if s.total == 0
    then refuse s.memory invalid_file
    else if s.run_address == 0
    then refuse s.memory no_run_address
    else record { memory = s.memory; address = s.run_address; end = some s.last_addr; error = none }

abbrev pub new_loader : Memory → Loader
new_loader m = record { memory = m; run_address = 0; last_addr = 0; total = 0 }

-- `readHexFile` on the file's bytes, `none` if it does not open. `stale` is what `lineBuffer` holds
-- at first. Each line takes a byte at least, so the length of the file and one more are enough.
unfoldable pub read_hex_file : (ℕ → ℕ) → Option (List ℕ) → Memory → Option HexReading
read_hex_file stale none m = some (refuse m cannot_open)
read_hex_file stale (some bytes) m =
    Option.map conclude (read_lines (suc (length bytes)) stale (opened bytes) (new_loader m))
