-- ===== src/Samples.antt =====
-- A small opcode table and a program, for the tests and the examples of the other modules.
mod Kinds
mod Disassembly
mod Analysis
mod Regions
mod Checksums
mod Image
mod Roms
mod Programs
mod HexFiles
mod Contracts
mod Dumps
mod Runs
mod RomTrips
mod HexTrips
mod HexRuns
mod CommandLines
mod RomRuns
mod RomStops
mod Sweeps
use dis.Base.{
  ℕ, zero, suc, arith, ◌-◌, Bool, ◌||◌, Option, some, none, List, [], ◌∷◌, ◌<◌, get_or, ltb, ◌==◌,
  if◌then◌else◌,
}
use dis.Base.Text.{Text, codes}
use dis.Cpu.{VrEmu6502, AddrMode}

abbrev pub is_branch : ℕ → Bool
is_branch opcode =
    opcode == 0x10
    || opcode == 0x30
    || opcode == 0x50
    || opcode == 0x70
    || opcode == 0x90
    || opcode == 0xb0
    || opcode == 0xd0
    || opcode == 0xf0

-- A part of the table of the W65C02.
abbrev pub sample_cpu : VrEmu6502
sample_cpu = record {
  mnemonic_str = λ opcode. some (
      if opcode == 0x00
      then codes "brk"
      else if opcode == 0x0f
      then codes "bbr0"
      else if opcode == 0x1a
      then codes "inc"
      else if opcode == 0x20
      then codes "jsr"
      else if opcode == 0x4c
      then codes "jmp"
      else if opcode == 0x60
      then codes "rts"
      else if opcode == 0x80
      then codes "bra"
      else if opcode == 0xa9
      then codes "lda"
      else if opcode == 0xd0
      then codes "bne"
      else if is_branch opcode
      then codes "bcc"
      else codes "nop");
  addr_mode = λ opcode.
      if opcode == 0x0f
      then AddrMode.zp
      else if opcode == 0x20 || opcode == 0x4c
      then AddrMode.abs
      else if opcode == 0xa9
      then AddrMode.imm
      else if opcode == 0x80 || is_branch opcode
      then AddrMode.rel
      else AddrMode.imp;
}

-- 0200 jsr $0208, 0203 bne $0200, 0205 jmp $c000, 0208 inc a, 0209 rts
abbrev sample_bytes : List ℕ
sample_bytes = 0x20 ∷ 0x08 ∷ 0x02 ∷ 0xd0 ∷ 0xfb ∷ 0x4c ∷ 0x00 ∷ 0xc0 ∷ 0x1a ∷ 0x60 ∷ []

abbrev pub sample_read : ℕ → ℕ
sample_read addr = if ltb addr 0x200 then 0 else get_or sample_bytes (addr - 0x200) 0

abbrev AllBytes : List ℕ → Type 0
AllBytes [] = Unit
AllBytes (b ∷ bs) = (b < 256) × AllBytes bs

get_or-lt : (bs : List ℕ) (i : ℕ) → AllBytes bs → get_or bs i 0 < 256
get_or-lt [] i h = omega arith
get_or-lt (b ∷ bs) zero h = h.0
get_or-lt (b ∷ bs) (suc i) h = get_or-lt bs i h.1

pub sample_read-lt : (a : ℕ) → sample_read a < 256
sample_read-lt a = ground (arith, get_or-lt sample_bytes (a - 0x200) (omega arith))
