-- ===== src/Samples/Kinds.antt =====
-- The flow of a `bra` on a processor that has one.
use dis.Base.{ℕ, some}
use dis.Base.Text.{codes}
use dis.Cpu.{VrEmu6502, AddrMode}

abbrev with_bra : VrEmu6502
with_bra = record {
  mnemonic_str = λ opcode. some (codes "bra");
  addr_mode = λ opcode. AddrMode.rel;
}

abbrev bytes : ℕ → ℕ
bytes addr = 0x80
