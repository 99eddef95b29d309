-- ===== src/Cpu.antt =====
-- The interface of vrEmu6502 (src/vrEmu6502.h), the emulator library whose opcode tables the
-- disassembler consults. The library is a parameter: a handle answers two questions.
use dis.Base.{ℕ, Option}
use dis.Base.Text.{Text}

pub data Model : Type 0 where
  cpu_6502 cpu_6502u cpu_65c02 cpu_w65c02 cpu_r65c02 : Model

pub data AddrMode : Type 0 where
  abs abs_x abs_y acc imm imp abs_ind abs_ind_x ind_x ind_y rel zp zpi zp_x zp_y : AddrMode

-- A handle of the library: the results of `vrEmu6502OpcodeToMnemonicStr`, where `none` is NULL,
-- and of `vrEmu6502GetOpcodeAddrMode`.
pub record VrEmu6502 : Type 0 where
  pub mnemonic_str : ℕ → Option Text
  pub addr_mode : ℕ → AddrMode
