-- ===== src/Disassemble.antt =====
-- disassemble.c: one instruction decoded, a range of them listed, and what an instruction does
-- to control flow. The static handle `disCpu` is an argument, `none` for NULL, and the caller's
-- `DisReadFn` is a function from an address to a byte.
pub mod Length
pub mod Buffer
pub mod Range
pub mod Flow
pub mod Reads
pub mod Kinds
pub mod Contract
use dis.Base.{
  ℕ, zero, suc, ◌+◌, ◌-◌, ◌*◌, Bool, true, false, ◌&&◌, ◌||◌, Option, none, some, List, [], ◌∷◌,
  ◌++◌, ltb, ◌==◌, if◌then◌else◌, u8, u16, bit_or,
}
use dis.Base.Text.{Text, codes, char_at, str_eq, snprintf, hex}
use dis.Cpu.{Model, VrEmu6502, AddrMode}
use mathlib.Core.Option

-- `disIsBitBranch`
unfoldable pub dis_is_bit_branch : Option Text → Bool
dis_is_bit_branch none = false
dis_is_bit_branch (some mnemonic) =
    char_at mnemonic 0 == b'b'
    && char_at mnemonic 1 == b'b'
    && (char_at mnemonic 2 == b'r' || char_at mnemonic 2 == b's')

-- `disIsBrk`
unfoldable pub dis_is_brk : ℕ → Option Text → Bool
dis_is_brk opcode none = false
dis_is_brk opcode (some mnemonic) = opcode == 0x00 && str_eq mnemonic (codes "brk")

-- `disIsAccumulator`
unfoldable pub dis_is_accumulator : ℕ → Option Text → Bool
dis_is_accumulator opcode none = false
dis_is_accumulator opcode (some mnemonic) =
    if opcode == 0x0a
    then str_eq mnemonic (codes "asl")
    else if opcode == 0x2a
    then str_eq mnemonic (codes "rol")
    else if opcode == 0x4a
    then str_eq mnemonic (codes "lsr")
    else if opcode == 0x6a
    then str_eq mnemonic (codes "ror")
    else if opcode == 0x1a
    then str_eq mnemonic (codes "inc")
    else if opcode == 0x3a
    then str_eq mnemonic (codes "dec")
    else false

abbrev pub text_or : Option Text → Text → Text
text_or none fallback = fallback
text_or (some text) fallback = text

-- `DisInit`: the old handle is destroyed, and the new one is what the library's constructor
-- returns, `none` when it has no memory.
unfoldable pub dis_init : (Model → Option VrEmu6502) → Option VrEmu6502 → Model → Option VrEmu6502
dis_init vr_emu6502_new dis_cpu model = vr_emu6502_new model

-- The `switch` of `DisInstLen`.
unfoldable pub mode_len : AddrMode → ℕ
mode_len AddrMode.abs = 3
mode_len AddrMode.abs_x = 3
mode_len AddrMode.abs_y = 3
mode_len AddrMode.abs_ind = 3
mode_len AddrMode.abs_ind_x = 3
mode_len AddrMode.imm = 2
mode_len AddrMode.ind_x = 2
mode_len AddrMode.ind_y = 2
mode_len AddrMode.rel = 2
mode_len AddrMode.zp = 2
mode_len AddrMode.zpi = 2
mode_len AddrMode.zp_x = 2
mode_len AddrMode.zp_y = 2
mode_len AddrMode.acc = 1
mode_len AddrMode.imp = 1

-- `DisInstLen`
unfoldable pub dis_inst_len : Option VrEmu6502 → ℕ → ℕ
dis_inst_len none opcode = 0
dis_inst_len (some cpu) opcode =
    let mnemonic = cpu.mnemonic_str opcode in
    if dis_is_bit_branch mnemonic
    then 3
    else if dis_is_brk opcode mnemonic
    then 2
    else mode_len (cpu.addr_mode opcode)

-- `(uint16_t)(from + (int8_t)displacement)`, where the sum is taken in `int`.
abbrev pub relative : ℕ → ℕ → ℕ
relative from displacement =
    u16 (if ltb displacement 128 then from + displacement else from + displacement + 65536 - 256)

-- The `switch` of `DisOne`, which writes the operand for an addressing mode.
unfoldable pub mode_operand : AddrMode → ℕ → ℕ → ℕ → Text
mode_operand AddrMode.abs addr arg8 arg16 = codes "$" ++ hex 4 arg16
mode_operand AddrMode.abs_x addr arg8 arg16 = codes "$" ++ hex 4 arg16 ++ codes ", x"
mode_operand AddrMode.abs_y addr arg8 arg16 = codes "$" ++ hex 4 arg16 ++ codes ", y"
mode_operand AddrMode.abs_ind addr arg8 arg16 = codes "($" ++ hex 4 arg16 ++ codes ")"
mode_operand AddrMode.abs_ind_x addr arg8 arg16 = codes "($" ++ hex 4 arg16 ++ codes ", x)"
mode_operand AddrMode.imm addr arg8 arg16 = codes "#$" ++ hex 2 arg8
mode_operand AddrMode.ind_x addr arg8 arg16 = codes "($" ++ hex 2 arg8 ++ codes ", x)"
mode_operand AddrMode.ind_y addr arg8 arg16 = codes "($" ++ hex 2 arg8 ++ codes "), y"
mode_operand AddrMode.rel addr arg8 arg16 = codes "$" ++ hex 4 (relative (addr + 2) arg8)
mode_operand AddrMode.zp addr arg8 arg16 = codes "$" ++ hex 2 arg8
mode_operand AddrMode.zpi addr arg8 arg16 = codes "($" ++ hex 2 arg8 ++ codes ")"
mode_operand AddrMode.zp_x addr arg8 arg16 = codes "$" ++ hex 2 arg8 ++ codes ", x"
mode_operand AddrMode.zp_y addr arg8 arg16 = codes "$" ++ hex 2 arg8 ++ codes ", y"
mode_operand AddrMode.acc addr arg8 arg16 = codes "a"
mode_operand AddrMode.imp addr arg8 arg16 = []

-- The operand that `DisOne` prints, and what is left of it in `operand[32]`.
unfoldable pub operand_format : VrEmu6502 → ℕ → ℕ → ℕ → ℕ → Text
operand_format cpu opcode addr arg8 arg8b =
    let mnemonic = cpu.mnemonic_str opcode in
    if dis_is_bit_branch mnemonic
    then codes "$" ++ hex 2 arg8 ++ codes ", $" ++ hex 4 (relative (addr + 3) arg8b)
    else if dis_is_accumulator opcode mnemonic
    then codes "a"
    else if dis_is_brk opcode mnemonic
    then codes "$" ++ hex 2 arg8
    else mode_operand (cpu.addr_mode opcode) addr arg8 (bit_or (arg8b * 256) arg8)

unfoldable pub operand_text : VrEmu6502 → ℕ → ℕ → ℕ → ℕ → Text
operand_text cpu opcode addr arg8 arg8b = snprintf 32 (operand_format cpu opcode addr arg8 arg8b)

-- `"%s %s"`, or `"%s"` for no operand. For a NULL mnemonic C leaves the output of `%s` open, and
-- the C libraries in use write `(null)`.
abbrev pub line_text : Option Text → Text → Text
line_text mnemonic [] = text_or mnemonic (codes "(null)")
line_text mnemonic (c ∷ cs) = text_or mnemonic (codes "(null)") ++ (codes " " ++ c ∷ cs)

pub record Decoded : Type 0 where
  -- the returned address
  pub next : ℕ
  -- the string that `buf` holds afterwards; `none` when nothing is written, for a NULL `buf` or a
  -- `bufSize` that is not positive
  pub text : Option Text

-- The string that `DisOne` composes, before it is cut to the buffer. Only the bytes that the
-- instruction has are read.
unfoldable pub composed : VrEmu6502 → ℕ → (ℕ → ℕ) → Text
composed cpu addr read =
    let opcode = read addr in
    let len = dis_inst_len (some cpu) opcode in
    let arg8 = if ltb len 2 then 0 else read (u16 (addr + 1)) in
    let arg8b = if ltb len 3 then 0 else read (u16 (addr + 2)) in
    line_text (cpu.mnemonic_str opcode) (operand_text cpu opcode addr arg8 arg8b)

-- `DisOne`. `buf_size` is the room at `buf`, 0 for a NULL `buf` or a negative size.
unfoldable pub dis_one : Option VrEmu6502 → ℕ → (ℕ → ℕ) → ℕ → Decoded
dis_one none addr read buf_size = record {
  next = 0;
  text = if buf_size == 0 then none else some [];
}
dis_one (some cpu) addr read buf_size = record {
  next = u16 (addr + dis_inst_len (some cpu) (read addr));
  text = if buf_size == 0 then none else some (snprintf buf_size (composed cpu addr read));
}

-- One call of the `DisEmitFn`. Its `len` is the length of `bytes`.
pub record Line : Type 0 where
  pub addr : ℕ
  pub bytes : List ℕ
  pub text : Text

-- `for (i = 0; i < n; ++i) bytes[i] = read((uint16_t)(pc + i))`, from `i` with `n - i` rounds left.
unfoldable pub fetch_bytes : (ℕ → ℕ) → ℕ → ℕ → ℕ → List ℕ
fetch_bytes read pc i zero = []
fetch_bytes read pc i (suc left) = read (u16 (pc + i)) ∷ fetch_bytes read pc (i + 1) left

-- The `while` loop of `DisRange`: the lines that it emits, or `none` out of fuel.
unfoldable pub range_loop : Option VrEmu6502 → (ℕ → ℕ) → ℕ → ℕ → ℕ → ℕ → Option (List Line)
range_loop dis_cpu read len zero pc consumed = none
range_loop dis_cpu read len (suc fuel) pc consumed =
    let one = dis_one dis_cpu pc read 48 in
    let n = u8 (one.next + 65536 - pc) in
    let line : Line = record {
      addr = pc;
      bytes = fetch_bytes read pc 0 n;
      text = text_or one.text [];
    } in
    let rest = range_loop dis_cpu read len fuel one.next (consumed + n) in
    if ltb consumed len
    then if ltb n 1 || ltb 3 n
      then some []
      else if ltb one.next pc
      then some (line ∷ [])
      else Option.map (λ lines. line ∷ lines) rest
    else some []

-- `DisRange`. Each round consumes a byte at least, so `len` rounds and one test are enough.
unfoldable pub dis_range : Option VrEmu6502 → ℕ → ℕ → (ℕ → ℕ) → Option (List Line)
dis_range none addr len read = some []
dis_range (some cpu) addr len read =
    let lines = range_loop (some cpu) read len (suc len) addr 0 in
    if len == 0 then some [] else lines

pub data DisFlow : Type 0 where
  normal call jump branch return indirect : DisFlow

-- What `DisFlowOf` returns and what it writes to `*target`, `none` where it leaves that alone.
pub record Classified : Type 0 where
  pub kind : DisFlow
  pub target : Option ℕ

abbrev untargeted : DisFlow → Classified
untargeted kind = record { kind = kind; target = none }

-- The little-endian operand at `addr + 1`.
unfoldable pub absolute_target : (ℕ → ℕ) → ℕ → ℕ
absolute_target read addr = bit_or (read (u16 (addr + 1))) (read (u16 (addr + 2)) * 256)

unfoldable pub is_conditional : ℕ → Bool
is_conditional opcode =
    opcode == 0x10
    || opcode == 0x30
    || opcode == 0x50
    || opcode == 0x70
    || opcode == 0x90
    || opcode == 0xb0
    || opcode == 0xd0
    || opcode == 0xf0

-- The `switch` of `DisFlowOf`.
unfoldable pub opcode_flow : ℕ → Text → ℕ → (ℕ → ℕ) → Classified
opcode_flow opcode mnemonic addr read =
    let near = some (relative (addr + 2) (read (u16 (addr + 1)))) in
    let far = some (absolute_target read addr) in
    if opcode == 0x20
    then record { kind = call; target = far }
    else if opcode == 0x4c
    then record { kind = jump; target = far }
    else if opcode == 0x6c || opcode == 0x7c
    then untargeted (if str_eq mnemonic (codes "jmp") then indirect else normal)
    else if opcode == 0x80
    then if str_eq mnemonic (codes "bra")
      then record { kind = jump; target = near }
      else untargeted normal
    else if is_conditional opcode
    then record { kind = branch; target = near }
    else if opcode == 0x00 || opcode == 0x40 || opcode == 0x60
    then untargeted return
    else if opcode == 0xdb
    then untargeted (if str_eq mnemonic (codes "stp") then return else normal)
    else untargeted (if str_eq mnemonic (codes "jam") then return else normal)

-- `DisFlowOf` from the opcode and its mnemonic on.
unfoldable pub named_flow : ℕ → Option Text → ℕ → (ℕ → ℕ) → Classified
named_flow opcode none addr read = untargeted normal
named_flow opcode (some mnemonic) addr read =
    if dis_is_bit_branch (some mnemonic)
    then record { kind = branch; target = some (relative (addr + 3) (read (u16 (addr + 2)))) }
    else opcode_flow opcode mnemonic addr read

-- `DisFlowOf`
unfoldable pub dis_flow_of : Option VrEmu6502 → ℕ → (ℕ → ℕ) → Classified
dis_flow_of none addr read = untargeted normal
dis_flow_of (some cpu) addr read = named_flow (read addr) (cpu.mnemonic_str (read addr)) addr read
