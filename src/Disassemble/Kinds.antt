-- ===== src/Disassemble/Kinds.antt =====
-- `DisFlowOf` against the kinds of flow that disassemble.h lists by mnemonic.
use dis.Base.{ℕ, ◌≡◌, ◌⊎◌, Bool, true, false, ◌&&◌, ◌||◌, some, ◌==◌, if◌then◌else◌}
use dis.Base.Text.{Text, codes, str_eq}
use dis.Cpu.{AddrMode}
use dis.Disassemble.{
  DisFlow, normal, call, jump, branch, return, indirect, is_conditional, dis_is_bit_branch,
}

abbrev pub is_branch_name : Text → Bool
is_branch_name m =
    str_eq m (codes "bpl")
    || str_eq m (codes "bmi")
    || str_eq m (codes "bvc")
    || str_eq m (codes "bvs")
    || str_eq m (codes "bcc")
    || str_eq m (codes "bcs")
    || str_eq m (codes "bne")
    || str_eq m (codes "beq")

abbrev pub is_return_name : Text → Bool
is_return_name m =
    str_eq m (codes "rts")
    || str_eq m (codes "rti")
    || str_eq m (codes "brk")
    || str_eq m (codes "stp")
    || str_eq m (codes "jam")

abbrev pub jmp_kind : AddrMode → DisFlow
jmp_kind AddrMode.abs = jump
jmp_kind _ = indirect

abbrev is_abs : AddrMode → Bool
is_abs AddrMode.abs = true
is_abs _ = false

-- The kind that disassemble.h gives for a mnemonic and its mode, of those without a condition.
abbrev pub unconditional_kind : Text → AddrMode → DisFlow
unconditional_kind m mode =
    if str_eq m (codes "jsr")
    then call
    else if str_eq m (codes "bra")
    then jump
    else if str_eq m (codes "jmp")
    then jmp_kind mode
    else if is_return_name m
    then return
    else normal

-- And of all.
abbrev pub kind_named : Text → AddrMode → DisFlow
kind_named m mode =
    if dis_is_bit_branch (some m) || is_branch_name m then branch else unconditional_kind m mode

-- What the 6502 family's instruction set says of an opcode with this mnemonic and mode: where the
-- control flow of the mnemonic has opcodes of its own, it stands at them and at no other. The
-- extensions, `bra`, `stp` and the indexed `jmp`, and the `jam` of undocumented opcodes, are there
-- on some models only.
pub record IsDocumented (opcode : ℕ) (m : Text) (mode : AddrMode) : Type 0 where
  pub jsr : str_eq m (codes "jsr") ≡ (opcode == 0x20)
  pub branches : is_branch_name m ≡ is_conditional opcode
  pub rts : str_eq m (codes "rts") ≡ (opcode == 0x60)
  pub rti : str_eq m (codes "rti") ≡ (opcode == 0x40)
  pub brk : str_eq m (codes "brk") ≡ (opcode == 0x00)
  pub jmp_abs : (opcode == 0x4c) ≡ (str_eq m (codes "jmp") && is_abs mode)
  pub jmp : str_eq m (codes "jmp") ≡ true → (opcode ≡ 0x4c) ⊎ (opcode ≡ 0x6c) ⊎ (opcode ≡ 0x7c)
  pub bra : str_eq m (codes "bra") ≡ true → opcode ≡ 0x80
  pub stp : str_eq m (codes "stp") ≡ true → opcode ≡ 0xdb
  pub jam :
      str_eq m (codes "jam") ≡ true
      → (opcode == 0x6c || opcode == 0x7c || opcode == 0x80 || opcode == 0xdb) ≡ false

-- The kinds alone in the `switch`.
abbrev switch_kind : ℕ → Text → DisFlow
switch_kind opcode m =
    if opcode == 0x20
    then call
    else if opcode == 0x4c
    then jump
    else if opcode == 0x6c || opcode == 0x7c
    then if str_eq m (codes "jmp") then indirect else normal
    else if opcode == 0x80
    then if str_eq m (codes "bra") then jump else normal
    else if is_conditional opcode
    then branch
    else if opcode == 0x00 || opcode == 0x40 || opcode == 0x60
    then return
    else if opcode == 0xdb
    then if str_eq m (codes "stp") then return else normal
    else if str_eq m (codes "jam")
    then return
    else normal

-- The other kinds, by the opcode.
other_kind : ℕ → Text → DisFlow
other_kind opcode m =
    if opcode == 0x20
    then call
    else if opcode == 0x4c
    then jump
    else if opcode == 0x6c || opcode == 0x7c
    then if str_eq m (codes "jmp") then indirect else normal
    else if opcode == 0x80
    then if str_eq m (codes "bra") then jump else normal
    else if opcode == 0x00 || opcode == 0x40 || opcode == 0x60
    then return
    else if opcode == 0xdb
    then if str_eq m (codes "stp") then return else normal
    else if str_eq m (codes "jam")
    then return
    else normal
