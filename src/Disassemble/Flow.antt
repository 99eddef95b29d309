-- ===== src/Disassemble/Flow.antt =====
-- `DisFlowOf`: when there is a target, what it is, and that the listing shows the same one.
use dis.Base.{
  ℕ, ◌+◌, ◌*◌, ◌<◌, ◌≡◌, ◌⊎◌, refl, ap, sym, ◌∙◌, Option, some, none, [], ◌∷◌, ◌++◌, Bool, true,
  false, inl, inr, arith, u16, ltb, if◌then◌else◌, Bool-cases, bit_or,
}
use mathlib.Core.List.{append_assoc}
use dis.Base.Bits.{bit_or_bytes, bit_or_comm}
use dis.Base.Text.{Text, codes, hex, hex_in, str_eq}
use dis.Cpu.{VrEmu6502, AddrMode}
use dis.Disassemble.{
  DisFlow, call, jump, branch, relative, absolute_target, is_conditional, opcode_flow, named_flow,
  dis_flow_of, dis_is_bit_branch, dis_is_brk, dis_is_accumulator, dis_inst_len, mode_len,
  operand_format, mode_operand, line_text, composed,
}
use dis.Disassemble.Buffer.{operand_text-eq}

abbrev pub has_target : DisFlow → Bool
has_target call = true
has_target jump = true
has_target branch = true
has_target _ = false

abbrev pub is_some : Option ℕ → Bool
is_some none = false
is_some (some t) = true

-- How an opcode of the `switch` came by its target.
abbrev Origin : ℕ → Text → ℕ → (ℕ → ℕ) → ℕ → Type 0
Origin opcode mnemonic addr read t =
    ((opcode ≡ 0x20) ⊎ (opcode ≡ 0x4c)) × (t ≡ absolute_target read addr)
    ⊎ ((is_conditional opcode ≡ true) ⊎ (opcode ≡ 0x80) × (str_eq mnemonic (codes "bra") ≡ true))
      × (t ≡ relative (addr + 2) (read (u16 (addr + 1))))

opcode_flow-Origin :
    (opcode : ℕ) (mnemonic : Text) (addr : ℕ) (read : ℕ → ℕ) (t : ℕ)
    → (opcode_flow opcode mnemonic addr read).target ≡ some t
    → Origin opcode mnemonic addr read t
unfolding opcode_flow
opcode_flow-Origin opcode mnemonic addr read t h = ground arith

opcode_flow_targeted :
    (opcode : ℕ) (mnemonic : Text) (addr : ℕ) (read : ℕ → ℕ)
    → is_some (opcode_flow opcode mnemonic addr read).target
      ≡ has_target (opcode_flow opcode mnemonic addr read).kind
unfolding opcode_flow
opcode_flow_targeted opcode mnemonic addr read = ground arith

pub named_flow_targeted :
    (opcode : ℕ) (name : Option Text) (addr : ℕ) (read : ℕ → ℕ)
    → is_some (named_flow opcode name addr read).target
      ≡ has_target (named_flow opcode name addr read).kind
unfolding named_flow
named_flow_targeted opcode none addr read = refl
named_flow_targeted opcode (some m) addr read =
    ground (arith, opcode_flow_targeted opcode m addr read)

-- How `DisFlowOf` came by a target: from a bit branch, or in the `switch`.
named_flow-Origin :
    (opcode : ℕ) (name : Option Text) (addr : ℕ) (read : ℕ → ℕ) (t : ℕ)
    → (named_flow opcode name addr read).target ≡ some t
    → (m : Text) × (name ≡ some m)
      × ((dis_is_bit_branch name ≡ true) × (t ≡ relative (addr + 3) (read (u16 (addr + 2))))
          ⊎ (dis_is_bit_branch name ≡ false) × Origin opcode m addr read t)
unfolding named_flow
named_flow-Origin opcode none addr read t h = cc
named_flow-Origin opcode (some m) addr read t h = elim (Bool-cases (dis_is_bit_branch (some m))) [
  | inl b ↦ (m, refl, inl (b, ground arith))
  | inr b ↦ (m, refl, inr (b, opcode_flow-Origin opcode m addr read t (rw b at h)))
]

absolute_target-lt :
    (read : ℕ → ℕ) (addr : ℕ) → ((a : ℕ) → read a < 256) → absolute_target read addr < 65536
unfolding absolute_target
absolute_target-lt read addr bytes =
    let low = bytes (u16 (addr + 1)) in
    let high = bytes (u16 (addr + 2)) in
    omega (arith, bit_or_bytes (read (u16 (addr + 1))) (read (u16 (addr + 2))) low)

-- In a memory of bytes DisFlowOf writes a target exactly for a call, a jump and a branch, and the
-- target is a 16-bit address.
pub dis_flow_of_target :
    (dis_cpu : Option VrEmu6502) (addr : ℕ) (read : ℕ → ℕ)
    → ((a : ℕ) → read a < 256)
    → (is_some (dis_flow_of dis_cpu addr read).target
        ≡ has_target (dis_flow_of dis_cpu addr read).kind)
      × ((t : ℕ) → (dis_flow_of dis_cpu addr read).target ≡ some t → t < 65536)
unfolding dis_flow_of
dis_flow_of_target none addr read bytes = (refl, λ t h. cc)
dis_flow_of_target (some cpu) addr read bytes =
    let name = cpu.mnemonic_str (read addr) in
    (
      named_flow_targeted (read addr) name addr read,
      λ t h. ground (
        arith,
        named_flow-Origin (read addr) name addr read t h,
        absolute_target-lt read addr bytes,
      ),
    )

-- What the library's tables say of the opcodes with a target.
pub record IsConsistent (cpu : VrEmu6502) : Type 0 where
  pub jsr : cpu.addr_mode 0x20 ≡ AddrMode.abs
  pub jmp : cpu.addr_mode 0x4c ≡ AddrMode.abs
  pub conditional :
      (opcode : ℕ) → is_conditional opcode ≡ true → cpu.addr_mode opcode ≡ AddrMode.rel
  pub bra :
      (m : Text)
      → cpu.mnemonic_str 0x80 ≡ some m
      → str_eq m (codes "bra") ≡ true
      → cpu.addr_mode 0x80 ≡ AddrMode.rel

abbrev Shows : Text → ℕ → Type 0
Shows line t = (before : Text) × (line ≡ before ++ (codes "$" ++ hex 4 t))

Shows-line :
    (m : Text) (operand before : Text) (t : ℕ)
    → operand ≡ before ++ (codes "$" ++ hex 4 t)
    → Shows (line_text (some m) operand) t
Shows-line m operand [] t e = rw e (m ++ codes " ", sym (append_assoc m _ _))
Shows-line m operand (c ∷ cs) t e = rw e (m ++ (codes " " ++ c ∷ cs), sym (append_assoc m _ _))

-- The opcodes with a target are neither `brk` nor accumulator instructions.
plain_opcode :
    (opcode : ℕ) (m : Text)
    → (is_conditional opcode ≡ true) ⊎ (opcode ≡ 0x80) ⊎ (opcode ≡ 0x20) ⊎ (opcode ≡ 0x4c)
    → (dis_is_accumulator opcode (some m) ≡ false) × (dis_is_brk opcode (some m) ≡ false)
unfolding dis_is_accumulator dis_is_brk is_conditional
plain_opcode opcode m h = ground arith

module _ (cpu : VrEmu6502) (opcode : ℕ) (m : Text) (named : cpu.mnemonic_str opcode ≡ some m) where
  abbrev Operand : ℕ → ℕ → ℕ → Text
  Operand addr arg8 arg8b = operand_format cpu opcode addr arg8 arg8b

  bit_branch_shown :
      (addr arg8 arg8b : ℕ)
      → dis_is_bit_branch (some m) ≡ true
      → (dis_inst_len (some cpu) opcode ≡ 3)
        × (Operand addr arg8 arg8b
            ≡ codes "$"
              ++ hex 2 arg8
              ++ codes ", "
              ++ (codes "$" ++ hex 4 (relative (addr + 3) arg8b)))
  unfolding dis_inst_len operand_format hex_in
  bit_branch_shown addr arg8 arg8b b = (rw (named, b), rw (named, b))

  absolute_shown :
      (addr arg8 arg8b : ℕ)
      → dis_is_bit_branch (some m) ≡ false
      → (opcode ≡ 0x20) ⊎ (opcode ≡ 0x4c)
      → cpu.addr_mode opcode ≡ AddrMode.abs
      → (dis_inst_len (some cpu) opcode ≡ 3)
        × (Operand addr arg8 arg8b ≡ codes "$" ++ hex 4 (bit_or (arg8b * 256) arg8))
  unfolding dis_inst_len operand_format mode_operand mode_len
  absolute_shown addr arg8 arg8b b which mode =
      let (acc, brk) = plain_opcode opcode m (ground arith) in
      (rw (named, b, brk, mode), rw (named, b, acc, brk, mode))

  relative_shown :
      (addr arg8 arg8b : ℕ)
      → dis_is_bit_branch (some m) ≡ false
      → (is_conditional opcode ≡ true) ⊎ (opcode ≡ 0x80)
      → cpu.addr_mode opcode ≡ AddrMode.rel
      → (dis_inst_len (some cpu) opcode ≡ 2)
        × (Operand addr arg8 arg8b ≡ codes "$" ++ hex 4 (relative (addr + 2) arg8))
  unfolding dis_inst_len operand_format mode_operand mode_len
  relative_shown addr arg8 arg8b b which mode =
      let (acc, brk) = plain_opcode opcode m (ground arith) in
      (rw (named, b, brk, mode), rw (named, b, acc, brk, mode))

module _ (cpu : VrEmu6502) (addr : ℕ) (read : ℕ → ℕ) (m : Text) (t : ℕ)
    (named : cpu.mnemonic_str (read addr) ≡ some m) where
  abbrev len : ℕ
  len = dis_inst_len (some cpu) (read addr)

  abbrev fetched : ℕ → ℕ
  fetched i = if ltb len (i + 1) then 0 else read (u16 (addr + i))

  -- An operand that ends in the target makes a line that does.
  composed_shown :
      (before : Text) (r : ℕ)
      → operand_format cpu (read addr) addr (fetched 1) (fetched 2)
        ≡ before ++ (codes "$" ++ hex 4 r)
      → r ≡ t
      → Shows (composed cpu addr read) t
  unfolding composed
  composed_shown before r e same = rw named (
      Shows-line m _ before t (
        operand_text-eq cpu (read addr) addr _ _
        ∙ e
        ∙ ap (λ (x : ℕ). before ++ (codes "$" ++ hex 4 x)) same))

  shown_by-Origin :
      IsConsistent cpu
      → (dis_is_bit_branch (some m) ≡ true) × (t ≡ relative (addr + 3) (read (u16 (addr + 2))))
        ⊎ (dis_is_bit_branch (some m) ≡ false) × Origin (read addr) m addr read t
      → Shows (composed cpu addr read) t
  shown_by-Origin ok (inl (b, e)) =
      let (size, operand) =
        bit_branch_shown cpu (read addr) m named addr (fetched 1) (fetched 2) b in
      composed_shown (codes "$" ++ hex 2 (fetched 1) ++ codes ", ") _ operand (rw (size, e) refl)
  shown_by-Origin ok (inr (b, inl (which, e))) =
      let (size, operand) =
        absolute_shown cpu (read addr) m named addr (fetched 1) (fetched 2) b which
          (elim which [ inl o ↦ rw o ok.jsr | inr o ↦ rw o ok.jmp ]) in
      composed_shown [] _ operand (rw (size, e) (unfold absolute_target in bit_or_comm _ _))
  shown_by-Origin ok (inr (b, inr (which, e))) =
      let (size, operand) =
        relative_shown cpu (read addr) m named addr (fetched 1) (fetched 2) b
          (elim which [ inl c ↦ inl c | inr (o, s) ↦ inr o ])
          (elim which [
            | inl c ↦ ok.conditional (read addr) c
            | inr (o, s) ↦ rw o (ok.bra m (rw o at named) s)
          ]) in
      composed_shown [] _ operand (rw (size, e) refl)

-- For a table that gives jsr and jmp an absolute operand and the branches a relative one: if
-- DisFlowOf gives a target, the line that DisOne composes ends in $ and the four hexadecimal
-- digits of the same address.
pub dis_flow_of_shown :
    (cpu : VrEmu6502) (addr : ℕ) (read : ℕ → ℕ) (t : ℕ)
    → IsConsistent cpu
    → (dis_flow_of (some cpu) addr read).target ≡ some t
    → Shows (composed cpu addr read) t
unfolding dis_flow_of composed
dis_flow_of_shown cpu addr read t ok h =
    let (m, named, origin) =
      named_flow-Origin (read addr) (cpu.mnemonic_str (read addr)) addr read t h in
    shown_by-Origin cpu addr read m t named ok (rw named at origin)
