-- ===== src/Main/Shown.antt =====
-- The characters of a line that `DisOne` composes.
use dis.Base.{
  ℕ, ◌+◌, ◌*◌, refl, Option, [], ◌∷◌, ◌++◌, zero, suc, bit_or, take, Bool-cases, inl, inr, All,
  All-append,
}
use dis.Base.Text.{Text, codes, hex}
use dis.Cpu.{VrEmu6502, AddrMode}
use dis.Disassemble.{
  mode_operand, operand_format, operand_text, line_text, composed, text_or, relative,
  dis_is_bit_branch, dis_is_accumulator, dis_is_brk,
}
use dis.Main.ReadBack.{IsShown, hex-IsShown}

take-IsShown : (n : ℕ) (s : Text) → All IsShown s → All IsShown (take n s)
take-IsShown zero s shown = tt
take-IsShown (suc n) [] shown = tt
take-IsShown (suc n) (c ∷ s) shown = (shown.0, take-IsShown n s shown.1)

-- A number between two texts.
around :
    (before after : Text) (k n : ℕ)
    → All IsShown before
    → All IsShown after
    → All IsShown (before ++ hex k n ++ after)
around before after k n left right =
    All-append IsShown (before ++ hex k n) after
      (All-append IsShown before (hex k n) left (hex-IsShown k n)) right

behind : (before : Text) (k n : ℕ) → All IsShown before → All IsShown (before ++ hex k n)
behind before k n left = All-append IsShown before (hex k n) left (hex-IsShown k n)

mode_operand-IsShown :
    (m : AddrMode) (addr arg8 arg16 : ℕ) → All IsShown (mode_operand m addr arg8 arg16)
unfolding mode_operand
mode_operand-IsShown AddrMode.abs addr arg8 arg16 = behind (codes "$") 4 arg16 (refl, tt)
mode_operand-IsShown AddrMode.abs_x addr arg8 arg16 =
    around (codes "$") (codes ", x") 4 arg16 (refl, tt) (refl, (refl, (refl, tt)))
mode_operand-IsShown AddrMode.abs_y addr arg8 arg16 =
    around (codes "$") (codes ", y") 4 arg16 (refl, tt) (refl, (refl, (refl, tt)))
mode_operand-IsShown AddrMode.abs_ind addr arg8 arg16 =
    around (codes "($") (codes ")") 4 arg16 (refl, (refl, tt)) (refl, tt)
mode_operand-IsShown AddrMode.abs_ind_x addr arg8 arg16 =
    around (codes "($") (codes ", x)") 4 arg16 (refl, (refl, tt)) (refl, (refl, (refl, (refl, tt))))
mode_operand-IsShown AddrMode.imm addr arg8 arg16 = behind (codes "#$") 2 arg8 (refl, (refl, tt))
mode_operand-IsShown AddrMode.ind_x addr arg8 arg16 =
    around (codes "($") (codes ", x)") 2 arg8 (refl, (refl, tt)) (refl, (refl, (refl, (refl, tt))))
mode_operand-IsShown AddrMode.ind_y addr arg8 arg16 =
    around (codes "($") (codes "), y") 2 arg8 (refl, (refl, tt)) (refl, (refl, (refl, (refl, tt))))
mode_operand-IsShown AddrMode.rel addr arg8 arg16 =
    behind (codes "$") 4 (relative (addr + 2) arg8) (refl, tt)
mode_operand-IsShown AddrMode.zp addr arg8 arg16 = behind (codes "$") 2 arg8 (refl, tt)
mode_operand-IsShown AddrMode.zpi addr arg8 arg16 =
    around (codes "($") (codes ")") 2 arg8 (refl, (refl, tt)) (refl, tt)
mode_operand-IsShown AddrMode.zp_x addr arg8 arg16 =
    around (codes "$") (codes ", x") 2 arg8 (refl, tt) (refl, (refl, (refl, tt)))
mode_operand-IsShown AddrMode.zp_y addr arg8 arg16 =
    around (codes "$") (codes ", y") 2 arg8 (refl, tt) (refl, (refl, (refl, tt)))
mode_operand-IsShown AddrMode.acc addr arg8 arg16 = (refl, tt)
mode_operand-IsShown AddrMode.imp addr arg8 arg16 = tt

operand_format-IsShown :
    (cpu : VrEmu6502) (opcode addr arg8 arg8b : ℕ)
    → All IsShown (operand_format cpu opcode addr arg8 arg8b)
unfolding operand_format
operand_format-IsShown cpu opcode addr arg8 arg8b =
    let name = cpu.mnemonic_str opcode in
    elim (Bool-cases (dis_is_bit_branch name)) [
      | inl b ↦ rw b (
          behind (codes "$" ++ hex 2 arg8 ++ codes ", $") 4 (relative (addr + 3) arg8b)
            (around (codes "$") (codes ", $") 2 arg8 (refl, tt) (refl, (refl, (refl, tt)))))
      | inr b ↦ rw b (elim (Bool-cases (dis_is_accumulator opcode name)) [
        | inl a ↦ rw a (refl, tt)
        | inr a ↦ rw a (elim (Bool-cases (dis_is_brk opcode name)) [
          | inl k ↦ rw k (behind (codes "$") 2 arg8 (refl, tt))
          | inr k ↦
              rw k
                (mode_operand-IsShown (cpu.addr_mode opcode) addr arg8 (bit_or (arg8b * 256) arg8))
        ])
      ])
    ]

-- The names of the table have no newline.
abbrev pub HasShownNames : VrEmu6502 → Type 0
HasShownNames cpu = (opcode : ℕ) → All IsShown (text_or (cpu.mnemonic_str opcode) (codes "(null)"))

line_text-IsShown :
    (name : Option Text) (operand : Text)
    → All IsShown (text_or name (codes "(null)"))
    → All IsShown operand
    → All IsShown (line_text name operand)
line_text-IsShown name [] named shown = named
line_text-IsShown name (c ∷ cs) named shown =
    All-append IsShown (text_or name (codes "(null)")) (b' ' ∷ c ∷ cs) named (refl, shown)

pub composed-IsShown :
    (cpu : VrEmu6502) (addr n : ℕ) (read : ℕ → ℕ)
    → HasShownNames cpu
    → All IsShown (take n (composed cpu addr read))
unfolding composed operand_text
composed-IsShown cpu addr n read named = take-IsShown n (composed cpu addr read) (
    line_text-IsShown (cpu.mnemonic_str (read addr)) _ (named (read addr))
      (take-IsShown 31 _ (operand_format-IsShown cpu (read addr) addr _ _)))
