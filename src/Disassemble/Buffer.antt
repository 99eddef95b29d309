-- ===== src/Disassemble/Buffer.antt =====
-- The text that `DisOne` leaves in the caller's buffer.
use dis.Base.{ℕ, zero, suc, ◌+◌, ◌-◌, ◌/◌, ◌≤◌, ◌<◌, ◌≡◌, refl, some, arith, ap, sym}
use dis.Base.{
  Option, ◌*◌, bit_or, Bool-cases, inl, inr, List, [], ◌∷◌, ◌++◌, length, take, length-append,
  length-take, take_all,
}
use native.Mathlib.Nat.{le_trans}
use dis.Base.Text.{Text, hex, hex_in, codes}
use dis.Cpu.{VrEmu6502, AddrMode}
use dis.Disassemble.{
  mode_operand, operand_text, operand_format, line_text, dis_one, composed, dis_is_bit_branch,
  dis_is_accumulator, dis_is_brk,
}

module _ {ℓ} {A : Type ℓ} where
  length-snoc : (xs : List A) (x : A) → length (xs ++ x ∷ []) ≡ suc (length xs)
  length-snoc xs x = omega (arith, length-append xs (x ∷ []))

  take-take : (n m : ℕ) (xs : List A) → n ≤ m → take n (take m xs) ≡ take n xs
  take-take zero m xs h = refl
  take-take (suc n) zero xs h = absurd (omega arith)
  take-take (suc n) (suc m) [] h = refl
  take-take (suc n) (suc m) (x ∷ xs) h = ap (λ (t : List A). x ∷ t) (take-take n m xs (omega arith))

length-hex : (k n : ℕ) → length (hex k n) ≡ k
unfolding hex_in
length-hex zero n = refl
length-hex (suc k) n = rw (length-snoc, length-hex k (n / 16))

length-concat : (s t : Text) → length (s ++ t) ≡ length s + length t
length-concat s t = length-append s t

ruleset operand_sizes = (arith, length-hex, length-concat)

mode_operand_short :
    (m : AddrMode) (addr arg8 arg16 : ℕ) → length (mode_operand m addr arg8 arg16) ≤ 14
unfolding mode_operand hex_in
mode_operand_short AddrMode.abs addr arg8 arg16 = omega operand_sizes
mode_operand_short _ addr arg8 arg16 = omega operand_sizes

operand_format_short :
    (cpu : VrEmu6502) (opcode addr arg8 arg8b : ℕ)
    → length (operand_format cpu opcode addr arg8 arg8b) ≤ 14
unfolding operand_format hex_in
operand_format_short cpu opcode addr arg8 arg8b = elim (Bool-cases (dis_is_bit_branch name)) [
  | inl b ↦ rw b (omega operand_sizes)
  | inr b ↦ rw b (elim (Bool-cases (dis_is_accumulator opcode name)) [
    | inl a ↦ rw a (omega arith)
    | inr a ↦ rw a (elim (Bool-cases (dis_is_brk opcode name)) [
      | inl k ↦ rw k (omega operand_sizes)
      | inr k ↦
          rw k (mode_operand_short (cpu.addr_mode opcode) addr arg8 (bit_or (arg8b * 256) arg8))
    ])
  ])
]
  where
    name : Option Text
    name = cpu.mnemonic_str opcode

pub operand_text-eq :
    (cpu : VrEmu6502) (opcode addr arg8 arg8b : ℕ)
    → operand_text cpu opcode addr arg8 arg8b ≡ operand_format cpu opcode addr arg8 arg8b
unfolding operand_text
operand_text-eq cpu opcode addr arg8 arg8b =
    take_all 31 _ (omega (arith, operand_format_short cpu opcode addr arg8 arg8b))

operand_text_short :
    (cpu : VrEmu6502) (opcode addr arg8 arg8b : ℕ)
    → length (operand_text cpu opcode addr arg8 arg8b) ≤ 14
operand_text_short cpu opcode addr arg8 arg8b =
    rw (operand_text-eq cpu opcode addr arg8 arg8b)
      (operand_format_short cpu opcode addr arg8 arg8b)

line_text_short :
    (m operand : Text) → length operand ≤ 14 → length (line_text (some m) operand) ≤ length m + 15
line_text_short m [] h = omega arith
line_text_short m (c ∷ cs) h = omega (arith, length-append m (codes " " ++ c ∷ cs))

-- If the opcode has a mnemonic of at most 32 characters, nothing is cut in a buffer of 48 bytes,
-- as DisRange passes it; and the operand buffer cuts no operand.
pub dis_one_complete :
    (cpu : VrEmu6502) (addr : ℕ) (read : ℕ → ℕ) (m : Text)
    → cpu.mnemonic_str (read addr) ≡ some m
    → length m ≤ 32
    → ((dis_one (some cpu) addr read 48).text ≡ some (composed cpu addr read))
      × ((opcode arg8 arg8b : ℕ)
          → operand_text cpu opcode addr arg8 arg8b ≡ operand_format cpu opcode addr arg8 arg8b)
unfolding dis_one composed
dis_one_complete cpu addr read m e short = (
  ap some (
      take_all 47 _
        (rw e (le_trans (line_text_short m _ (operand_text_short cpu _ addr _ _)) (omega arith)))),
  λ opcode arg8 arg8b. operand_text-eq cpu opcode addr arg8 arg8b,
)

-- With an opcode table, the text of DisOne in a buffer that is not empty is cut to fit with its
-- NUL, it is the beginning of the text in any larger buffer, and the returned address does not
-- depend on the buffer.
pub dis_one_truncates :
    (cpu : VrEmu6502) (addr : ℕ) (read : ℕ → ℕ) (size more : ℕ)
    → 0 < size
    → size ≤ more
    → (short : Text) × (long : Text) × ((dis_one (some cpu) addr read size).text ≡ some short)
      × ((dis_one (some cpu) addr read more).text ≡ some long)
      × (short ≡ take (size - 1) long)
      × (length short < size)
      × ((dis_one (some cpu) addr read size).next ≡ (dis_one (some cpu) addr read more).next)
unfolding dis_one
dis_one_truncates cpu addr read size more pos le = (
  take (size - 1) text,
  take (more - 1) text,
  ground arith,
  ground arith,
  sym (take-take (size - 1) (more - 1) text (omega arith)),
  omega (arith, length-take (size - 1) text),
  refl,
)
  where
    text : Text
    text = composed cpu addr read
