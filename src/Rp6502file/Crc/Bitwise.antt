-- ===== src/Rp6502file/Crc/Bitwise.antt =====
-- The table form of the CRC-32, and the reflected polynomial bit by bit.
use dis.Base.{
  ℕ, zero, suc, ◌+◌, ◌-◌, ◌*◌, ◌/◌, ◌%◌, ◌<◌, ◌≡◌, refl, ap, sym, ◌∙◌, arith, true, List, [], ◌∷◌,
  ◌==◌, if◌then◌else◌, get_or, bit_xor, inl, inr, Bool-cases, ==_iff,
}
use dis.Base.Bits.{
  bit_xor_step, bit_xor_half, bit_xor_assoc, bit_xor_comm, bit_xor-zero, bit_and_nibble,
}
use dis.Base.Table.{all_below, all_below-lt}
use dis.Rp6502file.Crc.{crc_table, crc_nibble, crc_loop, rp6502_crc32}

-- $EDB88320
abbrev pub polynomial : ℕ
polynomial = 0xedb88320

-- One bit of the division: shift it out, and subtract the polynomial if it was 1.
unfoldable pub crc_bit : ℕ → ℕ
crc_bit crc = if crc % 2 == 1 then bit_xor (crc / 2) polynomial else crc / 2

unfoldable pub crc_bits : ℕ → ℕ → ℕ
crc_bits zero crc = crc
crc_bits (suc n) crc = crc_bits n (crc_bit crc)

-- The CRC-32 as it is defined: each byte is added, and its eight bits are divided out.
unfoldable pub bitwise_loop : ℕ → List ℕ → ℕ
bitwise_loop crc [] = crc
bitwise_loop crc (b ∷ bytes) = bitwise_loop (crc_bits 8 (bit_xor crc b)) bytes

xor_double : (a b : ℕ) → bit_xor (a * 2) b ≡ bit_xor a (b / 2) * 2 + b % 2
xor_double a b =
    let half : a * 2 / 2 ≡ a = omega arith in
    omega (arith, bit_xor_step (a * 2) b, ap (λ (t : ℕ). bit_xor t (b / 2)) half)

-- A part above the lowest bit passes through a division step.
crc_bit_above : (a b : ℕ) → crc_bit (bit_xor (a * 2) b) ≡ bit_xor a (crc_bit b)
unfolding crc_bit
crc_bit_above a b =
    let odd : bit_xor (a * 2) b % 2 ≡ b % 2 = omega (arith, xor_double a b) in
    let half : bit_xor (a * 2) b / 2 ≡ bit_xor a (b / 2) = omega (arith, xor_double a b) in
    elim (Bool-cases (b % 2 == 1)) [
      | inl one ↦ rw (odd, one, half) (bit_xor_assoc a (b / 2) polynomial)
      | inr none ↦ rw (odd, none, half)
    ]

sixteen : (q : ℕ) → q * 16 ≡ q * 2 * 2 * 2 * 2
sixteen q = omega arith

nibble_above : (q r : ℕ) → crc_bits 4 (bit_xor (q * 16) r) ≡ bit_xor q (crc_bits 4 r)
unfolding crc_bits
nibble_above q r =
    let a = crc_bit_above (q * 2 * 2 * 2) r in
    let b = crc_bit_above (q * 2 * 2) (crc_bit r) in
    let c = crc_bit_above (q * 2) (crc_bit (crc_bit r)) in
    let d = crc_bit_above q (crc_bit (crc_bit (crc_bit r))) in rw (sixteen q, a, b, c, d)

nibble_join : (q r : ℕ) → r < 16 → bit_xor (q * 16) r ≡ q * 16 + r
nibble_join q r h =
    let top : r / 2 / 2 / 2 / 2 ≡ 0 = omega arith in
    rw (sixteen q) (
      omega (
        arith,
        xor_double (q * 2 * 2 * 2) r,
        xor_double (q * 2 * 2) (r / 2),
        xor_double (q * 2) (r / 2 / 2),
        xor_double q (r / 2 / 2 / 2),
        ap (λ (t : ℕ). bit_xor q t) top,
        bit_xor-zero q,
      ))

-- Each entry of the table is its index after four division steps.
table_checked : all_below 16 (λ r. crc_bits 4 r == get_or crc_table r 0) ≡ true
unfolding all_below crc_bits crc_bit
table_checked = refl

table_entry : (r : ℕ) → r < 16 → crc_bits 4 r ≡ get_or crc_table r 0
table_entry r h = (==_iff _ _).0 (all_below-lt 16 r _ table_checked h)

four_bits : (y : ℕ) → crc_bits 4 y ≡ bit_xor (y / 16) (get_or crc_table (y % 16) 0)
four_bits y =
    let join = nibble_join (y / 16) (y % 16) (omega arith) in
    let split : bit_xor (y / 16 * 16) (y % 16) ≡ y = omega (arith, join) in
    ap (crc_bits 4) (sym split)
    ∙ nibble_above (y / 16) (y % 16)
    ∙ ap (bit_xor (y / 16)) (table_entry (y % 16) (omega arith))

-- One step of the table form, with the nibble added first.
crc_nibble-eq :
    (crc n : ℕ) → crc_nibble crc n ≡ bit_xor (crc / 16) (get_or crc_table (bit_xor crc n % 16) 0)
unfolding crc_nibble
crc_nibble-eq crc n = rw (bit_and_nibble (bit_xor crc n))

xor_sixteenth : (a b : ℕ) → bit_xor a b / 16 ≡ bit_xor (a / 16) (b / 16)
xor_sixteenth a b =
    let h = λ (x y : ℕ). bit_xor_half x y in
    let quarter : (x : ℕ) → x / 16 ≡ x / 2 / 2 / 2 / 2 = λ x. omega arith in
    rw (
      quarter (bit_xor a b),
      quarter a,
      quarter b,
      h a b,
      h (a / 2) (b / 2),
      h (a / 2 / 2) (b / 2 / 2),
      h (a / 2 / 2 / 2) (b / 2 / 2 / 2),
    )

xor_swap : (a b c : ℕ) → bit_xor (bit_xor a b) c ≡ bit_xor (bit_xor a c) b
xor_swap a b c = bit_xor_assoc a b c ∙ ap (bit_xor a) (bit_xor_comm b c) ∙ sym (bit_xor_assoc a c b)

-- Two steps of the table form are the eight division steps of a byte.
pub crc_byte :
    (crc b : ℕ) → b < 256 → crc_nibble (crc_nibble crc b) (b / 16) ≡ crc_bits 8 (bit_xor crc b)
crc_byte crc b h =
    let high = b / 16 in
    let n = crc_nibble crc b in
    let first : crc_bits 4 (bit_xor crc b) ≡ bit_xor n high =
      four_bits (bit_xor crc b)
      ∙ ap (λ (t : ℕ). bit_xor t (get_or crc_table (bit_xor crc b % 16) 0)) (xor_sixteenth crc b)
      ∙ xor_swap (crc / 16) high (get_or crc_table (bit_xor crc b % 16) 0)
      ∙ ap (λ (t : ℕ). bit_xor t high) (sym (crc_nibble-eq crc b)) in
    let gone : high / 16 ≡ 0 = omega arith in
    let above : bit_xor n high / 16 ≡ n / 16 =
      xor_sixteenth n high ∙ ap (bit_xor (n / 16)) gone ∙ bit_xor-zero (n / 16) in
    let second : crc_bits 4 (bit_xor n high) ≡ crc_nibble n high =
      four_bits (bit_xor n high)
      ∙ ap (λ (t : ℕ). bit_xor t (get_or crc_table (bit_xor n high % 16) 0)) above
      ∙ sym (crc_nibble-eq n high) in
    sym second ∙ ap (crc_bits 4) (sym first) ∙ eight (bit_xor crc b)
  where
    eight : (y : ℕ) → crc_bits 4 (crc_bits 4 y) ≡ crc_bits 8 y
    eight y = unfold crc_bits in refl

abbrev pub AllBytes : List ℕ → Type 0
AllBytes [] = Unit
AllBytes (b ∷ bytes) = (b < 256) × AllBytes bytes

pub crc_loop-eq :
    (crc : ℕ) (bytes : List ℕ) → AllBytes bytes → crc_loop crc bytes ≡ bitwise_loop crc bytes
unfolding crc_loop bitwise_loop
crc_loop-eq crc [] h = refl
crc_loop-eq crc (b ∷ bytes) h =
    rw (crc_byte crc b h.0) (crc_loop-eq (crc_bits 8 (bit_xor crc b)) bytes h.1)

-- On every list of bytes Rp6502Crc32 is the standard CRC-32: the division by the reflected
-- polynomial $EDB88320, bit by bit, from a register of ones and with the result complemented.
pub rp6502_crc32-eq :
    (bytes : List ℕ)
    → AllBytes bytes
    → rp6502_crc32 bytes ≡ 0xffffffff - bitwise_loop 0xffffffff bytes
unfolding rp6502_crc32
rp6502_crc32-eq bytes h = ap (λ (t : ℕ). 0xffffffff - t) (crc_loop-eq 0xffffffff bytes h)
