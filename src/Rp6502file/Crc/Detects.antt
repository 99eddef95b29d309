-- ===== src/Rp6502file/Crc/Detects.antt =====
-- What the CRC detects: a payload in which one byte has changed.
use native.Mathlib.Nat.{pow-suc, div-div-eq-div-mul}
use dis.Base.{
  ℕ, zero, suc, ◌-◌, ◌*◌, ◌/◌, ◌%◌, ◌^◌, ◌<◌, ◌≡◌, ◌≢◌, refl, ap, ap₂, sym, ◌∙◌, arith, List, [],
  ◌∷◌, ◌++◌, ◌==◌, bit_xor, inl, inr, Bool-cases,
}
use dis.Base.Bits.{bit_xor_half, bit_xor_comm, bit_xor_cancel, bit_xor-lt}
use dis.Rp6502file.Crc.{rp6502_crc32}
use dis.Rp6502file.Crc.Bitwise.{
  polynomial, crc_bit, crc_bits, bitwise_loop, AllBytes, rp6502_crc32-eq,
}

halved : (k x : ℕ) → x / 2 ^ suc k ≡ x / 2 / 2 ^ k
halved k x =
    let power : 2 ^ suc k ≡ 2 * 2 ^ k = omega (arith, pow-suc 2 k) in
    ap (λ (t : ℕ). x / t) power ∙ sym (div-div-eq-div-mul x 2 (2 ^ k))

xor_shift : (k a b : ℕ) → bit_xor a b / 2 ^ k ≡ bit_xor (a / 2 ^ k) (b / 2 ^ k)
xor_shift zero a b =
    let whole : (x : ℕ) → x / 1 ≡ x = λ x. omega arith in
    whole (bit_xor a b) ∙ sym (ap₂ bit_xor (whole a) (whole b))
xor_shift (suc k) a b =
    halved k (bit_xor a b)
    ∙ ap (λ (t : ℕ). t / 2 ^ k) (bit_xor_half a b)
    ∙ xor_shift k (a / 2) (b / 2)
    ∙ sym (ap₂ bit_xor (halved k a) (halved k b))

crc_bit-lt : (c : ℕ) → c < 2 ^ 32 → crc_bit c < 2 ^ 32
unfolding crc_bit
crc_bit-lt c h = ground (arith, bit_xor-lt 32 (c / 2) polynomial)

-- The highest bit of the result is the bit that was shifted out.
crc_bit_top : (c : ℕ) → c < 2 ^ 32 → crc_bit c / 2 ^ 31 ≡ c % 2
unfolding crc_bit
crc_bit_top c h =
    let low : c / 2 / 2 ^ 31 ≡ 0 = omega arith in
    let shifted = xor_shift 31 (c / 2) polynomial ∙ ap (λ (t : ℕ). bit_xor t 1) low in
    elim (Bool-cases (c % 2 == 1)) [
      | inl one ↦ rw one (shifted ∙ ground arith)
      | inr none ↦ rw none (ground arith)
    ]

crc_bit_injective : (c d : ℕ) → c < 2 ^ 32 → d < 2 ^ 32 → crc_bit c ≡ crc_bit d → c ≡ d
unfolding crc_bit
crc_bit_injective c d hc hd e =
    let parity : c % 2 ≡ d % 2 =
      sym (crc_bit_top c hc) ∙ ap (λ (t : ℕ). t / 2 ^ 31) e ∙ crc_bit_top d hd in
    ground (arith, bit_xor_cancel (c / 2) (d / 2) polynomial)

crc_bits-lt : (n c : ℕ) → c < 2 ^ 32 → crc_bits n c < 2 ^ 32
unfolding crc_bits
crc_bits-lt zero c h = h
crc_bits-lt (suc n) c h = crc_bits-lt n (crc_bit c) (crc_bit-lt c h)

crc_bits_injective : (n c d : ℕ) → c < 2 ^ 32 → d < 2 ^ 32 → crc_bits n c ≡ crc_bits n d → c ≡ d
unfolding crc_bits
crc_bits_injective zero c d hc hd e = e
crc_bits_injective (suc n) c d hc hd e =
    crc_bit_injective c d hc hd
      (crc_bits_injective n (crc_bit c) (crc_bit d) (crc_bit-lt c hc) (crc_bit-lt d hd) e)

byte-lt : (c b : ℕ) → c < 2 ^ 32 → b < 256 → bit_xor c b < 2 ^ 32
byte-lt c b hc hb = bit_xor-lt 32 c b hc (omega arith)

bitwise_loop-lt :
    (c : ℕ) (bytes : List ℕ) → c < 2 ^ 32 → AllBytes bytes → bitwise_loop c bytes < 2 ^ 32
unfolding bitwise_loop
bitwise_loop-lt c [] h all = h
bitwise_loop-lt c (b ∷ bytes) h all =
    bitwise_loop-lt (crc_bits 8 (bit_xor c b)) bytes
      (crc_bits-lt 8 (bit_xor c b) (byte-lt c b h all.0)) all.1

-- Registers that differ stay different, whatever bytes follow.
bitwise_loop_injective :
    (c d : ℕ) (bytes : List ℕ)
    → c < 2 ^ 32
    → d < 2 ^ 32
    → AllBytes bytes
    → bitwise_loop c bytes ≡ bitwise_loop d bytes
    → c ≡ d
unfolding bitwise_loop
bitwise_loop_injective c d [] hc hd all e = e
bitwise_loop_injective c d (b ∷ bytes) hc hd all e =
    let lc = byte-lt c b hc all.0 in
    let ld = byte-lt d b hd all.0 in
    bit_xor_cancel c d b (
      crc_bits_injective 8 (bit_xor c b) (bit_xor d b) lc ld (
        bitwise_loop_injective (crc_bits 8 (bit_xor c b)) (crc_bits 8 (bit_xor d b)) bytes
          (crc_bits-lt 8 (bit_xor c b) lc) (crc_bits-lt 8 (bit_xor d b) ld) all.1 e))

bitwise_loop-append :
    (c : ℕ) (before after : List ℕ)
    → bitwise_loop c (before ++ after) ≡ bitwise_loop (bitwise_loop c before) after
unfolding bitwise_loop
bitwise_loop-append c [] after = refl
bitwise_loop-append c (b ∷ before) after =
    bitwise_loop-append (crc_bits 8 (bit_xor c b)) before after

AllBytes-append :
    (before after : List ℕ) → AllBytes before → AllBytes after → AllBytes (before ++ after)
AllBytes-append [] after h k = k
AllBytes-append (b ∷ before) after h k = (h.0, AllBytes-append before after h.1 k)

changed_register :
    (c x y : ℕ) (after : List ℕ)
    → c < 2 ^ 32
    → x < 256
    → y < 256
    → AllBytes after
    → bitwise_loop c (x ∷ after) ≡ bitwise_loop c (y ∷ after)
    → x ≡ y
unfolding bitwise_loop
changed_register c x y after hc hx hy all e =
    let lx = byte-lt c x hc hx in
    let ly = byte-lt c y hc hy in
    let same =
      crc_bits_injective 8 _ _ lx ly
        (bitwise_loop_injective _ _ after (crc_bits-lt 8 _ lx) (crc_bits-lt 8 _ ly) all e) in
    bit_xor_cancel x y c (bit_xor_comm x c ∙ same ∙ bit_xor_comm c y)

-- If exactly one byte of a payload of bytes changes into another byte, at whatever place, its CRC
-- changes.
pub rp6502_crc32_detects :
    (before after : List ℕ) (x y : ℕ)
    → AllBytes before
    → AllBytes after
    → x < 256
    → y < 256
    → x ≢ y
    → rp6502_crc32 (before ++ x ∷ after) ≢ rp6502_crc32 (before ++ y ∷ after)
rp6502_crc32_detects before after x y hb ha hx hy differ e =
    let start = bitwise_loop 0xffffffff before in
    let start-lt = bitwise_loop-lt 0xffffffff before (omega arith) hb in
    let crc = λ (z : ℕ) (hz : z < 256).
      rp6502_crc32-eq (before ++ z ∷ after) (AllBytes-append before (z ∷ after) hb (hz, ha))
      ∙ ap (λ (t : ℕ). 0xffffffff - t) (bitwise_loop-append 0xffffffff before (z ∷ after)) in
    differ (
      changed_register start x y after start-lt hx hy ha (
        omega (
          arith,
          e,
          crc x hx,
          crc y hy,
          bitwise_loop-lt start (x ∷ after) start-lt (hx, ha),
          bitwise_loop-lt start (y ∷ after) start-lt (hy, ha),
        )))
