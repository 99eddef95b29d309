-- ===== src/Base/Bits.antt =====
-- `|`, `&` and `^` at variables, from the recursion on binary digits that the native operations
-- stand for: one equation for the lowest digit, and what follows by induction.
use Prim.Native.Nat.{
  ℕ, zero, suc, ◌+◌, ◌-◌, ◌*◌, ◌/◌, ◌%◌, ◌^◌, ◌≤◌, ◌<◌, min, max, bit_and, bit_or, bit_xor, digits,
  bit_and-bitwise, bit_or-bitwise, bit_xor-bitwise, bitwise, differ,
}
use mathlib.Core.Path.{◌≡◌, refl, ap, sym, ◌∙◌}
use native.Mathlib.Nat.{
  pow-suc, one-le-pow, div-add-mod, mod-lt, mod-eq_of_lt, mul-add-mod_self_left,
}
use native.Mathlib.Omega.{arith}

module _ (rest : ℕ → ℕ) (op : ℕ → ℕ → ℕ) where
  -- A count of digits that reaches the first number is enough: one more changes nothing.
  one_more : (k x y : ℕ) → x ≤ k → digits rest op (suc k) x y ≡ digits rest op k x y
  one_more k zero y fits = zero_runs_out k
    where
      zero_runs_out : (j : ℕ) → digits rest op (suc j) zero y ≡ digits rest op j zero y
      zero_runs_out zero = refl
      zero_runs_out (suc j) = refl
  one_more zero (suc x) y fits = absurd (omega arith)
  one_more (suc k) (suc x) y fits = rw (one_more k (suc x / 2) (y / 2) (omega arith))

  spare : (gap k n x y : ℕ) → n ≡ gap + k → x ≤ k → digits rest op n x y ≡ digits rest op k x y
  spare zero k n x y total fits = let same : n ≡ k = omega arith in rw same
  spare (suc gap) k n x y total fits =
      let above : n ≡ suc (gap + k) = omega arith in
      rw above (one_more (gap + k) x y (omega arith) ∙ spare gap k (gap + k) x y refl fits)

  lowest_digit :
      (x y : ℕ)
      → bitwise rest op (suc x) y ≡ bitwise rest op (suc x / 2) (y / 2) * 2 + op (suc x % 2) (y % 2)
  lowest_digit x y =
      let half = suc x / 2 in
      ap (λ (t : ℕ). t * 2 + op (suc x % 2) (y % 2))
        (spare (x - half) half x half (y / 2) (omega arith) (omega arith))

bit_or_step : (a b : ℕ) → bit_or a b ≡ bit_or (a / 2) (b / 2) * 2 + max (a % 2) (b % 2)
bit_or_step zero b = omega (arith, bit_or-bitwise 0 b, bit_or-bitwise 0 (b / 2))
bit_or_step (suc a) b = omega (
  arith,
  bit_or-bitwise (suc a) b,
  bit_or-bitwise (suc a / 2) (b / 2),
  lowest_digit (λ y. y) max a b,
)

digit_differ : (x y : ℕ) → x < 2 → y < 2 → differ x y ≡ (x + y) % 2
digit_differ zero y hx hy = omega arith
digit_differ (suc zero) zero hx hy = omega arith
digit_differ (suc zero) (suc zero) hx hy = omega arith
digit_differ (suc zero) (suc (suc y)) hx hy = absurd (omega arith)
digit_differ (suc (suc x)) y hx hy = absurd (omega arith)

-- The lowest bit of the result is the sum of the two lowest bits, without the carry.
pub bit_xor_step : (a b : ℕ) → bit_xor a b ≡ bit_xor (a / 2) (b / 2) * 2 + (a + b) % 2
bit_xor_step zero b = omega (arith, bit_xor-bitwise 0 b, bit_xor-bitwise 0 (b / 2))
bit_xor_step (suc a) b = omega (
  arith,
  bit_xor-bitwise (suc a) b,
  bit_xor-bitwise (suc a / 2) (b / 2),
  lowest_digit (λ y. y) differ a b,
  digit_differ (suc a % 2) (b % 2) (omega arith) (omega arith),
)

bit_and_step : (a b : ℕ) → bit_and a b ≡ bit_and (a / 2) (b / 2) * 2 + min (a % 2) (b % 2)
bit_and_step zero b = omega (arith, bit_and-bitwise 0 b, bit_and-bitwise 0 (b / 2))
bit_and_step (suc a) b = omega (
  arith,
  bit_and-bitwise (suc a) b,
  bit_and-bitwise (suc a / 2) (b / 2),
  lowest_digit (λ y. 0) min a b,
)

bit_and-zero_fuel : (n a : ℕ) → a ≤ n → bit_and a 0 ≡ 0
bit_and-zero_fuel n zero fits = bit_and-bitwise 0 0
bit_and-zero_fuel zero (suc a) fits = absurd (omega arith)
bit_and-zero_fuel (suc n) (suc a) fits =
    omega (arith, bit_and_step (suc a) 0, bit_and-zero_fuel n (suc a / 2) (omega arith))

-- A mask of the `k` lowest bits takes the remainder.
mod_by_pow : (k a : ℕ) → a % 2 ^ suc k ≡ a / 2 % 2 ^ k * 2 + a % 2
mod_by_pow k a =
    let q = a / 2 / 2 ^ k in
    let r = a / 2 % 2 ^ k in
    let split : 2 ^ k * q + r ≡ a / 2 = div-add-mod (a / 2) (2 ^ k) in
    let below : r < 2 ^ k = mod-lt (a / 2) (one-le-pow k 2 (omega arith)) in
    let doubled : 2 ^ suc k * q ≡ 2 * (2 ^ k * q) =
      omega (arith, ap (λ (t : ℕ). t * q) (pow-suc 2 k)) in
    let whole : a ≡ 2 ^ suc k * q + (r * 2 + a % 2) = omega arith in
    ap (λ (t : ℕ). t % 2 ^ suc k) whole
    ∙ mul-add-mod_self_left (2 ^ suc k) q (r * 2 + a % 2)
    ∙ mod-eq_of_lt (omega (arith, pow-suc 2 k))

bit_and_ones : (k a : ℕ) → bit_and a (2 ^ k - 1) ≡ a % 2 ^ k
bit_and_ones zero a = bit_and-zero_fuel a a (omega arith) ∙ omega arith
bit_and_ones (suc k) a =
    let ones : (2 ^ suc k - 1) / 2 ≡ 2 ^ k - 1 = omega (arith, pow-suc 2 k, one-le-pow k 2) in
    let low : (2 ^ suc k - 1) % 2 ≡ 1 = omega (arith, pow-suc 2 k, one-le-pow k 2) in
    omega (
      arith,
      bit_and_step a (2 ^ suc k - 1),
      ap (λ (t : ℕ). bit_and (a / 2) t) ones,
      bit_and_ones k (a / 2),
      low,
      mod_by_pow k a,
    )

pub bit_and_byte : (a : ℕ) → bit_and a 255 ≡ a % 256
bit_and_byte a = bit_and_ones 8 a

pub bit_and_nibble : (a : ℕ) → bit_and a 15 ≡ a % 16
bit_and_nibble a = bit_and_ones 4 a

bit_or_fuel : (n a b : ℕ) → a ≤ n → b ≤ n → bit_or a b ≡ bit_or b a
bit_or_fuel zero zero zero p q = refl
bit_or_fuel zero (suc a) b p q = absurd (omega arith)
bit_or_fuel zero zero (suc b) p q = absurd (omega arith)
bit_or_fuel (suc n) a b p q = omega (
  arith,
  bit_or_step a b,
  bit_or_step b a,
  bit_or_fuel n (a / 2) (b / 2) (omega arith) (omega arith),
)

pub bit_or_comm : (a b : ℕ) → bit_or a b ≡ bit_or b a
bit_or_comm a b = bit_or_fuel (a + b) a b (omega arith) (omega arith)

-- A high part and a low part of `k` bits do not meet, so `|` adds them.
bit_or_disjoint : (k high low : ℕ) → low < 2 ^ k → bit_or low (high * 2 ^ k) ≡ high * 2 ^ k + low
bit_or_disjoint zero high zero fits = bit_or-bitwise 0 (high * 1) ∙ (omega arith)
bit_or_disjoint zero high (suc low) fits = absurd (omega arith)
bit_or_disjoint (suc k) high low fits =
    let whole : high * 2 ^ suc k ≡ high * 2 ^ k * 2 =
      omega (arith, ap (λ (t : ℕ). high * t) (pow-suc 2 k)) in
    let halved : high * 2 ^ suc k / 2 ≡ high * 2 ^ k = omega arith in
    let ih = bit_or_disjoint k high (low / 2) (omega (arith, pow-suc 2 k)) in
    omega (arith, bit_or_step low (high * 2 ^ suc k), ap (λ (t : ℕ). bit_or (low / 2) t) halved, ih)

pub bit_or_bytes : (low high : ℕ) → low < 256 → bit_or low (high * 256) ≡ high * 256 + low
bit_or_bytes low high fits = bit_or_disjoint 8 high low fits

xor_comm_fuel : (n a b : ℕ) → a ≤ n → b ≤ n → bit_xor a b ≡ bit_xor b a
xor_comm_fuel zero zero zero p q = refl
xor_comm_fuel zero (suc a) b p q = absurd (omega arith)
xor_comm_fuel zero zero (suc b) p q = absurd (omega arith)
xor_comm_fuel (suc n) a b p q = omega (
  arith,
  bit_xor_step a b,
  bit_xor_step b a,
  xor_comm_fuel n (a / 2) (b / 2) (omega arith) (omega arith),
)

pub bit_xor_comm : (a b : ℕ) → bit_xor a b ≡ bit_xor b a
bit_xor_comm a b = xor_comm_fuel (a + b) a b (omega arith) (omega arith)

pub zero-bit_xor : (b : ℕ) → bit_xor 0 b ≡ b
zero-bit_xor b = bit_xor-bitwise 0 b

pub bit_xor-zero : (a : ℕ) → bit_xor a 0 ≡ a
bit_xor-zero a = bit_xor_comm a 0 ∙ zero-bit_xor a

pub bit_xor_half : (a b : ℕ) → bit_xor a b / 2 ≡ bit_xor (a / 2) (b / 2)
bit_xor_half a b = omega (arith, bit_xor_step a b)

pub bit_xor_parity : (a b : ℕ) → bit_xor a b % 2 ≡ (a + b) % 2
bit_xor_parity a b = omega (arith, bit_xor_step a b)

xor_assoc_fuel :
    (n a b c : ℕ) → a ≤ n → b ≤ n → c ≤ n → bit_xor (bit_xor a b) c ≡ bit_xor a (bit_xor b c)
xor_assoc_fuel zero zero b c p q r = rw (zero-bit_xor b, zero-bit_xor (bit_xor b c))
xor_assoc_fuel zero (suc a) b c p q r = absurd (omega arith)
xor_assoc_fuel (suc n) a b c p q r =
    let ih = xor_assoc_fuel n (a / 2) (b / 2) (c / 2) (omega arith) (omega arith) (omega arith) in
    let left =
      bit_xor_step (bit_xor a b) c
      ∙ ap (λ (t : ℕ). bit_xor t (c / 2) * 2 + (bit_xor a b + c) % 2) (bit_xor_half a b) in
    let right =
      bit_xor_step a (bit_xor b c)
      ∙ ap (λ (t : ℕ). bit_xor (a / 2) t * 2 + (a + bit_xor b c) % 2) (bit_xor_half b c) in
    omega (arith, left, right, ih, bit_xor_parity a b, bit_xor_parity b c)

pub bit_xor_assoc : (a b c : ℕ) → bit_xor (bit_xor a b) c ≡ bit_xor a (bit_xor b c)
bit_xor_assoc a b c = xor_assoc_fuel (a + b + c) a b c (omega arith) (omega arith) (omega arith)

xor_self_fuel : (n a : ℕ) → a ≤ n → bit_xor a a ≡ 0
xor_self_fuel zero zero p = refl
xor_self_fuel zero (suc a) p = absurd (omega arith)
xor_self_fuel (suc n) a p = omega (arith, bit_xor_step a a, xor_self_fuel n (a / 2) (omega arith))

pub bit_xor_self : (a : ℕ) → bit_xor a a ≡ 0
bit_xor_self a = xor_self_fuel a a (omega arith)

-- Exclusive or with the same number can be cancelled.
pub bit_xor_cancel : (a b c : ℕ) → bit_xor a c ≡ bit_xor b c → a ≡ b
bit_xor_cancel a b c h = sym (undo a) ∙ ap (λ (t : ℕ). bit_xor t c) h ∙ undo b
  where
    undo : (x : ℕ) → bit_xor (bit_xor x c) c ≡ x
    undo x = rw (bit_xor_assoc x c c, bit_xor_self c) (bit_xor-zero x)

pub bit_xor-lt : (k a b : ℕ) → a < 2 ^ k → b < 2 ^ k → bit_xor a b < 2 ^ k
bit_xor-lt zero a b p q = ground (arith, zero-bit_xor b)
bit_xor-lt (suc k) a b p q = omega (
  arith,
  pow-suc 2 k,
  bit_xor_step a b,
  bit_xor-lt k (a / 2) (b / 2) (omega (arith, pow-suc 2 k)) (omega (arith, pow-suc 2 k)),
)
