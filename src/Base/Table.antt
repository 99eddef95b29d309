-- ===== src/Base/Table.antt =====
-- Arrays indexed by an address, as functions, and the number of indices that pass a test.
use Prim.Native.Nat.{ℕ, zero, suc, ◌+◌, ◌≤◌, ◌<◌}
use mathlib.Core.Path.{◌≡◌, refl}
use mathlib.Core.Logic.{◌⊎◌, ◌≢◌, inl, inr}
use mathlib.Core.Bool.{Bool, true, false, ◌&&◌}
use native.Mathlib.Omega.{arith}
use dis.Base.Tests.{◌==◌, if◌then◌else◌, Bool-cases}

-- `table[k] = v`
abbrev pub update {ℓ} : {A : Type ℓ} → (ℕ → A) → ℕ → A → ℕ → A
update f k v j = if j == k then v else f j

-- How many indices below `n` pass the test.
pub count_below : ℕ → (ℕ → Bool) → ℕ
count_below zero p = 0
count_below (suc n) p = (if p n then 1 else 0) + count_below n p

pub count_below-le : (n : ℕ) (p : ℕ → Bool) → count_below n p ≤ n
unfolding count_below
count_below-le zero p = omega arith
count_below-le (suc n) p = ground (arith, count_below-le n p)

pub count_below_cong :
    (n : ℕ) (p q : ℕ → Bool) → ((i : ℕ) → i < n → p i ≡ q i) → count_below n p ≡ count_below n q
unfolding count_below
count_below_cong zero p q h = refl
count_below_cong (suc n) p q h =
    ground (arith, h n (omega arith), count_below_cong n p q (λ i lt. h i (omega arith)))

-- A test that one index more passes counts one more.
pub count_below_more :
    (n k : ℕ) (p q : ℕ → Bool)
    → k < n
    → p k ≡ false
    → q k ≡ true
    → ((i : ℕ) → i ≢ k → p i ≡ q i)
    → count_below n q ≡ suc (count_below n p)
unfolding count_below
count_below_more zero k p q lt hp hq same = absurd (omega arith)
count_below_more (suc n) k p q lt hp hq same = elim (split n k) [
  | inl e ↦ ground (arith, e, count_below_cong n p q (λ i lt'. same i (omega arith)))
  | inr ne ↦ ground (arith, same n ne, count_below_more n k p q (omega arith) hp hq same)
]
  where
    split : (a b : ℕ) → (a ≡ b) ⊎ (a ≢ b)
    split a b = elim (Bool-cases (a == b)) [
      | inl h ↦ inl (ground arith)
      | inr h ↦ inr (λ e. ground arith)
    ]

pub count_below_none : (n : ℕ) (p : ℕ → Bool) → ((i : ℕ) → p i ≡ false) → count_below n p ≡ 0
unfolding count_below
count_below_none zero p h = refl
count_below_none (suc n) p h = ground (arith, h n, count_below_none n p h)

-- A count is not 0 exactly if some index passes.
pub count_below_some :
    (n : ℕ) (p : ℕ → Bool) → 0 < count_below n p → (i : ℕ) × (i < n) × (p i ≡ true)
unfolding count_below
count_below_some zero p h = absurd (omega arith)
count_below_some (suc n) p h = elim (Bool-cases (p n)) [
  | inl e ↦ (n, omega arith, e)
  | inr e ↦ let (i, lt, q) = count_below_some n p (ground arith) in (i, omega arith, q)
]

pub count_below_pos : (n i : ℕ) (p : ℕ → Bool) → i < n → p i ≡ true → 0 < count_below n p
unfolding count_below
count_below_pos zero i p h e = absurd (omega arith)
count_below_pos (suc n) i p h e = elim (Bool-cases (i == n)) [
  | inl same ↦ ground arith
  | inr ne ↦ ground (arith, count_below_pos n i p (ground arith) e)
]

-- Whether all indices below `n` pass, for checks of a short table by evaluation.
unfoldable pub all_below : ℕ → (ℕ → Bool) → Bool
all_below zero p = true
all_below (suc n) p = p n && all_below n p

pub all_below-lt : (n i : ℕ) (p : ℕ → Bool) → all_below n p ≡ true → i < n → p i ≡ true
unfolding all_below
all_below-lt zero i p h lt = absurd (omega arith)
all_below-lt (suc n) i p h lt = ground (arith, all_below-lt n i p)
