-- ===== src/Analyze/Spec.antt =====
-- What the traversal should find: the addresses that control flow reaches from the entries.
use dis.Base.{ℕ, ◌+◌, ◌≡◌, Bool, true, false, not, ◌&&◌, ◌||◌, List, [], ◌∷◌, some, leb, ◌==◌, u16}
use dis.Cpu.{VrEmu6502}
use dis.Disassemble.{DisFlow, call, jump, branch}
use dis.Disassemble.Flow.{has_target}
use dis.Analyze.{len_at, kind_at, target_at, ends_trace}

abbrev pub is_call : DisFlow → Bool
is_call call = true
is_call _ = false

abbrev pub is_local : DisFlow → Bool
is_local jump = true
is_local branch = true
is_local _ = false

abbrev pub mem : ℕ → List ℕ → Bool
mem x [] = false
mem x (y ∷ ys) = y == x || mem x ys

abbrev pub within : ℕ → ℕ → ℕ → Bool
within lo hi x = leb lo x && leb x hi

module _ (cpu : VrEmu6502) (read : ℕ → ℕ) where
  -- The instruction at `pc` names `x` as the target of a call, of a jump or a branch, of any.
  abbrev pub calls : ℕ → ℕ → Bool
  calls pc x = is_call (kind_at (some cpu) read pc) && target_at (some cpu) read pc == x

  abbrev pub jumps : ℕ → ℕ → Bool
  jumps pc x = is_local (kind_at (some cpu) read pc) && target_at (some cpu) read pc == x

  abbrev pub targets : ℕ → ℕ → Bool
  targets pc x = has_target (kind_at (some cpu) read pc) && target_at (some cpu) read pc == x

  -- The address behind the instruction at `pc`, and whether execution goes on there: not after a
  -- jump or a return, and not beyond the top of memory.
  abbrev pub behind : ℕ → ℕ
  behind pc = u16 (pc + len_at (some cpu) read pc)

  abbrev pub falls : ℕ → Bool
  falls pc = not (ends_trace (kind_at (some cpu) read pc)) && leb pc (behind pc)

module _ (cpu : VrEmu6502) (read : ℕ → ℕ) (lo hi : ℕ) where
  -- The target of the instruction at `pc` lies outside [lo,hi].
  abbrev pub strays : ℕ → Bool
  strays pc =
      has_target (kind_at (some cpu) read pc) && not (within lo hi (target_at (some cpu) read pc))

  -- The addresses in [lo,hi] that control flow reaches from the entries.
  pub data Reached (entries : List ℕ) : ℕ → Type 0 where
    entry : (x : ℕ) → mem x entries ≡ true → within lo hi x ≡ true → Reached entries x
    target :
        (pc x : ℕ)
        → Reached entries pc
        → targets cpu read pc x ≡ true
        → within lo hi x ≡ true
        → Reached entries x
    fall :
        (pc x : ℕ)
        → Reached entries pc
        → falls cpu read pc ≡ true
        → behind cpu read pc ≡ x
        → within lo hi x ≡ true
        → Reached entries x

  pub Reached-within : {entries : List ℕ} {x : ℕ} → Reached entries x → within lo hi x ≡ true
  Reached-within (entry x m i) = i
  Reached-within (target pc x r t i) = i
  Reached-within (fall pc x r f e i) = i
