-- ===== src/Analyze/Visit.antt =====
-- One instruction of a trace: `visit` keeps the invariant.
use dis.Base.{
  ℕ, suc, ◌+◌, ◌<◌, ◌≡◌, ◌⊎◌, refl, arith, Bool, true, false, not, ◌&&◌, ◌||◌, List, ◌∷◌, some, ltb,
  ◌==◌, ==_iff, if◌then◌else◌, u32, inl, inr, Bool-cases,
}
use dis.Base.Table.{count_below_cong, count_below_more, count_below-le}
use dis.Cpu.{VrEmu6502}
use dis.Analyze.{DisAnalysis, Realloc, visit, set_instruction, kind_at, target_at}
use dis.Analyze.Spec.{
  mem, within, calls, jumps, targets, behind, falls, strays, Reached, target, fall,
}
use dis.Analyze.Push.{follow-Followed}
use dis.Analyze.Inv.{Inv, marked}

-- Marking one instruction more.
marked-mark :
    (a a' : DisAnalysis) (pc : ℕ) (test : ℕ → Bool)
    → pc < 0x10000
    → (a.flags pc).instruction ≡ false
    → ((x : ℕ) → (a'.flags x).instruction ≡ ((a.flags x).instruction || x == pc))
    → marked a' test ≡ (if test pc then suc (marked a test) else marked a test)
marked-mark a a' pc test top old new = elim (Bool-cases (test pc)) [
  | inl counts ↦ rw counts (
      count_below_more 0x10000 pc _ _ top (rw old refl) (ground (arith, new pc))
        (λ i ne. ground (arith, new i)))
  | inr skips ↦ rw skips (count_below_cong 0x10000 _ _ (λ i lt. ground (arith, new i)))
]

module _ (cpu : VrEmu6502) (read : ℕ → ℕ) (lo hi : ℕ) (realloc : Realloc)
    (grows : (n : ℕ) → realloc n ≡ true) where
  -- What a visit of `pc` makes of the entries of `x`.
  record Visited (a a' : DisAnalysis) (pc x : ℕ) : Type 0 where
    lo_eq : a'.lo ≡ lo
    hi_eq : a'.hi ≡ hi
    instruction : (a'.flags x).instruction ≡ ((a.flags x).instruction || x == pc)
    function :
        (a'.flags x).function ≡ ((a.flags x).function || calls cpu read pc x && within lo hi x)
    label : (a'.flags x).label ≡ ((a.flags x).label || jumps cpu read pc x && within lo hi x)
    queued : (a'.flags x).queued ≡ ((a.flags x).queued || targets cpu read pc x && within lo hi x)
    callers : a'.callers x ≡ (
        if calls cpu read pc x && within lo hi x && ltb (a.callers x) 0xffff
        then a.callers x + 1
        else a.callers x)
    work :
        mem x a'.work
        ≡ (mem x a.work || targets cpu read pc x && within lo hi x && not (a.flags x).queued)
    out_of_range :
        a'.out_of_range
        ≡ (if strays cpu read lo hi pc then u32 (a.out_of_range + 1) else a.out_of_range)

  visit-Visited :
      (a : DisAnalysis) (pc x : ℕ)
      → a.lo ≡ lo
      → a.hi ≡ hi
      → Visited a (visit (some cpu) read realloc a pc) pc x
  unfolding visit
  visit-Visited a pc x l h = ground (
    arith,
    follow-Followed realloc grows (kind_at (some cpu) read pc) (set_instruction a pc)
        (target_at (some cpu) read pc) x,
  )

  -- What a trace has to do after `pc`: the address behind it, where execution goes on.
  abbrev pub onward : ℕ → List ℕ → List ℕ
  onward pc work = if falls cpu read pc then behind cpu read pc ∷ work else work

  module _ (entries : List ℕ) (a : DisAnalysis) (pc : ℕ) (top : hi < 0x10000)
      (fresh : (a.flags pc).instruction ≡ false) (inside : within lo hi pc ≡ true)
      (h : Inv cpu read lo hi entries (pc ∷ a.work) a) where
    abbrev a' : DisAnalysis
    a' = visit (some cpu) read realloc a pc

    abbrev v : (x : ℕ) → Visited a a' pc x
    v x = visit-Visited a pc x h.lo_eq h.hi_eq

    pc-Reached : Reached cpu read lo hi entries pc
    pc-Reached = h.todo_reached pc (ground arith) inside

    counts :
        (test : ℕ → Bool)
        → marked a' test ≡ (if test pc then suc (marked a test) else marked a test)
    counts test = marked-mark a a' pc test (ground arith) fresh (λ x. (v x).instruction)

    todo_cases :
        (x : ℕ)
        → mem x (onward pc a'.work) ≡ true
        → (falls cpu read pc ≡ true) × (behind cpu read pc ≡ x)
          ⊎ (mem x (pc ∷ a.work) ≡ true)
          ⊎ (targets cpu read pc x ≡ true)
    todo_cases x m = ground (arith, v x)

    visit_todo-Reached :
        (x : ℕ)
        → mem x (onward pc a'.work) ≡ true
        → within lo hi x ≡ true
        → Reached cpu read lo hi entries x
    visit_todo-Reached x m i = elim (todo_cases x m) [
      | inl (f, e) ↦ fall pc x pc-Reached f e i
      | inr (inl old) ↦ h.todo_reached x old i
      | inr (inr t) ↦ target pc x pc-Reached t i
    ]

    visit_code-Reached :
        (x : ℕ) → (a'.flags x).instruction ≡ true → Reached cpu read lo hi entries x
    visit_code-Reached x m = elim (Bool-cases (x == pc)) [
      | inl e ↦ rw ((==_iff x pc).0 e) pc-Reached
      | inr ne ↦ h.code_reached x (ground (arith, v x))
    ]

    pub visit-Inv : Inv cpu read lo hi entries (onward pc a'.work) a'
    visit-Inv = record {
      lo_eq = (v 0).lo_eq;
      hi_eq = (v 0).hi_eq;
      todo_reached = visit_todo-Reached;
      code_reached = visit_code-Reached;
      queued_todo = λ x q. ground (arith, v x, h.queued_todo x);
      queued_in = λ x q. ground (arith, v x, h.queued_in x);
      entry_queued = λ x m i. ground (arith, v x, h.entry_queued x m i);
      target_queued = λ c x m t i. ground (arith, v x, v c, h.target_queued c x);
      fall_todo = λ c x m f e i. ground (arith, v x, v c, h.fall_todo c x);
      function_eq = λ x. ground (arith, v x, h.function_eq x, counts (λ c. calls cpu read c x));
      label_eq = λ x. ground (arith, v x, h.label_eq x, counts (λ c. jumps cpu read c x));
      callers_eq = λ x. ground (arith, v x, h.callers_eq x, counts (λ c. calls cpu read c x));
      stray_eq = ground (
        arith,
        v 0,
        h.stray_eq,
        counts (strays cpu read lo hi),
        count_below-le 0x10000 (λ c. (a.flags c).instruction && strays cpu read lo hi c),
      );
    }
