-- ===== src/Analyze/Inv.antt =====
-- The invariant of the traversal. `todo` holds the addresses that are still to be visited: the
-- worklist, and in a trace the address that it stands at.
use Prim.Native.Nat.{min}
use dis.Base.{ℕ, ◌≡◌, ◌⊎◌, arith, Bool, true, false, ◌&&◌, ◌||◌, List, ◌∷◌, ltb, if◌then◌else◌}
use dis.Base.Table.{count_below}
use dis.Cpu.{VrEmu6502}
use dis.Analyze.{DisAnalysis}
use dis.Analyze.Spec.{mem, within, calls, jumps, targets, behind, falls, strays, Reached}

-- How many of the addresses that are marked as instructions pass the test.
abbrev pub marked : DisAnalysis → (ℕ → Bool) → ℕ
marked a test = count_below 0x10000 (λ pc. (a.flags pc).instruction && test pc)

module _ (cpu : VrEmu6502) (read : ℕ → ℕ) (lo hi : ℕ) (entries : List ℕ) where
  abbrev In : ℕ → Bool
  In x = within lo hi x

  pub record Inv (todo : List ℕ) (a : DisAnalysis) : Type 0 where
    pub lo_eq : a.lo ≡ lo
    pub hi_eq : a.hi ≡ hi
    pub todo_reached : (x : ℕ) → mem x todo ≡ true → In x ≡ true → Reached cpu read lo hi entries x
    pub code_reached : (x : ℕ) → (a.flags x).instruction ≡ true → Reached cpu read lo hi entries x
    pub queued_todo :
        (x : ℕ) → (a.flags x).queued ≡ true → ((a.flags x).instruction ≡ true) ⊎ (mem x todo ≡ true)
    pub queued_in : (x : ℕ) → (a.flags x).queued ≡ true → In x ≡ true
    pub entry_queued : (x : ℕ) → mem x entries ≡ true → In x ≡ true → (a.flags x).queued ≡ true
    pub target_queued :
        (pc x : ℕ)
        → (a.flags pc).instruction ≡ true
        → targets cpu read pc x ≡ true
        → In x ≡ true
        → (a.flags x).queued ≡ true
    pub fall_todo :
        (pc x : ℕ)
        → (a.flags pc).instruction ≡ true
        → falls cpu read pc ≡ true
        → behind cpu read pc ≡ x
        → In x ≡ true
        → ((a.flags x).instruction ≡ true) ⊎ (mem x todo ≡ true)
    pub function_eq :
        (x : ℕ)
        → (a.flags x).function
          ≡ (In x && (mem x entries || ltb 0 (marked a (λ pc. calls cpu read pc x))))
    pub label_eq :
        (x : ℕ) → (a.flags x).label ≡ (In x && ltb 0 (marked a (λ pc. jumps cpu read pc x)))
    pub callers_eq :
        (x : ℕ)
        → a.callers x ≡ (if In x then min 0xffff (marked a (λ pc. calls cpu read pc x)) else 0)
    pub stray_eq : a.out_of_range ≡ marked a (strays cpu read lo hi)

  -- An address that is marked already, or that lies outside the range, needs no visit.
  pub Inv-drop :
      (pc : ℕ) (todo : List ℕ) (a : DisAnalysis)
      → (In pc ≡ false) ⊎ ((a.flags pc).instruction ≡ true)
      → Inv (pc ∷ todo) a
      → Inv todo a
  Inv-drop pc todo a why h = record {
    lo_eq = h.lo_eq;
    hi_eq = h.hi_eq;
    todo_reached = λ x m i. h.todo_reached x (ground arith) i;
    code_reached = h.code_reached;
    queued_todo = λ x q. ground (arith, h.queued_todo x q, h.queued_in x q);
    queued_in = h.queued_in;
    entry_queued = h.entry_queued;
    target_queued = h.target_queued;
    fall_todo = λ c x m f e i. ground (arith, h.fall_todo c x m f e i);
    function_eq = h.function_eq;
    label_eq = h.label_eq;
    callers_eq = h.callers_eq;
    stray_eq = h.stray_eq;
  }

  -- The invariant speaks of the worklist only through `todo`.
  pub Inv-popped :
      (todo work : List ℕ) (a : DisAnalysis) → Inv todo a → Inv todo (record a { work = work })
  Inv-popped todo work a h = record {
    lo_eq = h.lo_eq;
    hi_eq = h.hi_eq;
    todo_reached = h.todo_reached;
    code_reached = h.code_reached;
    queued_todo = h.queued_todo;
    queued_in = h.queued_in;
    entry_queued = h.entry_queued;
    target_queued = h.target_queued;
    fall_todo = h.fall_todo;
    function_eq = h.function_eq;
    label_eq = h.label_eq;
    callers_eq = h.callers_eq;
    stray_eq = h.stray_eq;
  }
