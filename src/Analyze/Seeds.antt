-- ===== src/Analyze/Seeds.antt =====
-- `AnalyzeNew` and the `AnalyzeAddEntry` calls before the traversal.
use dis.Base.{ℕ, ◌≡◌, arith, Bool, true, false, ◌&&◌, List, [], ◌∷◌, some}
use dis.Base.Table.{count_below_none}
use dis.Cpu.{VrEmu6502}
use dis.Analyze.{DisAnalysis, Realloc, analyze_new, analyze_add_entry, set_function}
use dis.Analyze.Spec.{mem, within, calls, jumps, strays, entry}
use dis.Analyze.Push.{push-Pushed}
use dis.Analyze.Inv.{Inv}

-- `AnalyzeAddEntry` for each address of the list, the last one first.
unfoldable pub add_entries : Realloc → DisAnalysis → List ℕ → DisAnalysis
add_entries realloc a [] = a
add_entries realloc a (e ∷ es) = analyze_add_entry realloc (add_entries realloc a es) e

module _ (lo hi : ℕ) (realloc : Realloc) (grows : (n : ℕ) → realloc n ≡ true) where
  -- What is recorded of `x` after the entries were added and before the run.
  pub record Seeded (entries : List ℕ) (a : DisAnalysis) (x : ℕ) : Type 0 where
    pub lo_eq : a.lo ≡ lo
    pub hi_eq : a.hi ≡ hi
    pub instruction : (a.flags x).instruction ≡ false
    pub function : (a.flags x).function ≡ (mem x entries && within lo hi x)
    pub label : (a.flags x).label ≡ false
    pub queued : (a.flags x).queued ≡ (mem x entries && within lo hi x)
    pub callers : a.callers x ≡ 0
    pub work : mem x a.work ≡ (mem x entries && within lo hi x)
    pub out_of_range : a.out_of_range ≡ 0

  add_entry-Seeded :
      (entries : List ℕ) (e : ℕ) (a : DisAnalysis) (x : ℕ)
      → Seeded entries a x
      → Seeded entries a e
      → Seeded (e ∷ entries) (analyze_add_entry realloc a e) x
  unfolding analyze_add_entry
  add_entry-Seeded entries e a x h he =
      ground (arith, push-Pushed realloc grows (set_function a e) e x)

  new-Seeded : (a : DisAnalysis) (x : ℕ) → analyze_new true lo hi ≡ some a → Seeded [] a x
  unfolding analyze_new
  new-Seeded a x h = ground arith

  pub add_entries-Seeded :
      (entries : List ℕ) (a : DisAnalysis)
      → analyze_new true lo hi ≡ some a
      → (x : ℕ) → Seeded entries (add_entries realloc a entries) x
  unfolding add_entries
  add_entries-Seeded [] a h x = new-Seeded a x h
  add_entries-Seeded (e ∷ es) a h x =
      add_entry-Seeded es e (add_entries realloc a es) x (add_entries-Seeded es a h x)
        (add_entries-Seeded es a h e)

  pub Seeded-Inv :
      (cpu : VrEmu6502) (read : ℕ → ℕ) (entries : List ℕ) (a : DisAnalysis)
      → ((x : ℕ) → Seeded entries a x)
      → Inv cpu read lo hi entries a.work a
  Seeded-Inv cpu read entries a s =
      let none_marked = λ (test : ℕ → Bool).
        count_below_none 0x10000 (λ pc. (a.flags pc).instruction && test pc)
          (λ i. ground (arith, s i)) in
      record {
        lo_eq = (s 0).lo_eq;
        hi_eq = (s 0).hi_eq;
        todo_reached = λ x m i. entry x (ground (arith, s x)) i;
        code_reached = λ x c. cc ((s x).instruction);
        queued_todo = λ x q. ground (arith, s x);
        queued_in = λ x q. ground (arith, s x);
        entry_queued = λ x m i. ground (arith, s x);
        target_queued = λ pc x c t i. cc ((s pc).instruction);
        fall_todo = λ pc x c f e i. cc ((s pc).instruction);
        function_eq = λ x. ground (arith, s x, none_marked (λ c. calls cpu read c x));
        label_eq = λ x. ground (arith, s x, none_marked (λ c. jumps cpu read c x));
        callers_eq = λ x. ground (arith, s x, none_marked (λ c. calls cpu read c x));
        stray_eq = ground (arith, s 0, none_marked (strays cpu read lo hi));
      }
