-- ===== src/Analyze/Contract.antt =====
-- The contract of analyze.h: what a client of analyze.c may rely on.
use Prim.Native.Nat.{min}
use dis.Base.{
  ℕ, false, ◌≤◌, ◌<◌, ◌≡◌, ◌⊎◌, ◌↔◌, refl, ap, arith, Bool, true, ◌&&◌, Option, List, [], ◌∷◌, none,
  some, if◌then◌else◌,
}
use dis.Base.Table.{count_below}
use dis.Cpu.{VrEmu6502}
use dis.Analyze.{
  DisAnalysis, Realloc, analyze_new, analyze_add_entry, analyze_run, analyze_is_instruction,
  analyze_is_function, analyze_is_label, analyze_callers, analyze_out_of_range,
}
use dis.Analyze.Spec.{mem, within, calls, jumps, strays, Reached}
use dis.Analyze.Seeds.{add_entries}
use dis.Analyze.Correct.{analyze_run_decides, analyze_run_names, analyze_run_counts}

-- The functions that analyze.h declares, on an analysis that is not NULL.
pub record Analyzer : Type 1 where
  pub State : Type 0
  pub new : ℕ → ℕ → Option State
  pub add_entry : State → ℕ → State
  pub run : State → State
  pub is_instruction : State → ℕ → Bool
  pub is_function : State → ℕ → Bool
  pub is_label : State → ℕ → Bool
  pub callers : State → ℕ → ℕ
  pub out_of_range : State → ℕ

-- The state after an `AnalyzeAddEntry` for each entry, the last one first.
abbrev pub seed : (i : Analyzer) → i.State → List ℕ → i.State
seed i a [] = a
seed i a (e ∷ es) = i.add_entry (seed i a es) e

-- What analyze.h promises of a state after the run on [lo,hi] from the entries, on an opcode table
-- and a memory. The counts are over the instructions found, and that of the callers saturates.
pub record Promises (cpu : VrEmu6502) (read : ℕ → ℕ) (lo hi : ℕ) (entries : List ℕ) (i : Analyzer)
    (a : i.State) : Type 0 where
  pub instruction_iff : (x : ℕ) → (i.is_instruction a x ≡ true) ↔ Reached cpu read lo hi entries x
  pub function_iff :
      (x : ℕ)
      → (i.is_function a x ≡ true) ↔ (
          (within lo hi x ≡ true)
          × ((mem x entries ≡ true)
              ⊎ ((pc : ℕ) × Reached cpu read lo hi entries pc × (calls cpu read pc x ≡ true))))
  pub label_iff :
      (x : ℕ)
      → (i.is_label a x ≡ true) ↔ (
          (within lo hi x ≡ true)
          × ((pc : ℕ) × Reached cpu read lo hi entries pc × (jumps cpu read pc x ≡ true)))
  pub callers_eq :
      (x : ℕ)
      → i.callers a x ≡ (
          if within lo hi x
          then min 0xffff (count_below 0x10000 (λ pc. i.is_instruction a pc && calls cpu read pc x))
          else 0)
  pub out_of_range_eq :
      i.out_of_range a
      ≡ count_below 0x10000 (λ pc. i.is_instruction a pc && strays cpu read lo hi pc)

abbrev or_self : DisAnalysis → Option DisAnalysis → DisAnalysis
or_self a none = a
or_self a (some a') = a'

-- analyze.c as such functions.
abbrev pub analyzer : VrEmu6502 → (ℕ → ℕ) → Realloc → Analyzer
analyzer cpu read realloc = record {
  State = DisAnalysis;
  new = analyze_new true;
  add_entry = analyze_add_entry realloc;
  run = λ a. or_self a (analyze_run (some cpu) read realloc a);
  is_instruction = λ a. analyze_is_instruction (some a);
  is_function = λ a. analyze_is_function (some a);
  is_label = λ a. analyze_is_label (some a);
  callers = λ a. analyze_callers (some a);
  out_of_range = λ a. analyze_out_of_range (some a);
}

-- AnalyzeNew accepts every range that is not empty, where the memory is given.
pub new_total : (lo hi : ℕ) → lo ≤ hi → (a : DisAnalysis) × (analyze_new true lo hi ≡ some a)
unfolding analyze_new
new_total lo hi le = (
  record {
    lo = lo;
    hi = hi;
    flags = λ _. record { instruction = false; function = false; label = false; queued = false };
    callers = λ _. 0;
    work = [];
    work_cap = 0;
    realloc_calls = 0;
    out_of_range = 0;
  },
  ground arith,
)

module _ (cpu : VrEmu6502) (read : ℕ → ℕ) (lo hi : ℕ) (realloc : Realloc) (entries : List ℕ)
    (a : DisAnalysis) (grows : (n : ℕ) → realloc n ≡ true) (top : hi < 0x10000)
    (new : analyze_new true lo hi ≡ some a) where
  pub seed-add_entries :
      (es : List ℕ) → seed (analyzer cpu read realloc) a es ≡ add_entries realloc a es
  unfolding add_entries
  seed-add_entries [] = refl
  seed-add_entries (e ∷ es) =
      ap (λ (t : DisAnalysis). analyze_add_entry realloc t e) (seed-add_entries es)

  -- analyze.c refines the interface that analyze.h declares: on an opcode table, a 16-bit range
  -- that AnalyzeNew accepts, and where every realloc succeeds, the state after AnalyzeAddEntry for
  -- each entry and AnalyzeRun answers every query as promised. Starts are what control flow
  -- reaches, functions the entries and call targets, labels the targets of jumps and branches, and
  -- the two counts those of the instructions found.
  pub analyzer-Promises :
      Promises cpu read lo hi entries
        (analyzer cpu read realloc)
        ((analyzer cpu read realloc).run (seed (analyzer cpu read realloc) a entries))
  analyzer-Promises =
      let (a', e, found) = analyze_run_decides cpu read lo hi realloc entries a grows top new in
      let same : or_self (add_entries realloc a entries)
            (analyze_run (some cpu) read realloc (add_entries realloc a entries))
          ≡ a' =
        rw e in
      rw (seed-add_entries entries) (
        rw same (record {
          instruction_iff = found;
          function_iff =
              λ x. (analyze_run_names cpu read lo hi realloc entries a grows top new a' x e).0;
          label_iff =
              λ x. (analyze_run_names cpu read lo hi realloc entries a grows top new a' x e).1;
          callers_eq =
              λ x. (analyze_run_counts cpu read lo hi realloc entries a grows top new a' x e).0;
          out_of_range_eq =
              (analyze_run_counts cpu read lo hi realloc entries a grows top new a' 0 e).1;
        }))
