-- ===== src/Analyze/Correct.antt =====
-- The answers of the queries after `AnalyzeRun`, where the memory that it asks for is given.
use Prim.Native.Nat.{min}
use dis.Base.{
  ℕ, ◌<◌, ◌≡◌, ◌⊎◌, ◌↔◌, arith, Bool, true, List, [], some, if◌then◌else◌, inl, inr, Bool-cases,
}
use dis.Base.Table.{count_below_some, count_below_pos}
use dis.Cpu.{VrEmu6502}
use dis.Analyze.{
  DisAnalysis, Realloc, analyze_new, analyze_run, analyze_is_instruction, analyze_is_function,
  analyze_is_label, analyze_callers, analyze_out_of_range,
}
use dis.Analyze.Spec.{mem, within, calls, jumps, strays, Reached, Reached-within}
use dis.Analyze.Inv.{Inv, marked}
use dis.Analyze.Run.{run_loop-Inv, complete}
use dis.Analyze.Total.{analyze_run_ends}
use dis.Analyze.Seeds.{add_entries, Seeded-Inv, add_entries-Seeded}

module _ (cpu : VrEmu6502) (read : ℕ → ℕ) (lo hi : ℕ) (realloc : Realloc) (entries : List ℕ)
    (a : DisAnalysis) (grows : (n : ℕ) → realloc n ≡ true) (top : hi < 0x10000)
    (new : analyze_new true lo hi ≡ some a) where
  -- `a'` is the analysis after `AnalyzeAddEntry` for each entry and `AnalyzeRun`.
  abbrev Results : DisAnalysis → Type 0
  Results a' = analyze_run (some cpu) read realloc (add_entries realloc a entries) ≡ some a'

  Results-Inv : (a' : DisAnalysis) → Results a' → Inv cpu read lo hi entries [] a'
  unfolding analyze_run
  Results-Inv a' e =
      run_loop-Inv cpu read lo hi realloc grows entries top _ _ a'
        (Seeded-Inv lo hi realloc grows cpu read entries (add_entries realloc a entries)
          (add_entries-Seeded lo hi realloc grows entries a new))
        e

  -- On an opcode table, a 16-bit range [lo,hi] that AnalyzeNew accepts, and where every realloc
  -- succeeds: after AnalyzeAddEntry for each entry AnalyzeRun returns, and then
  -- AnalyzeIsInstruction holds exactly of the addresses that control flow reaches from the entries
  -- inside [lo,hi].
  pub analyze_run_decides :
      (a' : DisAnalysis) × Results a'
      × ((x : ℕ) → (analyze_is_instruction (some a') x ≡ true) ↔ Reached cpu read lo hi entries x)
  analyze_run_decides =
      let (a', e) =
        analyze_run_ends realloc (some cpu) read (add_entries realloc a entries)
          (omega (arith, (add_entries-Seeded lo hi realloc grows entries a new 0).hi_eq)) in
      let inv = Results-Inv a' e in
      (a', e, λ x. (inv.code_reached x, complete cpu read lo hi realloc grows entries top a' inv))

  -- An address in the marked code calls or jumps to `x`.
  site :
      (a' : DisAnalysis) (test : ℕ → Bool)
      → Results a'
      → (0 < marked a' test) ↔ ((pc : ℕ) × Reached cpu read lo hi entries pc × (test pc ≡ true))
  site a' test e =
      let inv = Results-Inv a' e in
      (
        λ pos.
            let (pc, lt, found) = count_below_some 0x10000 _ pos in
            (pc, inv.code_reached pc (ground arith), ground arith),
        λ (pc, r, t).
            count_below_pos 0x10000 pc _ (ground (arith, Reached-within cpu read lo hi r))
              (ground (arith, complete cpu read lo hi realloc grows entries top a' inv r)),
      )

  -- On an opcode table, a 16-bit range that AnalyzeNew accepts, and where every realloc succeeds:
  -- after AnalyzeRun, AnalyzeIsFunction holds exactly of the entries and the targets of reached
  -- calls that lie in [lo,hi], and AnalyzeIsLabel exactly of the targets of reached jumps and
  -- branches that do.
  pub analyze_run_names :
      (a' : DisAnalysis) (x : ℕ)
      → Results a'
      → ((analyze_is_function (some a') x ≡ true) ↔ (
          (within lo hi x ≡ true)
          × ((mem x entries ≡ true)
              ⊎ ((pc : ℕ) × Reached cpu read lo hi entries pc × (calls cpu read pc x ≡ true)))))
        × ((analyze_is_label (some a') x ≡ true) ↔ (
            (within lo hi x ≡ true)
            × ((pc : ℕ) × Reached cpu read lo hi entries pc × (jumps cpu read pc x ≡ true))))
  analyze_run_names a' x e =
      let inv = Results-Inv a' e in
      let call_site = site a' (λ pc. calls cpu read pc x) e in
      let jump_site = site a' (λ pc. jumps cpu read pc x) e in
      (
        (
          λ f. (
            ground (arith, inv.function_eq x),
            elim (Bool-cases (mem x entries)) [
              | inl m ↦ inl m
              | inr n ↦ inr (call_site.0 (ground (arith, inv.function_eq x)))
            ],
          ),
          λ (i, why). elim why [
            | inl m ↦ ground (arith, inv.function_eq x)
            | inr s ↦ ground (arith, inv.function_eq x, call_site.1 s)
          ],
        ),
        (
          λ l. (ground (arith, inv.label_eq x), jump_site.0 (ground (arith, inv.label_eq x))),
          λ (i, s). ground (arith, inv.label_eq x, jump_site.1 s),
        ),
      )

  -- On an opcode table, a 16-bit range that AnalyzeNew accepts, and where every realloc succeeds:
  -- after AnalyzeRun, AnalyzeCallers is the number of instructions found that call the address, at
  -- most 0xffff, and 0 outside [lo,hi], and AnalyzeOutOfRange is the number of instructions found
  -- whose target lies outside [lo,hi].
  pub analyze_run_counts :
      (a' : DisAnalysis) (x : ℕ)
      → Results a'
      → (analyze_callers (some a') x
          ≡ (if within lo hi x then min 0xffff (marked a' (λ pc. calls cpu read pc x)) else 0))
        × (analyze_out_of_range (some a') ≡ marked a' (strays cpu read lo hi))
  analyze_run_counts a' x e = let inv = Results-Inv a' e in (inv.callers_eq x, inv.stray_eq)
