-- ===== src/Analyze/Run.antt =====
-- The whole traversal: what `AnalyzeRun` marks, and what it counts.
use dis.Base.{
  ℕ, zero, suc, ◌<◌, ◌≡◌, ◌⊎◌, sym, ◌∙◌, subst, arith, true, false, List, [], ◌∷◌, some, List-cases,
  inl, inr,
}
use dis.Cpu.{VrEmu6502}
use dis.Disassemble.Length.{dis_inst_len_bounds}
use dis.Analyze.{DisAnalysis, Realloc, in_range, visit, trace, trace_fuel, run_loop}
use dis.Analyze.Spec.{within, behind, falls, Reached, entry, target, fall}
use dis.Analyze.Inv.{Inv, Inv-drop, Inv-popped}
use dis.Analyze.Visit.{onward, visit-Inv}
use dis.Analyze.Total.{trace_cases, run_done, run_step, run_empty, trace_empty, trace_ends}

module _ (cpu : VrEmu6502) (read : ℕ → ℕ) (lo hi : ℕ) (realloc : Realloc)
    (grows : (n : ℕ) → realloc n ≡ true) (entries : List ℕ) (top : hi < 0x10000) where
  abbrev Holds : List ℕ → DisAnalysis → Type 0
  Holds todo a = Inv cpu read lo hi entries todo a

  visited :
      (a : DisAnalysis) (pc : ℕ)
      → (a.flags pc).instruction ≡ false
      → in_range a pc ≡ true
      → Holds (pc ∷ a.work) a
      → Holds
          (onward cpu read lo hi realloc grows pc (visit (some cpu) read realloc a pc).work)
          (visit (some cpu) read realloc a pc)
  visited a pc fresh inside h =
      visit-Inv cpu read lo hi realloc grows entries a pc top fresh
        (rw (h.lo_eq, h.hi_eq) at inside) h

  trace-Inv :
      (fuel : ℕ) (a a' : DisAnalysis) (pc : ℕ)
      → Holds (pc ∷ a.work) a
      → trace (some cpu) read realloc fuel a pc ≡ some a'
      → Holds a'.work a'
  trace-Inv zero a a' pc h e = cc (trace_empty realloc (some cpu) read a pc)
  trace-Inv (suc fuel) a a' pc h e = elim (trace_cases realloc (some cpu) read fuel a pc) [
    | inl (why, s) ↦
        let same : a ≡ a' = cc in
        let needless : (within lo hi pc ≡ false) ⊎ ((a.flags pc).instruction ≡ true) =
          ground (arith, h.lo_eq, h.hi_eq, dis_inst_len_bounds cpu (read pc)) in
        subst (λ (z : DisAnalysis). Holds z.work z) same
          (Inv-drop cpu read lo hi entries pc a.work a needless h)
    | inr (inl (last, s)) ↦
        let same : visit (some cpu) read realloc a pc ≡ a' = cc in
        let over : falls cpu read pc ≡ false = ground arith in
        subst (λ (z : DisAnalysis). Holds z.work z) same (rw over at (visited a pc last.1 last.0 h))
    | inr (inr (on, s)) ↦
        let goes_on : falls cpu read pc ≡ true = ground arith in
        trace-Inv fuel (visit (some cpu) read realloc a pc) a' (behind cpu read pc)
          (rw goes_on at (visited a pc on.1 on.0 h)) (sym s ∙ e)
  ]

  pub run_loop-Inv :
      (fuel : ℕ) (a a' : DisAnalysis)
      → Holds a.work a
      → run_loop (some cpu) read realloc fuel a ≡ some a'
      → Holds [] a'
  run_loop-Inv zero a a' h e = cc (run_empty realloc (some cpu) read a)
  run_loop-Inv (suc fuel) a a' h e = elim (List-cases a.work) [
    | inl empty ↦
        let same : a ≡ a' = cc (run_done realloc (some cpu) read fuel a empty) in
        subst (λ (z : DisAnalysis). Holds [] z) same (subst (λ (w : List ℕ). Holds w a) empty h)
    | inr (pc, rest, popped) ↦
        let (traced, ends, _) =
          trace_ends realloc (some cpu) read trace_fuel (record a { work = rest }) pc
            (omega (arith, h.hi_eq)) (omega arith) in
        let here =
          trace-Inv trace_fuel (record a { work = rest }) traced pc
            (Inv-popped cpu read lo hi entries (pc ∷ rest) rest a
              (subst (λ (w : List ℕ). Holds w a) popped h))
            ends in
        run_loop-Inv fuel traced a' here
          (sym (run_step realloc (some cpu) read fuel a pc rest traced popped ends) ∙ e)
  ]

  -- With an empty worklist everything that control flow reaches is marked.
  pub complete :
      (a : DisAnalysis)
      → Holds [] a
      → {x : ℕ} → Reached cpu read lo hi entries x
      → (a.flags x).instruction ≡ true
  complete a h (entry x m i) = ground (arith, h.queued_todo x, h.entry_queued x m i)
  complete a h (target pc x r t i) =
      ground (arith, h.queued_todo x, h.target_queued pc x (complete a h r) t i)
  complete a h (fall pc x r f e i) = ground (arith, h.fall_todo pc x (complete a h r) f e i)
