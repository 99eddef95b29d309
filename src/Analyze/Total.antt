-- ===== src/Analyze/Total.antt =====
-- The fuel of the two loops of `AnalyzeRun`.
use dis.Base.{
  ℕ, zero, suc, ◌+◌, ◌-◌, ◌≤◌, ◌<◌, ◌≡◌, ◌≢◌, ◌⊎◌, refl, ap, ◌∙◌, arith, true, false, not, List, [],
  ◌∷◌, Option, some, none, ltb, u32, u16, length, List-cases, inl, inr, Bool-cases,
}
use dis.Base.Table.{count_below, count_below_cong, count_below_more, count_below-le}
use dis.Cpu.{VrEmu6502}
use dis.Disassemble.{DisFlow, call, jump, branch, dis_inst_len}
use dis.Disassemble.Length.{dis_inst_len_bounds}
use dis.Analyze.{
  DisAnalysis, Realloc, in_range, room, push, count_call, mark_label, follow, set_instruction,
  enqueue, ends_trace, visit, trace, trace_fuel, run_loop, analyze_run, len_at, kind_at, target_at,
}

-- The entries of the worklist, and the addresses that may still enter it.
pub potential : DisAnalysis → ℕ
potential a = length a.work + count_below 0x10000 (λ x. not (a.flags x).queued)

-- Nothing that counts changes.
same_potential :
    (a a' : DisAnalysis)
    → a'.work ≡ a.work
    → ((x : ℕ) → (a'.flags x).queued ≡ (a.flags x).queued)
    → potential a' ≡ potential a
unfolding potential
same_potential a a' work queued = omega (
  arith,
  ap length work,
  count_below_cong 0x10000 (λ x. not (a'.flags x).queued) (λ x. not (a.flags x).queued)
      (λ x lt. ap not (queued x)),
)

enqueue-potential :
    (a : DisAnalysis) (t : ℕ) (cap : Option ℕ)
    → t < 0x10000
    → (a.flags t).queued ≡ false
    → (potential (enqueue a t cap) ≤ potential a) × ((enqueue a t cap).hi ≡ a.hi)
unfolding potential
enqueue-potential a t none top new =
    (omega (arith, same_potential a (enqueue a t none) refl (λ x. refl)), refl)
enqueue-potential a t (some cap) top new =
    let fewer =
      count_below_more 0x10000 t (λ x. not ((enqueue a t (some cap)).flags x).queued)
        (λ x. not (a.flags x).queued) top (ground arith) (ap not new) (λ i ne. ground arith) in
    (omega (arith, fewer), refl)

len_at-le : (dis_cpu : Option VrEmu6502) (read : ℕ → ℕ) (pc : ℕ) → len_at dis_cpu read pc ≤ 3
unfolding dis_inst_len
len_at-le none read pc = omega arith
len_at-le (some cpu) read pc = (dis_inst_len_bounds cpu (read pc)).1

pop_shrinks :
    (a : DisAnalysis) (pc : ℕ) (rest : List ℕ)
    → a.work ≡ pc ∷ rest
    → suc (potential (record a { work = rest })) ≡ potential a
unfolding potential
pop_shrinks a pc rest e = omega (arith, ap length e)

abbrev pub Shrinks : DisAnalysis → DisAnalysis → Type 0
Shrinks a a' = (potential a' ≤ potential a) × (a'.hi ≡ a.hi)

module _ (realloc : Realloc) where
  pub push-Shrinks : (a : DisAnalysis) (t : ℕ) → a.hi < 0x10000 → Shrinks a (push realloc a t)
  unfolding push
  push-Shrinks a t top = elim (Bool-cases (in_range a t)) [
    | inr out ↦ rw out (
      omega (
        arith,
        same_potential a (record a { out_of_range = u32 (a.out_of_range + 1) }) refl (λ x. refl),
      ),
      refl,
    )
    | inl within ↦ elim (Bool-cases (a.flags t).queued) [
      | inl old ↦ rw (within, old) (omega arith, refl)
      | inr new ↦ rw (within, new) (enqueue-potential a t (room realloc a) (ground arith) new)
    ]
  ]

  count_call-Shrinks :
      (a : DisAnalysis) (t : ℕ)
      → (potential (count_call a t) ≡ potential a) × ((count_call a t).hi ≡ a.hi)
  unfolding count_call
  count_call-Shrinks a t =
      (same_potential a (count_call a t) (ground arith) (λ x. ground arith), ground arith)

  mark_label-Shrinks :
      (a : DisAnalysis) (t : ℕ)
      → (potential (mark_label a t) ≡ potential a) × ((mark_label a t).hi ≡ a.hi)
  unfolding mark_label
  mark_label-Shrinks a t =
      (same_potential a (mark_label a t) (ground arith) (λ x. ground arith), ground arith)

  follow-Shrinks :
      (kind : DisFlow) (a : DisAnalysis) (t : ℕ)
      → a.hi < 0x10000
      → Shrinks a (follow realloc a kind t)
  unfolding follow
  follow-Shrinks call a t top = omega (
    arith,
    count_call-Shrinks a t,
    push-Shrinks (count_call a t) t (omega (arith, count_call-Shrinks a t)),
  )
  follow-Shrinks jump a t top = omega (
    arith,
    mark_label-Shrinks a t,
    push-Shrinks (mark_label a t) t (omega (arith, mark_label-Shrinks a t)),
  )
  follow-Shrinks branch a t top = omega (
    arith,
    mark_label-Shrinks a t,
    push-Shrinks (mark_label a t) t (omega (arith, mark_label-Shrinks a t)),
  )
  follow-Shrinks _ a t top = omega arith

  module _ (dis_cpu : Option VrEmu6502) (read : ℕ → ℕ) where
    visit-Shrinks :
        (a : DisAnalysis) (pc : ℕ) → a.hi < 0x10000 → Shrinks a (visit dis_cpu read realloc a pc)
    unfolding visit
    visit-Shrinks a pc top =
        let same = same_potential a (set_instruction a pc) refl (λ x. ground arith) in
        omega (
          arith,
          same,
          follow-Shrinks (kind_at dis_cpu read pc) (set_instruction a pc)
              (target_at dis_cpu read pc) top,
        )

    next_up :
        (pc : ℕ)
        → len_at dis_cpu read pc ≢ 0
        → ltb (u16 (pc + len_at dis_cpu read pc)) pc ≡ false
        → (pc < u16 (pc + len_at dis_cpu read pc)) × (pc < 0x10000)
    next_up pc some_len on = ground (arith, len_at-le dis_cpu read pc)

    -- The three ways on for a trace at `pc`: it stops there, it stops behind the instruction, or it
    -- goes on.
    abbrev pub Stops : DisAnalysis → ℕ → Type 0
    Stops a pc =
        (in_range a pc ≡ false) ⊎ ((a.flags pc).instruction ≡ true) ⊎ (len_at dis_cpu read pc ≡ 0)

    abbrev pub Last : DisAnalysis → ℕ → Type 0
    Last a pc =
        (in_range a pc ≡ true)
        × ((a.flags pc).instruction ≡ false)
        × ((ends_trace (kind_at dis_cpu read pc) ≡ true)
            ⊎ (ltb (u16 (pc + len_at dis_cpu read pc)) pc ≡ true))

    abbrev pub Onward : DisAnalysis → ℕ → Type 0
    Onward a pc =
        (in_range a pc ≡ true)
        × ((a.flags pc).instruction ≡ false)
        × (len_at dis_cpu read pc ≢ 0)
        × (ends_trace (kind_at dis_cpu read pc) ≡ false)
        × (ltb (u16 (pc + len_at dis_cpu read pc)) pc ≡ false)

    pub trace_cases :
        (fuel : ℕ) (a : DisAnalysis) (pc : ℕ)
        → Stops a pc × (trace dis_cpu read realloc (suc fuel) a pc ≡ some a)
          ⊎ Last a pc
            × (trace dis_cpu read realloc (suc fuel) a pc ≡ some (visit dis_cpu read realloc a pc))
          ⊎ Onward a pc
            × (trace dis_cpu read realloc (suc fuel) a pc
                ≡ trace dis_cpu read realloc fuel
                    (visit dis_cpu read realloc a pc)
                    (u16 (pc + len_at dis_cpu read pc)))
    unfolding trace
    trace_cases fuel a pc = ground arith

    -- The inner loop ends, and leaves no more to be done than there was.
    pub trace_ends :
        (fuel : ℕ) (a : DisAnalysis) (pc : ℕ)
        → a.hi < 0x10000
        → 0x10000 - pc < fuel
        → (a' : DisAnalysis) × (trace dis_cpu read realloc fuel a pc ≡ some a') × Shrinks a a'
    trace_ends zero a pc top enough = absurd (omega arith)
    trace_ends (suc fuel) a pc top enough = elim (trace_cases fuel a pc) [
      | inl (why, e) ↦ (a, e, omega arith)
      | inr (inl (last, e)) ↦ (visit dis_cpu read realloc a pc, e, visit-Shrinks a pc top)
      | inr (inr (on, e)) ↦
          let shrinks = visit-Shrinks a pc top in
          let up = next_up pc on.2 on.4 in
          let (a', ends, shrinks') =
            trace_ends fuel (visit dis_cpu read realloc a pc) (u16 (pc + len_at dis_cpu read pc))
              (omega arith) (omega arith) in
          (a', e ∙ ends, omega arith)
    ]

    pub trace_empty : (a : DisAnalysis) (pc : ℕ) → trace dis_cpu read realloc zero a pc ≡ none
    unfolding trace
    trace_empty a pc = refl

    pub run_empty : (a : DisAnalysis) → run_loop dis_cpu read realloc zero a ≡ none
    unfolding run_loop
    run_empty a = refl

    pub run_done :
        (fuel : ℕ) (a : DisAnalysis)
        → a.work ≡ []
        → run_loop dis_cpu read realloc (suc fuel) a ≡ some a
    unfolding run_loop
    run_done fuel a e = simp (e, run_loop)

    pub run_step :
        (fuel : ℕ) (a : DisAnalysis) (pc : ℕ) (rest : List ℕ) (traced : DisAnalysis)
        → a.work ≡ pc ∷ rest
        → trace dis_cpu read realloc trace_fuel (record a { work = rest }) pc ≡ some traced
        → run_loop dis_cpu read realloc (suc fuel) a ≡ run_loop dis_cpu read realloc fuel traced
    unfolding run_loop
    run_step fuel a pc rest traced e ends = simp (e, run_loop, ends)

    -- So does the outer loop.
    run_loop_ends :
        (fuel : ℕ) (a : DisAnalysis)
        → a.hi < 0x10000
        → potential a < fuel
        → (a' : DisAnalysis) × (run_loop dis_cpu read realloc fuel a ≡ some a')
    run_loop_ends zero a top enough = absurd (omega arith)
    run_loop_ends (suc fuel) a top enough = elim (List-cases a.work) [
      | inl empty ↦ (a, run_done fuel a empty)
      | inr (pc, rest, e) ↦
          let popped = record a { work = rest } in
          let (traced, ends, shrinks) = trace_ends trace_fuel popped pc top (omega arith) in
          let less = pop_shrinks a pc rest e in
          let (a', done) = run_loop_ends fuel traced (omega arith) (omega arith) in
          (a', run_step fuel a pc rest traced e ends ∙ done)
    ]

    -- AnalyzeRun ends on every analysis of a range of 16-bit addresses, whatever the handle, the
    -- memory, and the outcome of each call of realloc.
    pub analyze_run_ends :
        (a : DisAnalysis)
        → a.hi < 0x10000
        → (a' : DisAnalysis) × (analyze_run dis_cpu read realloc a ≡ some a')
    unfolding analyze_run potential
    analyze_run_ends a top =
        run_loop_ends (length a.work + 0x10001) a top
          (omega (arith, count_below-le 0x10000 (λ x. not (a.flags x).queued)))
