-- ===== src/Analyze/Unordered.antt =====
-- The answers of `AnalyzeRun` from two lists of the same entries.
use Prim.Native.Nat.{min}
use dis.Base.{
  ℕ, false, ◌<◌, ◌≡◌, refl, sym, ap, ◌∙◌, inl, inr, Bool, true, ◌&&◌, List, some, if◌then◌else◌,
}
use dis.Base.Table.{count_below, count_below_cong}
use dis.Cpu.{VrEmu6502}
use dis.Analyze.{
  DisAnalysis, Realloc, analyze_new, analyze_run, analyze_is_instruction, analyze_is_function,
  analyze_is_label, analyze_callers, analyze_out_of_range,
}
use dis.Analyze.Spec.{mem, within, calls, strays, Reached, entry, target, fall}
use dis.Analyze.Seeds.{add_entries}
use dis.Analyze.Contract.{Analyzer, Promises, analyzer, seed-add_entries, analyzer-Promises}

module _ (cpu : VrEmu6502) (read : ℕ → ℕ) (lo hi : ℕ) (entries entries' : List ℕ)
    (same : (y : ℕ) → mem y entries ≡ mem y entries') where
  Reached-cong : {x : ℕ} → Reached cpu read lo hi entries x → Reached cpu read lo hi entries' x
  Reached-cong (entry x m w) = entry x (sym (same x) ∙ m) w
  Reached-cong (target pc x r t w) = target pc x (Reached-cong r) t w
  Reached-cong (fall pc x r f e w) = fall pc x (Reached-cong r) f e w

eq_of_implies : (p q : Bool) → (p ≡ true → q ≡ true) → (q ≡ true → p ≡ true) → p ≡ q
eq_of_implies true q f g = sym (f refl)
eq_of_implies p true f g = g refl
eq_of_implies false false f g = refl

-- Two analyzers that keep the promises, each with its own implementation and its own list of the
-- same entries.
module _ (cpu : VrEmu6502) (read : ℕ → ℕ) (lo hi : ℕ) (entries entries' : List ℕ) (i j : Analyzer)
    (a : i.State) (b : j.State) (same : (y : ℕ) → mem y entries ≡ mem y entries')
    (p : Promises cpu read lo hi entries i a) (q : Promises cpu read lo hi entries' j b) where
  there : (x : ℕ) → Reached cpu read lo hi entries x → Reached cpu read lo hi entries' x
  there x = Reached-cong cpu read lo hi entries entries' same

  back : (x : ℕ) → Reached cpu read lo hi entries' x → Reached cpu read lo hi entries x
  back x = Reached-cong cpu read lo hi entries' entries (λ y. sym (same y))

  instruction-eq : (x : ℕ) → i.is_instruction a x ≡ j.is_instruction b x
  instruction-eq x =
      eq_of_implies (i.is_instruction a x) (j.is_instruction b x)
        (λ h. (q.instruction_iff x).1 (there x ((p.instruction_iff x).0 h)))
        (λ h. (p.instruction_iff x).1 (back x ((q.instruction_iff x).0 h)))

  function-eq : (x : ℕ) → i.is_function a x ≡ j.is_function b x
  function-eq x =
      eq_of_implies (i.is_function a x) (j.is_function b x)
        (λ h.
          let (w, why) = (p.function_iff x).0 h in
          (q.function_iff x).1 (
            w,
            elim why [ inl m ↦ inl (sym (same x) ∙ m) | inr (pc, r, c) ↦ inr (pc, there pc r, c) ],
          ))
        (λ h.
          let (w, why) = (q.function_iff x).0 h in
          (p.function_iff x).1
            (w, elim why [ inl m ↦ inl (same x ∙ m) | inr (pc, r, c) ↦ inr (pc, back pc r, c) ]))

  label-eq : (x : ℕ) → i.is_label a x ≡ j.is_label b x
  label-eq x =
      eq_of_implies (i.is_label a x) (j.is_label b x)
        (λ h.
          let (w, (pc, r, c)) = (p.label_iff x).0 h in (q.label_iff x).1 (w, (pc, there pc r, c)))
        (λ h.
          let (w, (pc, r, c)) = (q.label_iff x).0 h in (p.label_iff x).1 (w, (pc, back pc r, c)))

  counts-eq :
      (test : ℕ → Bool)
      → count_below 0x10000 (λ pc. i.is_instruction a pc && test pc)
        ≡ count_below 0x10000 (λ pc. j.is_instruction b pc && test pc)
  counts-eq test =
      count_below_cong 0x10000 (λ pc. i.is_instruction a pc && test pc)
        (λ pc. j.is_instruction b pc && test pc)
        (λ pc lt. ap (λ (t : Bool). t && test pc) (instruction-eq pc))

  -- The promises determine every answer: two analyzers, with implementations of their own, that keep
  -- them for the same program and the same set of entries answer every query alike.
  pub Promises_agree :
      (x : ℕ)
      → (i.is_instruction a x ≡ j.is_instruction b x)
        × (i.is_function a x ≡ j.is_function b x)
        × (i.is_label a x ≡ j.is_label b x)
        × (i.callers a x ≡ j.callers b x)
        × (i.out_of_range a ≡ j.out_of_range b)
  Promises_agree x = (
    instruction-eq x,
    function-eq x,
    label-eq x,
    p.callers_eq x
        ∙ ap (λ (n : ℕ). if within lo hi x then min 0xffff n else 0)
            (counts-eq (λ pc. calls cpu read pc x))
        ∙ sym (q.callers_eq x),
    p.out_of_range_eq ∙ counts-eq (strays cpu read lo hi) ∙ sym q.out_of_range_eq,
  )

-- The order in which the entries are added, and adding one twice, make no difference: from lists
-- of the same entries AnalyzeRun leads to the same answer to every query, on an opcode table, a
-- 16-bit range that AnalyzeNew accepts, and where every realloc succeeds.
pub analyze_run_unordered :
    (cpu : VrEmu6502) (read : ℕ → ℕ) (lo hi : ℕ) (realloc : Realloc) (entries entries' : List ℕ)
    (a b b' : DisAnalysis) (x : ℕ)
    → ((n : ℕ) → realloc n ≡ true)
    → hi < 0x10000
    → analyze_new true lo hi ≡ some a
    → ((y : ℕ) → mem y entries ≡ mem y entries')
    → analyze_run (some cpu) read realloc (add_entries realloc a entries) ≡ some b
    → analyze_run (some cpu) read realloc (add_entries realloc a entries') ≡ some b'
    → (analyze_is_instruction (some b) x ≡ analyze_is_instruction (some b') x)
      × (analyze_is_function (some b) x ≡ analyze_is_function (some b') x)
      × (analyze_is_label (some b) x ≡ analyze_is_label (some b') x)
      × (analyze_callers (some b) x ≡ analyze_callers (some b') x)
      × (analyze_out_of_range (some b) ≡ analyze_out_of_range (some b'))
analyze_run_unordered cpu read lo hi realloc entries entries' a b b' x grows top new same e e' =
    let i = analyzer cpu read realloc in
    let promises =
      λ (es : List ℕ) (c : DisAnalysis)
          (r : analyze_run (some cpu) read realloc (add_entries realloc a es) ≡ some c).
        rw (seed-add_entries cpu read lo hi realloc entries a grows top new es, r) at
          (analyzer-Promises cpu read lo hi realloc es a grows top new) in
    Promises_agree cpu read lo hi entries entries' i i b b' same (promises entries b e)
      (promises entries' b' e') x
