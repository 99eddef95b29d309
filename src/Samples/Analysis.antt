-- ===== src/Samples/Analysis.antt =====
-- Tests of the traversal, and its theorems at a concrete program.
use Prim.Native.Nat.{min}
use dis.Base.{
  ℕ, zero, suc, ◌≡◌, ◌⊎◌, ◌↔◌, refl, arith, Bool, true, false, Option, some, none, List, [], ◌∷◌,
}
use dis.Disassemble.{
  dis_inst_len, dis_flow_of, dis_is_bit_branch, dis_is_brk, mode_len, named_flow, opcode_flow,
  is_conditional, absolute_target,
}
use dis.Analyze.{
  DisAnalysis, Realloc, analyze_new, analyze_add_entry, analyze_run, run_loop, trace, visit, follow,
  push, room, count_call, mark_label, analyze_is_instruction, analyze_is_function, analyze_is_label,
  analyze_callers, analyze_out_of_range,
}
use dis.Analyze.Spec.{mem, within, calls, jumps, strays, Reached}
use dis.Analyze.Inv.{marked}
use dis.Analyze.Total.{analyze_run_ends}
use dis.Analyze.Seeds.{add_entries}
use dis.Analyze.Correct.{analyze_run_decides, analyze_run_names, analyze_run_counts}
use dis.Samples.{sample_cpu, sample_read}

abbrev granted : Realloc
granted call = true

abbrev nothing_known : DisAnalysis
nothing_known = record {
  lo = 0x200;
  hi = 0x209;
  flags = λ _. record { instruction = false; function = false; label = false; queued = false };
  callers = λ _. 0;
  work = [];
  work_cap = 0;
  realloc_calls = 0;
  out_of_range = 0;
}

abbrev entries : List ℕ
entries = 0x200 ∷ []

abbrev or_nothing : Option DisAnalysis → DisAnalysis
or_nothing none = nothing_known
or_nothing (some a) = a

final : DisAnalysis
final =
    or_nothing (
      analyze_run (some sample_cpu) sample_read granted (add_entries granted nothing_known entries))

final_runs :
    analyze_run (some sample_cpu) sample_read granted (add_entries granted nothing_known entries)
    ≡ some final
unfolding final analyze_run run_loop trace visit follow push room count_call mark_label add_entries
    analyze_add_entry dis_inst_len dis_flow_of dis_is_bit_branch dis_is_brk mode_len named_flow
    opcode_flow is_conditional absolute_target
final_runs = refl

-- The instructions at 0200, 0203, 0205, 0208 and 0209 are found, 0208 is a function with one
-- caller, 0200 is the target of a branch, and the jump to c000 is counted and not followed.
final_answers :
    (analyze_is_instruction (some final) 0x205 ≡ true)
    × (analyze_is_instruction (some final) 0x206 ≡ false)
    × (analyze_is_function (some final) 0x208 ≡ true)
    × (analyze_callers (some final) 0x208 ≡ 1)
    × (analyze_is_label (some final) 0x200 ≡ true)
    × (analyze_out_of_range (some final) ≡ 1)
unfolding final analyze_run run_loop trace visit follow push room count_call mark_label add_entries
    analyze_add_entry dis_inst_len dis_flow_of dis_is_bit_branch dis_is_brk mode_len named_flow
    opcode_flow is_conditional absolute_target
final_answers = (refl, refl, refl, refl, refl, refl)

new_sample : analyze_new true 0x200 0x209 ≡ some nothing_known
unfolding analyze_new
new_sample = refl

-- The first realloc fails, and the later ones do not.
abbrev second_granted : Realloc
second_granted zero = false
second_granted (suc call) = true

abbrev started : DisAnalysis
started = record nothing_known { work = 0x200 ∷ []; work_cap = 1 }

analyze_run_ends_example :
    (a' : DisAnalysis) × (analyze_run (some sample_cpu) sample_read second_granted started
      ≡ some a')
analyze_run_ends_example =
    analyze_run_ends second_granted (some sample_cpu) sample_read started (omega arith)

-- A push that is refused leaves the address for a later one.
full : DisAnalysis
full = record nothing_known { work = 0x207 ∷ []; work_cap = 1 }

refused_then_granted :
    ((push second_granted full 0x203).work ≡ 0x207 ∷ [])
    × ((push second_granted (push second_granted full 0x203) 0x203).work ≡ 0x203 ∷ 0x207 ∷ [])
unfolding full push room
refused_then_granted = (refl, refl)

analyze_run_decides_example :
    (a' : DisAnalysis) × (analyze_run
        (some sample_cpu)
        sample_read
        granted
        (add_entries granted nothing_known entries)
      ≡ some a')
    × ((x : ℕ)
        → (analyze_is_instruction (some a') x ≡ true)
          ↔ Reached sample_cpu sample_read 0x200 0x209 entries x)
analyze_run_decides_example =
    analyze_run_decides sample_cpu sample_read 0x200 0x209 granted entries nothing_known (λ n. refl)
      (omega arith) new_sample

abbrev Sites : (ℕ → ℕ → Bool) → ℕ → Type 0
Sites names x =
    (pc : ℕ) × Reached sample_cpu sample_read 0x200 0x209 entries pc × (names pc x ≡ true)

analyze_run_names_example :
    ((analyze_is_function (some final) 0x208 ≡ true) ↔ (
      (within 0x200 0x209 0x208 ≡ true)
      × ((mem 0x208 entries ≡ true) ⊎ Sites (calls sample_cpu sample_read) 0x208)))
    × ((analyze_is_label (some final) 0x208 ≡ true)
        ↔ ((within 0x200 0x209 0x208 ≡ true) × Sites (jumps sample_cpu sample_read) 0x208))
analyze_run_names_example =
    analyze_run_names sample_cpu sample_read 0x200 0x209 granted entries nothing_known (λ n. refl)
      (omega arith) new_sample final 0x208 final_runs

analyze_run_counts_example :
    (analyze_callers (some final) 0x208
      ≡ min 0xffff (marked final (λ pc. calls sample_cpu sample_read pc 0x208)))
    × (analyze_out_of_range (some final) ≡ marked final (strays sample_cpu sample_read 0x200 0x209))
analyze_run_counts_example =
    analyze_run_counts sample_cpu sample_read 0x200 0x209 granted entries nothing_known (λ n. refl)
      (omega arith) new_sample final 0x208 final_runs
