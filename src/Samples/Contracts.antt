-- ===== src/Samples/Contracts.antt =====
-- The contracts of the two headers, and the blocks of an analysis, at concrete inputs.
use dis.Base.{
  ℕ, ◌≡◌, ◌⊎◌, refl, arith, true, false, ◌||◌, ◌==◌, if◌then◌else◌, Option, some, none, List, [],
  ◌∷◌,
}
use dis.Cpu.{Model, VrEmu6502}
use dis.Disassemble.{dis_range}
use dis.Disassemble.Reads.{dis_range_reads}
use dis.Analyze.{
  DisAnalysis, Realloc, analyze_new, analyze_run, run_loop, trace, visit, follow, push, room,
  count_call, mark_label, analyze_add_entry, analyze_is_instruction, analyze_is_function,
  analyze_is_label, analyze_callers, analyze_out_of_range,
}
use dis.Disassemble.{
  dis_inst_len, dis_flow_of, dis_is_bit_branch, dis_is_brk, mode_len, named_flow, opcode_flow,
  is_conditional, absolute_target,
}
use dis.Analyze.Seeds.{add_entries}
use dis.Analyze.Unordered.{analyze_run_unordered}
use dis.Analyze.Blocks.{
  other, Heap, Owned, analyze_free, analyze_new_blocks, grow_all, analyze_free-restores,
}
use dis.Samples.{sample_cpu, sample_read}

abbrev granted : Realloc
granted call = true

abbrev fresh : DisAnalysis
fresh = record {
  lo = 0x200;
  hi = 0x209;
  flags = λ _. record { instruction = false; function = false; label = false; queued = false };
  callers = λ _. 0;
  work = [];
  work_cap = 0;
  realloc_calls = 0;
  out_of_range = 0;
}

fresh_new : analyze_new true 0x200 0x209 ≡ some fresh
unfolding analyze_new
fresh_new = refl

abbrev entries : List ℕ
entries = 0x200 ∷ 0x205 ∷ []

abbrev swapped : List ℕ
swapped = 0x205 ∷ 0x200 ∷ 0x205 ∷ []

abbrev or_fresh : Option DisAnalysis → DisAnalysis
or_fresh none = fresh
or_fresh (some a) = a

abbrev run_from : List ℕ → Option DisAnalysis
run_from es = analyze_run (some sample_cpu) sample_read granted (add_entries granted fresh es)

final : List ℕ → DisAnalysis
final es = or_fresh (run_from es)

entries_run : run_from entries ≡ some (final entries)
unfolding final analyze_run run_loop trace visit follow push room count_call mark_label add_entries
    analyze_add_entry dis_inst_len dis_flow_of dis_is_bit_branch dis_is_brk mode_len named_flow
    opcode_flow is_conditional absolute_target
entries_run = refl

swapped_run : run_from swapped ≡ some (final swapped)
unfolding final analyze_run run_loop trace visit follow push room count_call mark_label add_entries
    analyze_add_entry dis_inst_len dis_flow_of dis_is_bit_branch dis_is_brk mode_len named_flow
    opcode_flow is_conditional absolute_target
swapped_run = refl

abbrev Alike : DisAnalysis → DisAnalysis → ℕ → Type 0
Alike b b' x =
    (analyze_is_instruction (some b) x ≡ analyze_is_instruction (some b') x)
    × (analyze_is_function (some b) x ≡ analyze_is_function (some b') x)
    × (analyze_is_label (some b) x ≡ analyze_is_label (some b') x)
    × (analyze_callers (some b) x ≡ analyze_callers (some b') x)
    × (analyze_out_of_range (some b) ≡ analyze_out_of_range (some b'))

analyze_run_unordered_example : Alike (final entries) (final swapped) 0x208
analyze_run_unordered_example =
    analyze_run_unordered sample_cpu sample_read 0x200 0x209 granted entries swapped fresh
      (final entries) (final swapped) 0x208 (λ n. refl) (omega arith) fresh_new (λ y. ground arith)
      entries_run swapped_run

abbrev heap : Heap
heap = other 1 ∷ other 2 ∷ []

analyze_free-restores_example :
    (analyze_new_blocks true true true heap ≡ some (none, heap))
    ⊎ ((o : Owned) × (h : Heap) × (analyze_new_blocks true true true heap ≡ some (some o, h))
        × (analyze_free
              (some (grow_all (false ∷ true ∷ true ∷ []) o h).0)
              (grow_all (false ∷ true ∷ true ∷ []) o h).1
            ≡ some heap))
analyze_free-restores_example = analyze_free-restores true true true (false ∷ true ∷ true ∷ []) heap

abbrev given : Model → Option VrEmu6502
given model = some sample_cpu

-- Another memory, with the same 8 bytes from 0200 on.
abbrev other_read : ℕ → ℕ
other_read a = if a == 0x208 || a == 0x1ff then 7 else sample_read a

dis_range_reads_example :
    dis_range (some sample_cpu) 0x200 6 sample_read ≡ dis_range (some sample_cpu) 0x200 6 other_read
dis_range_reads_example =
    dis_range_reads sample_cpu sample_read other_read 0x200 6 (omega arith) (λ i lt. ground arith)
