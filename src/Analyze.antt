-- ===== src/Analyze.antt =====
-- analyze.c: the recursive-descent traversal that separates code from data.
-- The arrays of 0x10000 entries are functions of an address, the bits of a flag byte are the
-- fields of a record, and the worklist holds its top first.
pub mod Spec
pub mod Push
pub mod Inv
pub mod Visit
pub mod Total
pub mod Run
pub mod Seeds
pub mod Correct
pub mod Contract
pub mod Unordered
pub mod Blocks
use Prim.Native.Nat.{max}
use dis.Base.{
  ℕ, zero, suc, ◌+◌, ◌-◌, ◌*◌, Bool, true, false, not, ◌&&◌, ◌||◌, Option, none, some, List, [],
  ◌∷◌, ltb, leb, ◌==◌, if◌then◌else◌, u16, u32, length,
}
use dis.Base.Table.{update}
use dis.Cpu.{VrEmu6502}
use dis.Disassemble.{
  DisFlow, normal, call, jump, branch, return, indirect, dis_inst_len, dis_flow_of,
}
use mathlib.Core.Option

-- `F_INSTRUCTION`, `F_FUNCTION`, `F_LABEL` and `F_QUEUED`
pub record Flags : Type 0 where
  pub instruction : Bool
  pub function : Bool
  pub label : Bool
  pub queued : Bool

-- `struct DisAnalysis`, without `read`, which is an argument. `work` is `work[0 .. workLen)`, its
-- last entry first, and `work_cap` the room that was allocated for it. `realloc_calls` counts the
-- calls of `realloc` so far, which the program does not keep.
pub record DisAnalysis : Type 0 where
  pub lo : ℕ
  pub hi : ℕ
  pub flags : ℕ → Flags
  pub callers : ℕ → ℕ
  pub work : List ℕ
  pub work_cap : ℕ
  pub realloc_calls : ℕ
  pub out_of_range : ℕ

-- `inRange`
abbrev pub in_range : DisAnalysis → ℕ → Bool
in_range a addr = leb a.lo addr && leb addr a.hi

-- The outcome of each `realloc` call, by its number.
abbrev pub Realloc : Type 0
Realloc = ℕ → Bool

-- The growth of the worklist in `push`: the capacity with which one more entry fits, or `none` if
-- the memory for it is refused.
unfoldable pub room : Realloc → DisAnalysis → Option ℕ
room realloc a =
    let cap = if a.work_cap == 0 then 256 else a.work_cap * 2 in
    if length a.work == a.work_cap
    then if realloc a.realloc_calls then some cap else none
    else some a.work_cap

-- The number of the next call of `realloc` behind a growth, which calls it where the list is full.
abbrev next_call : DisAnalysis → ℕ
next_call a = if length a.work == a.work_cap then a.realloc_calls + 1 else a.realloc_calls

-- The last two statements of `push`.
abbrev enqueue : DisAnalysis → ℕ → Option ℕ → DisAnalysis
enqueue a addr none = record a { realloc_calls = next_call a }
enqueue a addr (some cap) = record a {
  flags = update a.flags addr (record (a.flags addr) { queued = true });
  work = addr ∷ a.work;
  work_cap = cap;
  realloc_calls = next_call a;
}

-- `push`
unfoldable pub push : Realloc → DisAnalysis → ℕ → DisAnalysis
push realloc a addr =
    if not (in_range a addr)
    then record a { out_of_range = u32 (a.out_of_range + 1) }
    else if (a.flags addr).queued
    then a
    else enqueue a addr (room realloc a)

-- `AnalyzeNew` for a `read` that is not NULL. `calloc` says whether the three allocations succeed.
unfoldable pub analyze_new : Bool → ℕ → ℕ → Option DisAnalysis
analyze_new calloc lo hi =
    if ltb hi lo
    then none
    else if calloc
    then some (record {
      lo = lo;
      hi = hi;
      flags = λ _. record { instruction = false; function = false; label = false; queued = false };
      callers = λ _. 0;
      work = [];
      work_cap = 0;
      realloc_calls = 0;
      out_of_range = 0;
    })
    else none

-- `a->flags[addr] |= F_FUNCTION`, and so for the other two.
abbrev pub set_function : DisAnalysis → ℕ → DisAnalysis
set_function a addr = record a {
  flags = update a.flags addr (record (a.flags addr) { function = true });
}

abbrev pub set_label : DisAnalysis → ℕ → DisAnalysis
set_label a addr = record a { flags = update a.flags addr (record (a.flags addr) { label = true }) }

abbrev pub set_instruction : DisAnalysis → ℕ → DisAnalysis
set_instruction a addr = record a {
  flags = update a.flags addr (record (a.flags addr) { instruction = true });
}

-- `AnalyzeAddEntry`
unfoldable pub analyze_add_entry : Realloc → DisAnalysis → ℕ → DisAnalysis
analyze_add_entry realloc a addr =
    if in_range a addr then push realloc (set_function a addr) addr else a

-- `F_FUNCTION` and the saturating count for the target of a call.
unfoldable pub count_call : DisAnalysis → ℕ → DisAnalysis
count_call a target =
    let a' = set_function a target in
    if in_range a target
    then if ltb (a.callers target) 0xffff
      then record a' { callers = update a.callers target (a.callers target + 1) }
      else a'
    else a

unfoldable pub mark_label : DisAnalysis → ℕ → DisAnalysis
mark_label a target = if in_range a target then set_label a target else a

-- What the loop body does with the flow of the instruction that it has just marked.
unfoldable pub follow : Realloc → DisAnalysis → DisFlow → ℕ → DisAnalysis
follow realloc a call target = push realloc (count_call a target) target
follow realloc a jump target = push realloc (mark_label a target) target
follow realloc a branch target = push realloc (mark_label a target) target
follow realloc a normal target = a
follow realloc a return target = a
follow realloc a indirect target = a

-- "nothing falls through"
abbrev pub ends_trace : DisFlow → Bool
ends_trace jump = true
ends_trace return = true
ends_trace indirect = true
ends_trace _ = false

module _ (dis_cpu : Option VrEmu6502) (read : ℕ → ℕ) where
  abbrev pub len_at : ℕ → ℕ
  len_at pc = dis_inst_len dis_cpu (read pc)

  abbrev pub kind_at : ℕ → DisFlow
  kind_at pc = (dis_flow_of dis_cpu pc read).kind

  -- `target`, which is 0 where `DisFlowOf` leaves it alone.
  abbrev pub target_at : ℕ → ℕ
  target_at pc = Option.get_or (dis_flow_of dis_cpu pc read).target 0

-- A trace goes up, so 0x10000 instructions and one test end it.
abbrev pub trace_fuel : ℕ
trace_fuel = 0x10001

module _ (dis_cpu : Option VrEmu6502) (read : ℕ → ℕ) (realloc : Realloc) where
  -- The inner loop's body up to the test whether the trace ends.
  unfoldable pub visit : DisAnalysis → ℕ → DisAnalysis
  visit a pc =
      follow realloc (set_instruction a pc) (kind_at dis_cpu read pc) (target_at dis_cpu read pc)

  -- The inner loop from `pc`, or `none` out of fuel.
  unfoldable pub trace : ℕ → DisAnalysis → ℕ → Option DisAnalysis
  trace zero a pc = none
  trace (suc fuel) a pc =
      let next = u16 (pc + len_at dis_cpu read pc) in
      let rest = trace fuel (visit a pc) next in
      if not (in_range a pc)
      then some a
      else if (a.flags pc).instruction
      then some a
      else if len_at dis_cpu read pc == 0
      then some a
      else if ends_trace (kind_at dis_cpu read pc)
      then some (visit a pc)
      else if ltb next pc
      then some (visit a pc)
      else rest

  -- The outer loop, or `none` out of fuel.
  unfoldable pub run_loop : ℕ → DisAnalysis → Option DisAnalysis
  run_loop zero a = none
  run_loop (suc fuel) a = elim a.work [
    | [] ↦ some a
    | pc ∷ work ↦ elim (trace trace_fuel (record a { work = work }) pc) [
      | none ↦ none
      | some traced ↦ run_loop fuel traced
    ]
  ]

  -- `AnalyzeRun`. Each address is queued once, so the entries at hand, 0x10000 more and one test
  -- are enough.
  unfoldable pub analyze_run : DisAnalysis → Option DisAnalysis
  analyze_run a = run_loop (length a.work + 0x10001) a

-- The queries, where `none` is a NULL analysis.
abbrev pub analyze_is_instruction : Option DisAnalysis → ℕ → Bool
analyze_is_instruction none addr = false
analyze_is_instruction (some a) addr = (a.flags addr).instruction

abbrev pub analyze_is_function : Option DisAnalysis → ℕ → Bool
analyze_is_function none addr = false
analyze_is_function (some a) addr = (a.flags addr).function

abbrev pub analyze_is_label : Option DisAnalysis → ℕ → Bool
analyze_is_label none addr = false
analyze_is_label (some a) addr = (a.flags addr).label

abbrev pub analyze_callers : Option DisAnalysis → ℕ → ℕ
analyze_callers none addr = 0
analyze_callers (some a) addr = a.callers addr

abbrev pub analyze_out_of_range : Option DisAnalysis → ℕ
analyze_out_of_range none = 0
analyze_out_of_range (some a) = a.out_of_range
