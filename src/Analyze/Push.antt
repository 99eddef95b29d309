-- ===== src/Analyze/Push.antt =====
-- One `push`, and what the loop body does at an instruction, entry by entry.
use dis.Base.{
  ℕ, ◌+◌, ◌≡◌, arith, true, not, ◌&&◌, ◌||◌, some, ◌*◌, Bool-cases, inl, inr, ltb, ◌==◌,
  if◌then◌else◌, u32, length,
}
use dis.Disassemble.{DisFlow, call, jump, branch}
use dis.Disassemble.Flow.{has_target}
use dis.Analyze.{DisAnalysis, Realloc, in_range, room, push, count_call, mark_label, follow}
use dis.Analyze.Spec.{is_call, is_local, mem}

-- What a push of `t` makes of the entries of `x`, where the memory is given.
pub record Pushed (a a' : DisAnalysis) (t x : ℕ) : Type 0 where
  pub lo : a'.lo ≡ a.lo
  pub hi : a'.hi ≡ a.hi
  pub instruction : (a'.flags x).instruction ≡ (a.flags x).instruction
  pub function : (a'.flags x).function ≡ (a.flags x).function
  pub label : (a'.flags x).label ≡ (a.flags x).label
  pub queued : (a'.flags x).queued ≡ ((a.flags x).queued || t == x && in_range a t)
  pub callers : a'.callers x ≡ a.callers x
  pub work : mem x a'.work ≡ (mem x a.work || t == x && in_range a t && not (a.flags t).queued)
  pub out_of_range :
      a'.out_of_range ≡ (if in_range a t then a.out_of_range else u32 (a.out_of_range + 1))

-- What following an instruction of that kind with target `t` makes of the entries of `x`.
pub record Followed (kind : DisFlow) (a a' : DisAnalysis) (t x : ℕ) : Type 0 where
  pub lo : a'.lo ≡ a.lo
  pub hi : a'.hi ≡ a.hi
  pub instruction : (a'.flags x).instruction ≡ (a.flags x).instruction
  pub function :
      (a'.flags x).function ≡ ((a.flags x).function || is_call kind && t == x && in_range a t)
  pub label : (a'.flags x).label ≡ ((a.flags x).label || is_local kind && t == x && in_range a t)
  pub queued :
      (a'.flags x).queued ≡ ((a.flags x).queued || has_target kind && t == x && in_range a t)
  pub callers : a'.callers x ≡ (
      if is_call kind && t == x && in_range a t && ltb (a.callers x) 0xffff
      then a.callers x + 1
      else a.callers x)
  pub work :
      mem x a'.work
      ≡ (mem x a.work || has_target kind && t == x && in_range a t && not (a.flags t).queued)
  pub out_of_range :
      a'.out_of_range
      ≡ (if has_target kind && not (in_range a t) then u32 (a.out_of_range + 1) else a.out_of_range)

module _ (realloc : Realloc) (grows : (n : ℕ) → realloc n ≡ true) where
  room_given : (a : DisAnalysis) → (cap : ℕ) × (room realloc a ≡ some cap)
  unfolding room
  room_given a =
      let cap = if a.work_cap == 0 then 256 else a.work_cap * 2 in
      elim (Bool-cases (length a.work == a.work_cap)) [
        | inl full ↦ (cap, rw (full, grows a.realloc_calls))
        | inr free ↦ (a.work_cap, rw free)
      ]

  pub push-Pushed : (a : DisAnalysis) (t x : ℕ) → Pushed a (push realloc a t) t x
  unfolding push
  push-Pushed a t x = ground (arith, (room_given a).1)

  pub follow-Followed :
      (kind : DisFlow) (a : DisAnalysis) (t x : ℕ) → Followed kind a (follow realloc a kind t) t x
  unfolding follow count_call mark_label
  follow-Followed call a t x = ground (arith, push-Pushed (count_call a t) t x)
  follow-Followed jump a t x = ground (arith, push-Pushed (mark_label a t) t x)
  follow-Followed branch a t x = ground (arith, push-Pushed (mark_label a t) t x)
  follow-Followed _ a t x = ground arith
