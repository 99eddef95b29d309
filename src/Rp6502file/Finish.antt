-- ===== src/Rp6502file/Finish.antt =====
-- `readRp6502File` behind the chunk loop: the memory and the error.
use dis.Base.{
  ◌≡◌, refl, ◌∙◌, arith, ℕ, Bool, true, false, not, ◌&&◌, Option, none, some, if◌then◌else◌,
}
use dis.Rp6502file.Read.{
  Loading, Reading, RomError, start_at, start_with, failed, finish, described, reset_vector,
}

abbrev refused_unless : Bool → Option RomError
refused_unless code = if code then none else some RomError.no_code

-- The memory is left alone, and the error is that there is no code, or none.
abbrev Concludes : Loading → Bool → Reading → Type 0
Concludes s code r = (r.loading.memory ≡ s.memory) × (r.error ≡ refused_unless code)

start_at-Concludes : (s : Loading) (vector : Option ℕ) → Concludes s true (start_at s vector)
start_at-Concludes s none = (refl, refl)
start_at-Concludes s (some v) = (ground arith, ground arith)

start_with-Concludes :
    (s : Loading) (vector : Option ℕ) (r : Reading)
    → start_with s vector ≡ some r
    → Concludes s true r
start_with-Concludes s none r done = cc
start_with-Concludes s (some v) r done =
    let same : start_at s (some v) ≡ r = cc in rw (← same) (start_at-Concludes s (some v))

outcome-Concludes :
    (code given : Bool) (s t : Loading) (vector : Option ℕ) (r : Reading)
    → t.memory ≡ s.memory
    → (if not code
        then some (failed RomError.no_code s)
        else if given
        then start_with t vector
        else some (start_at t none))
      ≡ some r
    → Concludes s code r
outcome-Concludes false given s t vector r kept done =
    let same : failed RomError.no_code s ≡ r = cc in rw (← same) (refl, refl)
outcome-Concludes true true s t vector r kept done =
    let (memory, error) = start_with-Concludes t vector r done in (memory ∙ kept, error)
outcome-Concludes true false s t vector r kept done =
    let same : start_at t none ≡ r = cc in rw (← same) (kept, refl)

-- What follows the loop leaves the memory alone, and refuses the file if there is no code.
pub finish_lem :
    (s : Loading) (r : Reading)
    → finish s ≡ some r
    → (r.loading.memory ≡ s.memory)
      × (r.error ≡ (if s.have_code then none else some RomError.no_code))
unfolding finish
finish_lem s r done =
    outcome-Concludes s.have_code (s.reset_lo && s.reset_hi) s (described s) (reset_vector s.memory)
      r refl done
