-- ===== src/Main/Mapped.antt =====
-- What `main` in dis.c hands to the reader of a file, and what it lists of a loaded program.
use dis.Base.{ℕ, ◌<◌, ◌≡◌, ◌↔◌, refl, arith, true, false, Option, some, List, [], ◌∷◌}
use dis.Cpu.{VrEmu6502}
use dis.Memory.{
  Memory, map_ram, caller, add_region, mem_read, mem_set_default_fill, find_region, read_found,
  read_type, load,
}
use dis.Rp6502file.Image.{IsImage}
use dis.Analyze.{DisAnalysis, analyze_is_instruction, analyze_out_of_range}
use dis.Analyze.Spec.{Reached}
use dis.Listing.{Item}
use dis.Listing.Pieces.{Covers}
use dis.Main.Total.{image-IsValid, startup-IsValid}
use dis.Main.{Outcome, analyzed, startup}

-- The memory before a file is read.
abbrev pub mapped : Memory
mapped = (map_ram (mem_set_default_fill startup 0) 0 (caller 0) 0xffff).0

pub mapped-IsImage : IsImage mapped
mapped-IsImage = (
  image-IsValid (mem_set_default_fill startup 0) (unfold mem_set_default_fill in refl)
      startup-IsValid,
  unfold map_ram add_region mem_set_default_fill in refl,
)

pub mapped-zero : (y : ℕ) → y < 65536 → mem_read mapped y ≡ some 0
unfolding map_ram add_region mem_set_default_fill mem_read find_region read_found read_type load
mapped-zero y fits = ground (arith, fits)

-- The outcome is the analyzed listing of the range.
abbrev pub ListsRange : VrEmu6502 → (ℕ → ℕ) → Option Outcome → ℕ → ℕ → Type 0
ListsRange cpu read outcome base end =
    (a : DisAnalysis) × (items : List Item) × (outcome
      ≡ some (analyzed (analyze_out_of_range (some a)) items))
    × Covers a end base cpu read false base items
    × ((x : ℕ)
        → (analyze_is_instruction (some a) x ≡ true) ↔ Reached cpu read base end (base ∷ []) x)
