-- ===== src/Main/Lists.antt =====
-- `main` in dis.c: the listing of a loaded program, end to end.
use dis.Base.{ℕ, ◌≤◌, ◌≡◌, ◌↔◌, subst, Bool, true, false, Option, some, List, [], ◌∷◌}
use dis.Base.Text.{Text}
use dis.Cpu.{Model, VrEmu6502}
use dis.Memory.{mem_set_default_fill}
use dis.Disassemble.{dis_init}
use dis.Analyze.{
  DisAnalysis, Realloc, analyze_add_entry, analyze_run, analyze_is_instruction,
  analyze_out_of_range,
}
use dis.Analyze.Spec.{Reached}
use dis.Analyze.Contract.{new_total}
use dis.Analyze.Seeds.{add_entries}
use dis.Analyze.Correct.{analyze_run_decides}
use dis.Listing.{Item}
use dis.Listing.Pieces.{Covers}
use dis.Listing.Covers.{print_analyzed-Covers}
use dis.Main.Total.{LoadedIf, load_input-LoadedIf}
use dis.Main.{
  Settings, run, Program, analyzed, load_input, read_byte, analyze_program, show, serve, startup,
}

module _ (vr_emu6502_new : Model → Option VrEmu6502) (realloc : Realloc)
    (grows : (n : ℕ) → realloc n ≡ true) (files : Text → Option (List ℕ)) (seeks : Bool)
    (stale : ℕ → ℕ) (s : Settings) (cpu : VrEmu6502) (p : Program) where
  -- With a handle, every allocation granted, no --linear, and a file that loads with its entry at
  -- or before its end: main lists the range of the file, the listing covers it, and an address is
  -- a start of the listing exactly if control flow reaches it from the entry inside the range.
  pub main_lists :
      vr_emu6502_new s.model ≡ some cpu
      → s.linear ≡ false
      → load_input files seeks stale s.input_path (mem_set_default_fill startup 0) ≡ some (some p)
      → p.have_entry ≡ true
      → p.base ≤ p.end
      → (a : DisAnalysis) × (items : List Item) × (serve vr_emu6502_new true realloc files seeks
            stale
            (run s)
          ≡ some (analyzed (analyze_out_of_range (some a)) items))
        × Covers a p.end p.base cpu (read_byte p.memory) false p.base items
        × ((x : ℕ)
            → (analyze_is_instruction (some a) x ≡ true)
              ↔ Reached cpu (read_byte p.memory) p.base p.end (p.base ∷ []) x)
  unfolding show analyze_program dis_init
  main_lists new flat loads entry order =
      let read = read_byte p.memory in
      let (q, loads', fits) = load_input-LoadedIf files seeks stale s.input_path in
      let same : q ≡ some p = cc in
      let top = (subst LoadedIf same fits).2 in
      let (a, made) = new_total p.base p.end order in
      let (a', runs, found) =
        analyze_run_decides cpu read p.base p.end realloc (p.base ∷ []) a grows top made in
      let runs' : analyze_run (some cpu) read realloc (analyze_add_entry realloc a p.base)
          ≡ some a' =
        unfold add_entries in runs in
      let (items, prints, covers) = print_analyzed-Covers a' p.end p.base cpu read p.base top in
      (a', items, simp (loads, new, flat, entry, made, runs', prints), covers, found)
