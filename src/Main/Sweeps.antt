-- ===== src/Main/Sweeps.antt =====
-- `main` in dis.c where it lists the range in one sweep.
use dis.Base.{
  ℕ, ◌+◌, ◌-◌, ◌⊎◌, if◌then◌else◌, ◌≡◌, subst, Bool, true, false, not, ◌||◌, Option, none, some,
  List, Bool-cases, inl, inr, u16, min,
}
use dis.Base.Text.{Text}
use dis.Cpu.{Model, VrEmu6502}
use dis.Memory.{mem_set_default_fill}
use dis.Disassemble.{Line, dis_init}
use dis.Disassemble.Range.{Tiles, dis_range-Tiles}
use dis.Analyze.{Realloc, analyze_new}
use dis.Main.Total.{LoadedIf, load_input-LoadedIf}
use dis.Main.{Settings, run, Program, swept, load_input, read_byte, show, serve, startup}

-- The number of bytes that main asks DisRange for.
abbrev pub sweep_len : Program → ℕ
sweep_len p = u16 (p.end + 65536 - p.base + 1)

-- The listing is to be linear, or it has no entry to start from.
abbrev pub is_flat : Settings → Program → Bool
is_flat s p = s.linear || (if p.have_entry then false else true)

module _ (vr_emu6502_new : Model → Option VrEmu6502) (calloc : Bool) (realloc : Realloc)
    (files : Text → Option (List ℕ)) (seeks : Bool) (stale : ℕ → ℕ) (s : Settings) (cpu : VrEmu6502)
    (p : Program) where
  -- With a handle, and a program that loads: if --linear is given, or there is no entry, or
  -- AnalyzeNew returns NULL, main shows the lines of DisRange, which tile the range from base, and
  -- marks them as the fallback exactly if neither of the first two is the case.
  pub main_sweeps :
      vr_emu6502_new s.model ≡ some cpu
      → load_input files seeks stale s.input_path (mem_set_default_fill startup 0) ≡ some (some p)
      → (is_flat s p ≡ true) ⊎ (analyze_new calloc p.base p.end ≡ none)
      → (lines : List Line) × (serve vr_emu6502_new calloc realloc files seeks stale (run s)
          ≡ some (swept (not (is_flat s p)) lines))
        × Tiles cpu (read_byte p.memory) (min (p.base + sweep_len p) 65536) p.base lines
  unfolding show dis_init
  main_sweeps new loads flat =
      let (q, loads', fits) = load_input-LoadedIf files seeks stale s.input_path in
      let same : q ≡ some p = cc in
      let ok = subst LoadedIf same fits in
      let (lines, runs, tiles) =
        dis_range-Tiles cpu (read_byte p.memory) p.base (sweep_len p) ok.1 in
      elim (Bool-cases (is_flat s p)) [
        | inl linear ↦ (lines, simp (loads, new, linear, runs), tiles)
        | inr follow ↦ elim flat [
          | inl linear ↦ let wrong = rw follow at linear in cc
          | inr refused ↦ (lines, simp (loads, new, follow, refused, runs), tiles)
        ]
      ]
