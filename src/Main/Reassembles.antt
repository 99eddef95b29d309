-- ===== src/Main/Reassembles.antt =====
-- What the text of a linear listing says of the memory.
use dis.Base.{
  ℕ, suc, ◌+◌, ◌<◌, ◌≤◌, ◌≡◌, ◌⊎◌, sym, subst, arith, Bool, true, not, Option, none, some, List, [],
  ◌∷◌, get_or, length, map, min, u16, All,
}
use dis.Base.Text.{Text}
use dis.Cpu.{Model, VrEmu6502}
use dis.Memory.{mem_set_default_fill}
use dis.Disassemble.{Line}
use dis.Disassemble.Length.{dis_inst_len_bounds}
use dis.Disassemble.Range.{Tiles}
use dis.Analyze.{Realloc, analyze_new}
use dis.Main.Prints.{stdout_text}
use dis.Main.ReadBack.{IsByte, IsShown, IsPrinted, parse_listing, said, parse_listing-lines_text}
use dis.Main.Shown.{HasShownNames, composed-IsShown}
use dis.Main.Sweeps.{sweep_len, is_flat, main_sweeps}
use dis.Main.{Settings, run, Program, Outcome, swept, load_input, read_byte, serve, startup}

-- Addresses with bytes, one behind the other from `pc` to `stop` or past it, and the bytes are what
-- is read there.
abbrev pub Restores : (ℕ → ℕ) → ℕ → ℕ → List (ℕ × List ℕ) → Type 0
Restores read stop pc [] = stop ≤ pc
Restores read stop pc (x ∷ xs) =
    (x.0 ≡ pc)
    × (pc < stop)
    × (1 ≤ length x.1)
    × ((i : ℕ) → i < length x.1 → get_or x.1 i 0 ≡ read (u16 (pc + i)))
    × Restores read stop (pc + length x.1) xs

All-IsByte :
    (bytes : List ℕ) → ((i : ℕ) → i < length bytes → get_or bytes i 0 < 256) → All IsByte bytes
All-IsByte [] each = tt
All-IsByte (b ∷ bytes) each =
    (each 0 (omega arith), All-IsByte bytes (λ i lt. each (suc i) (omega (arith, lt))))

module _ (cpu : VrEmu6502) (read : ℕ → ℕ) (named : HasShownNames cpu)
    (small : (x : ℕ) → read x < 256) where
  Tiles-IsPrinted :
      (stop pc : ℕ) (lines : List Line)
      → stop ≤ 65536
      → Tiles cpu read stop pc lines
      → All IsPrinted lines
  Tiles-IsPrinted stop pc [] top tiles = tt
  Tiles-IsPrinted stop pc (l ∷ lines) top (addr, before, (size, bytes), text, tiles) =
      let (low, high, _) = dis_inst_len_bounds cpu (read pc) in
      (
        (
          omega (arith, addr, before),
          omega (arith, size, low),
          omega (arith, size, high),
          All-IsByte l.bytes (λ i lt. rw (bytes i lt) (small (u16 (pc + i)))),
          subst (All IsShown) (sym text) (composed-IsShown cpu pc 47 read named),
        ),
        Tiles-IsPrinted stop (pc + length l.bytes) lines top tiles,
      )

  Tiles-Restores :
      (stop pc : ℕ) (lines : List Line)
      → Tiles cpu read stop pc lines
      → Restores read stop pc (map said lines)
  Tiles-Restores stop pc [] tiles = tiles
  Tiles-Restores stop pc (l ∷ lines) (addr, before, (size, bytes), text, tiles) =
      let (low, _, _) = dis_inst_len_bounds cpu (read pc) in
      (
        addr,
        before,
        omega (arith, size, low),
        bytes,
        Tiles-Restores stop (pc + length l.bytes) lines tiles,
      )

module _ (vr_emu6502_new : Model → Option VrEmu6502) (calloc : Bool) (realloc : Realloc)
    (files : Text → Option (List ℕ)) (seeks : Bool) (stale : ℕ → ℕ) (s : Settings) (cpu : VrEmu6502)
    (p : Program) where
  -- With a handle whose mnemonics have no newline, a program in a memory of bytes, and --linear,
  -- no entry, or AnalyzeNew returning NULL: main prints text on stdout that gives the program
  -- back. Cut at the newlines and read at its columns, it has addresses that begin at base and
  -- follow each other up to the end of the range or past it, each with some bytes, and these are
  -- what MemRead gives there, at addresses that wrap to 16 bits.
  pub main_sweeps_text :
      vr_emu6502_new s.model ≡ some cpu
      → load_input files seeks stale s.input_path (mem_set_default_fill startup 0) ≡ some (some p)
      → (is_flat s p ≡ true) ⊎ (analyze_new calloc p.base p.end ≡ none)
      → HasShownNames cpu
      → ((x : ℕ) → read_byte p.memory x < 256)
      → (o : Outcome) × (serve vr_emu6502_new calloc realloc files seeks stale (run s) ≡ some o)
        × Restores
            (read_byte p.memory)
            (min (p.base + sweep_len p) 65536)
            p.base
            (parse_listing (stdout_text o))
  unfolding stdout_text
  main_sweeps_text new loads flat named small =
      let (lines, serves, tiles) =
        main_sweeps vr_emu6502_new calloc realloc files seeks stale s cpu p new loads flat in
      let stop = min (p.base + sweep_len p) 65536 in
      let read = read_byte p.memory in
      let printed = Tiles-IsPrinted cpu read named small stop p.base lines (omega arith) tiles in
      (
        swept (not (is_flat s p)) lines,
        serves,
        subst (Restores read stop p.base) (sym (parse_listing-lines_text lines printed))
            (Tiles-Restores cpu read named small stop p.base lines tiles),
      )
