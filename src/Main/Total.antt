-- ===== src/Main/Total.antt =====
-- `main` in dis.c on every command line, file and outcome of the allocations.
use dis.Base.{
  ℕ, ◌+◌, ◌-◌, ◌≤◌, ◌<◌, ◌≡◌, inl, inr, refl, arith, Bool, true, false, ◌||◌, Option, none, some,
  List, ◌==◌, if◌then◌else◌, u16, Bool-cases,
}
use mathlib.Core.Option
use dis.Base.Text.{Text}
use dis.Cpu.{Model, VrEmu6502}
use dis.Memory.{Memory, caller, map_ram, mem_set_default_fill, mem_read}
use dis.Memory.Valid.{IsValid, map-IsValid, accesses-IsValid}
use dis.Disassemble.{dis_init}
use dis.Disassemble.Range.{dis_range-Tiles}
use dis.Analyze.{
  DisAnalysis, Realloc, analyze_new, analyze_add_entry, set_function, analyze_out_of_range,
}
use dis.Analyze.Total.{push-Shrinks, analyze_run_ends}
use dis.Rp6502file.Read.{Reading, RomError, is_rp6502_file, vector_base}
use dis.Rp6502file.Total.{read_rp6502_file-IsGood}
use dis.Hexfile.{HexReading}
use dis.Hexfile.Total.{read_hex_file_lem}
use dis.Listing.Covers.{print_analyzed-Covers}
use dis.Main.{
  Settings, Request, run, help, bad_cpu, unknown_option, Program, Outcome, usage, refused_cpu,
  refused_option, not_loaded, swept, analyzed, program_if_read, program_of_rom, program_of_hex,
  demo_program, load_file, load_input, read_byte, sweep, analyze_program, analyze_or_sweep, show,
  show_input, serve, startup, parse_args, defaults, main, exit_code,
}

-- A program at 16-bit addresses in a valid memory.
abbrev pub IsLoaded : Program → Type 0
IsLoaded p = IsValid p.memory × (p.base < 65536) × (p.end < 65536)

abbrev pub LoadedIf : Option Program → Type 0
LoadedIf none = Unit {0}
LoadedIf (some p) = IsLoaded p

-- A byte that is read in a valid memory is the byte that is there.
pub read_byte-some :
    (m : Memory) (y : ℕ) → IsValid m → y < 65536 → mem_read m y ≡ some (read_byte m y)
read_byte-some m y ok fits = let ((v, reads), _) = accesses-IsValid m y 0 fits ok in rw reads refl

pub image-IsValid :
    (m : Memory)
    → (m.buffers (caller 0)).size ≡ 0xffff
    → IsValid m
    → IsValid (map_ram m 0 (caller 0) 0xffff).0
image-IsValid m size ok =
    (map-IsValid m 0 0xffff 0 (caller 0) (omega arith) (omega arith) (omega arith) refl
      (omega (arith, size)) ok).1

program_if_read-LoadedIf :
    (e : Option RomError) (r : Reading)
    → IsValid r.loading.memory
    → (e ≡ none → (r.loading.out.entry ≤ r.loading.out.end) × (r.loading.out.end < vector_base))
    → LoadedIf (program_if_read e r)
program_if_read-LoadedIf none r ok range =
    let (entry, end) = range refl in (ok, omega arith, omega arith)
program_if_read-LoadedIf (some e) r ok range = tt

program_of_hex-LoadedIf :
    (r : HexReading)
    → IsValid r.memory
    → r.address < 65536
    → Option.get_or r.end 0 < 65536
    → LoadedIf (program_of_hex r)
program_of_hex-LoadedIf r ok address end = elim (Bool-cases (r.address == 0)) [
  | inl zero ↦ rw zero tt
  | inr nonzero ↦ rw nonzero (ok, address, end)
]

pub startup-IsValid : IsValid (mem_set_default_fill startup 0)
unfolding mem_set_default_fill
startup-IsValid = tt

load_file-LoadedIf :
    (files : Text → Option (List ℕ)) (seeks : Bool) (stale : ℕ → ℕ) (path : Text) (m : Memory)
    → (m.buffers (caller 0)).size ≡ 0xffff
    → IsValid m
    → (p : Option Program) × (load_file files seeks stale path m ≡ some p) × LoadedIf p
unfolding load_file
load_file-LoadedIf files seeks stale path m size ok =
    let m' = (map_ram m 0 (caller 0) 0xffff).0 in
    let ok' = image-IsValid m size ok in
    elim (Bool-cases (is_rp6502_file (files path))) [
      | inl rom ↦
          let (r, reads, good) = read_rp6502_file-IsGood seeks (files path) m' ok' in
          (program_of_rom r, rw (rom, reads), program_if_read-LoadedIf r.error r good.0 good.2)
      | inr hex ↦
          let (r, reads, kept, address, last) = read_hex_file_lem stale (files path) m' ok' in
          (program_of_hex r, rw (hex, reads), program_of_hex-LoadedIf r kept.0 address last)
    ]

demo-IsLoaded : IsLoaded (demo_program (mem_set_default_fill startup 0))
unfolding demo_program mem_set_default_fill
demo-IsLoaded = (
  (map-IsValid startup 0x200 12 0 (caller 1) (omega arith) (omega arith) (omega arith) refl
      (omega arith) tt).0,
  omega arith,
  omega arith,
)

pub load_input-LoadedIf :
    (files : Text → Option (List ℕ)) (seeks : Bool) (stale : ℕ → ℕ) (path : Option Text)
    → (p : Option Program) × (load_input files seeks stale path (mem_set_default_fill startup 0)
        ≡ some p)
      × LoadedIf p
unfolding load_input
load_input-LoadedIf files seeks stale none =
    (some (demo_program (mem_set_default_fill startup 0)), refl, demo-IsLoaded)
load_input-LoadedIf files seeks stale (some path) =
    load_file-LoadedIf files seeks stale path (mem_set_default_fill startup 0)
      (unfold mem_set_default_fill in refl) startup-IsValid

-- What main is to return: 1 where the input cannot be loaded, or an argument cannot be taken.
abbrev loading_status : Option (Option Program) → ℕ
loading_status (some none) = 1
loading_status _ = 0

abbrev pub exit_status : (Text → Option (List ℕ)) → Bool → (ℕ → ℕ) → Request → ℕ
exit_status files seeks stale (run s) =
    loading_status (load_input files seeks stale s.input_path (mem_set_default_fill startup 0))
exit_status files seeks stale help = 0
exit_status files seeks stale bad_cpu = 1
exit_status files seeks stale (unknown_option option) = 1

-- The program that is loaded for a request, if any.
abbrev loaded_program : Option (Option Program) → Option Program
loaded_program none = none
loaded_program (some p) = p

abbrev pub program_of : (Text → Option (List ℕ)) → Bool → (ℕ → ℕ) → Request → Option Program
program_of files seeks stale (run s) =
    loaded_program (load_input files seeks stale s.input_path (mem_set_default_fill startup 0))
program_of files seeks stale _ = none

-- Every 16-bit address of its memory is read inside a buffer.
abbrev pub ReadsInside : Option Program → Type 0
ReadsInside none = Unit {0}
ReadsInside (some p) = (x : ℕ) → x < 65536 → mem_read p.memory x ≡ some (read_byte p.memory x)

LoadedIf-ReadsInside : (p : Option Program) → LoadedIf p → ReadsInside p
LoadedIf-ReadsInside none ok = tt
LoadedIf-ReadsInside (some p) ok = λ x fits. read_byte-some p.memory x ok.0 fits

program_of-ReadsInside :
    (files : Text → Option (List ℕ)) (seeks : Bool) (stale : ℕ → ℕ) (r : Request)
    → ReadsInside (program_of files seeks stale r)
program_of-ReadsInside files seeks stale (run s) =
    let (p, loads, ok) = load_input-LoadedIf files seeks stale s.input_path in
    rw loads (LoadedIf-ReadsInside p ok)
program_of-ReadsInside files seeks stale help = tt
program_of-ReadsInside files seeks stale bad_cpu = tt
program_of-ReadsInside files seeks stale (unknown_option option) = tt

module _ (vr_emu6502_new : Model → Option VrEmu6502) (calloc : Bool) (realloc : Realloc)
    (given : (model : Model) → (cpu : VrEmu6502) × (vr_emu6502_new model ≡ some cpu)) where
  abbrev Ends : Option Outcome → ℕ → Type 0
  Ends result status = (o : Outcome) × (result ≡ some o) × (exit_code o ≡ status)

  abbrev Shown : Option Outcome → Type 0
  Shown result = Ends result 0

  add_entry-hi :
      (a : DisAnalysis) (x : ℕ) → a.hi < 65536 → (analyze_add_entry realloc a x).hi ≡ a.hi
  unfolding analyze_add_entry
  add_entry-hi a x top = ground (arith, push-Shrinks realloc (set_function a x) x)

  module _ (cpu : VrEmu6502) (p : Program) (ok : IsLoaded p) where
    sweep-Shown :
        (fallback : Bool) → Shown (sweep vr_emu6502_new calloc realloc fallback (some cpu) p)
    sweep-Shown fallback =
        let (lines, runs, tiles) =
          dis_range-Tiles cpu (read_byte p.memory) p.base (u16 (p.end + 65536 - p.base + 1)) ok.1 in
        (swept fallback lines, rw runs refl, refl)

    analyze_program-Shown :
        (a : DisAnalysis)
        → a.hi ≡ p.end
        → Shown (analyze_program vr_emu6502_new calloc realloc (some cpu) p a)
    unfolding analyze_program
    analyze_program-Shown a hi =
        let read = read_byte p.memory in
        let added = analyze_add_entry realloc a p.base in
        let top = add_entry-hi a p.base (omega (arith, ok.2)) in
        let (a', runs) = analyze_run_ends realloc (some cpu) read added (omega (arith, ok.2)) in
        let (items, prints, covers) = print_analyzed-Covers a' p.end p.base cpu read p.base ok.2 in
        (analyzed (analyze_out_of_range (some a')) items, rw (runs, prints) refl, refl)

    analyze_or_sweep-Shown :
        (a : Option DisAnalysis)
        → ((b : DisAnalysis) → a ≡ some b → b.hi ≡ p.end)
        → Shown (analyze_or_sweep vr_emu6502_new calloc realloc (some cpu) p a)
    analyze_or_sweep-Shown none hi = sweep-Shown true
    analyze_or_sweep-Shown (some a) hi = analyze_program-Shown a (hi a refl)

  show-Shown :
      (s : Settings) (p : Program) → IsLoaded p → Shown (show vr_emu6502_new calloc realloc s p)
  unfolding show dis_init
  show-Shown s p ok =
      let (cpu, new) = given s.model in
      let linear = s.linear || (if p.have_entry then false else true) in
      elim (Bool-cases linear) [
        | inl flat ↦ rw (new, flat) (sweep-Shown cpu p ok false)
        | inr follow ↦
            rw (new, follow)
              (analyze_or_sweep-Shown cpu p ok (analyze_new calloc p.base p.end)
                (λ b e. unfold analyze_new in ground arith))
      ]

  show_input-Ends :
      (s : Settings) (p : Option Program)
      → LoadedIf p
      → Ends (show_input vr_emu6502_new calloc realloc s (some p)) (loading_status (some p))
  show_input-Ends s none ok = (not_loaded, refl, refl)
  show_input-Ends s (some p) ok = show-Shown s p ok

  module _ (files : Text → Option (List ℕ)) (seeks : Bool) (stale : ℕ → ℕ) where
    serve-Ends :
        (r : Request)
        → Ends
            (serve vr_emu6502_new calloc realloc files seeks stale r)
            (exit_status files seeks stale r)
    serve-Ends (run s) =
        let (p, loads, ok) = load_input-LoadedIf files seeks stale s.input_path in
        rw loads (show_input-Ends s p ok)
    serve-Ends help = (usage, refl, refl)
    serve-Ends bad_cpu = (refused_cpu, refl, refl)
    serve-Ends (unknown_option option) = (refused_option option, refl, refl)

    -- Where vrEmu6502 gives a handle for every model, main returns: on every command line,
    -- whatever bytes the files hold, whether or not they open, whichever calls of realloc fail,
    -- and whether or not the calls of calloc and fseek do. It returns 1 if the arguments ask for
    -- no run and no usage, or for a run on an input that cannot be loaded, and otherwise 0. In the
    -- program that it loads, MemRead of every 16-bit address stays inside a buffer.
    pub main_returns :
        (args : List Text)
        → (o : Outcome) × (main vr_emu6502_new calloc realloc files seeks stale args ≡ some o)
          × (exit_code o ≡ exit_status files seeks stale (parse_args args defaults))
          × ReadsInside (program_of files seeks stale (parse_args args defaults))
    unfolding main
    main_returns args =
        let (o, returns, status) = serve-Ends (parse_args args defaults) in
        (o, returns, status, program_of-ReadsInside files seeks stale (parse_args args defaults))
