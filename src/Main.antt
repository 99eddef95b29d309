-- ===== src/Main.antt =====
-- dis.c: the command line, the input and the choice of the listing. What main takes from outside is
-- a parameter: the constructor of vrEmu6502, the files, whether seeks and allocations succeed, and
-- what a buffer on the stack holds.
pub mod Total
pub mod Lists
pub mod Sweeps
pub mod Mapped
pub mod Roms
pub mod Hexes
pub mod Prints
pub mod CommandLine
pub mod ReadBack
pub mod Shown
pub mod Reassembles
use dis.Base.{
  ℕ, ◌+◌, ◌-◌, Bool, true, false, ◌||◌, Option, none, some, List, [], ◌∷◌, ◌==◌, if◌then◌else◌,
  ◌>>=◌, length, get_or, u16,
}
use mathlib.Core.Option
use dis.Base.Text.{Text, codes, char_at, str_eq}
use dis.Cpu.{Model, VrEmu6502, cpu_6502, cpu_6502u, cpu_65c02, cpu_w65c02, cpu_r65c02}
use dis.Memory.{
  Memory, Buffer, null, vec, vecpg, caller, mem_read, map_ram, map_rom, mem_set_default_fill,
}
use dis.Disassemble.{Line, dis_init, dis_range}
use dis.Analyze.{
  DisAnalysis, Realloc, analyze_new, analyze_add_entry, analyze_run, analyze_out_of_range,
}
use dis.Rp6502file.Read.{Rp6502Rom, Reading, RomError, is_rp6502_file, read_rp6502_file}
use dis.Hexfile.{HexReading, read_hex_file}
use dis.Listing.{Item, print_analyzed}

-- `demo_image`
abbrev pub demo_image : List ℕ
demo_image = 0x00 ∷ 0xea ∷ 0xa9 ∷ 0x42 ∷ 0xa5 ∷ 0x10 ∷ 0xad ∷ 0x34 ∷ 0x12 ∷ 0x4c ∷ 0x00 ∷ 0x20 ∷ []

-- `readByte`. A read that leaves a buffer would be 0 here; in a valid memory there is none.
abbrev pub read_byte : Memory → ℕ → ℕ
read_byte m addr = Option.get_or (mem_read m addr) 0

-- `cpuNames` and `parseCpu`
unfoldable pub parse_cpu : Text → Option Model
parse_cpu name =
    if str_eq name (codes "6502")
    then some cpu_6502
    else if str_eq name (codes "6502u")
    then some cpu_6502u
    else if str_eq name (codes "65c02")
    then some cpu_65c02
    else if str_eq name (codes "w65c02")
    then some cpu_w65c02
    else if str_eq name (codes "r65c02")
    then some cpu_r65c02
    else none

pub record Settings : Type 0 where
  pub model : Model
  pub input_path : Option Text
  pub linear : Bool

-- What the arguments ask for: a run, the usage, or an error.
pub data Request : Type 0 where
  run : Settings → Request
  help : Request
  bad_cpu : Request
  unknown_option : Text → Request

abbrev pub with_model : Option Model → Settings → (Settings → Request) → Request
with_model none s rest = bad_cpu
with_model (some model) s rest = rest (record s { model = model })

-- The loop over the arguments, from `argv[1]` on.
unfoldable pub parse_args : List Text → Settings → Request
parse_args [] s = run s
parse_args (arg ∷ []) s =
    if str_eq arg (codes "--cpu")
    then bad_cpu
    else if str_eq arg (codes "--help")
    then help
    else if str_eq arg (codes "--linear")
    then run (record s { linear = true })
    else if char_at arg 0 == b'-'
    then unknown_option arg
    else run (record s { input_path = some arg })
parse_args (arg ∷ name ∷ args) s =
    if str_eq arg (codes "--cpu")
    then with_model (parse_cpu name) s (λ s'. parse_args args s')
    else if str_eq arg (codes "--help")
    then help
    else if str_eq arg (codes "--linear")
    then parse_args (name ∷ args) (record s { linear = true })
    else if char_at arg 0 == b'-'
    then unknown_option arg
    else parse_args (name ∷ args) (record s { input_path = some arg })

abbrev pub defaults : Settings
defaults = record { model = cpu_65c02; input_path = none; linear = false }

abbrev pub zeros : ℕ → Buffer
zeros n = record { size = n; bytes = λ _. 0 }

-- The memory when the program starts: no regions, and the static buffers. `image` is the first
-- buffer of the caller, and `demo_image` the second.
abbrev pub startup : Memory
startup = record {
  regions = [];
  default_fill = 0;
  buffers = λ p. elim p [
    | null ↦ zeros 0
    | vec ↦ zeros 2
    | vecpg ↦ zeros 6
    | caller i ↦
        if i == 0
        then zeros 0xffff
        else if i == 1
        then record { size = length demo_image; bytes = λ j. get_or demo_image j 0 }
        else zeros 0
  ];
}

-- The program in memory, and what the notes say of a ROM.
pub record Program : Type 0 where
  pub memory : Memory
  pub base : ℕ
  pub end : ℕ
  pub have_entry : Bool
  pub rom : Option Rp6502Rom

abbrev pub program_if_read : Option RomError → Reading → Option Program
program_if_read (some e) r = none
program_if_read none r = some (record {
  memory = r.loading.memory;
  base = r.loading.out.entry;
  end = r.loading.out.end;
  have_entry = true;
  rom = some r.loading.out;
})

abbrev pub program_of_rom : Reading → Option Program
program_of_rom r = program_if_read r.error r

abbrev pub program_of_hex : HexReading → Option Program
program_of_hex r =
    if r.address == 0
    then none
    else some (record {
      memory = r.memory;
      base = r.address;
      end = Option.get_or r.end 0;
      have_entry = true;
      rom = none;
    })

-- Without a file: `MapROM` of the demo program at $0200.
unfoldable pub demo_program : Memory → Program
demo_program m = record {
  memory = (map_rom m 0x200 (caller 1) (length demo_image)).0;
  base = 0x200;
  end = 0x200 + length demo_image - 1;
  have_entry = false;
  rom = none;
}

module _ (files : Text → Option (List ℕ)) (seeks : Bool) (stale : ℕ → ℕ) where
  -- The file at `path`, read into the mapped image; the inner `none` where main returns 1.
  unfoldable pub load_file : Text → Memory → Option (Option Program)
  load_file path m =
      let m' = (map_ram m 0 (caller 0) 0xffff).0 in
      if is_rp6502_file (files path)
      then Option.map program_of_rom (read_rp6502_file seeks (files path) m')
      else Option.map program_of_hex (read_hex_file stale (files path) m')

  unfoldable pub load_input : Option Text → Memory → Option (Option Program)
  load_input none m = some (some (demo_program m))
  load_input (some path) m = load_file path m

-- What main shows, by the way that it ends.
pub data Outcome : Type 0 where
  usage : Outcome
  refused_cpu : Outcome
  refused_option : Text → Outcome
  not_loaded : Outcome
  -- the linear listing, and whether it is the fallback for want of memory
  swept : Bool → List Line → Outcome
  -- the number of targets outside the range, and the listing
  analyzed : ℕ → List Item → Outcome

-- The value that main returns.
abbrev pub exit_code : Outcome → ℕ
exit_code refused_cpu = 1
exit_code (refused_option option) = 1
exit_code not_loaded = 1
exit_code _ = 0

module _ (vr_emu6502_new : Model → Option VrEmu6502) (calloc : Bool) (realloc : Realloc) where
  abbrev pub sweep : Bool → Option VrEmu6502 → Program → Option Outcome
  sweep fallback dis_cpu p =
      Option.map (swept fallback)
        (dis_range dis_cpu p.base (u16 (p.end + 65536 - p.base + 1)) (read_byte p.memory))

  unfoldable pub analyze_program : Option VrEmu6502 → Program → DisAnalysis → Option Outcome
  analyze_program dis_cpu p analysis = do
    a ← analyze_run dis_cpu (read_byte p.memory) realloc (analyze_add_entry realloc analysis p.base)
    items ← print_analyzed dis_cpu (read_byte p.memory) a p.base p.end p.base
    some (analyzed (analyze_out_of_range (some a)) items)

  abbrev pub analyze_or_sweep : Option VrEmu6502 → Program → Option DisAnalysis → Option Outcome
  analyze_or_sweep dis_cpu p none = sweep true dis_cpu p
  analyze_or_sweep dis_cpu p (some analysis) = analyze_program dis_cpu p analysis

  -- main from `DisInit` on.
  unfoldable pub show : Settings → Program → Option Outcome
  show s p =
      let dis_cpu = dis_init vr_emu6502_new none s.model in
      if s.linear || (if p.have_entry then false else true)
      then sweep false dis_cpu p
      else analyze_or_sweep dis_cpu p (analyze_new calloc p.base p.end)

  abbrev pub show_input : Settings → Option (Option Program) → Option Outcome
  show_input s none = none
  show_input s (some none) = some not_loaded
  show_input s (some (some p)) = show s p

  module _ (files : Text → Option (List ℕ)) (seeks : Bool) (stale : ℕ → ℕ) where
    abbrev pub serve : Request → Option Outcome
    serve (run s) =
        show_input s (load_input files seeks stale s.input_path (mem_set_default_fill startup 0))
    serve help = some usage
    serve bad_cpu = some refused_cpu
    serve (unknown_option option) = some (refused_option option)

    -- `main` on the arguments behind the program's name.
    unfoldable pub main : List Text → Option Outcome
    main args = serve (parse_args args defaults)
