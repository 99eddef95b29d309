-- ===== src/Samples/Runs.antt =====
-- Runs of the program: on a HEX file, with the text that it prints, and its theorems there.
use dis.Base.{ℕ, ◌≤◌, ◌≡◌, ◌↔◌, refl, arith, true, false, Option, some, none, List, [], ◌∷◌, ◌++◌}
use dis.Base.Text.{newline, Text, codes, hex_in}
use dis.Libc.Files.{fgets}
use dis.Libc.Numbers.{convert, skip_space, skip_sign, skip_prefix, is_prefixed, hex_int}
use dis.Cpu.{Model, cpu_65c02, VrEmu6502}
use dis.Memory.{
  map_ram, mem_read, mem_write, mem_set_default_fill, add_region, find_region, read_found,
  read_type, write_found, load, store,
}
use dis.Rp6502file.Parse.{matches_shebang}
use dis.Rp6502file.Read.{Rp6502Rom}
use dis.Hexfile.{
  read_hex_file, read_lines, conclude, read_hex_line, read_fields, read_record, read_data,
  write_data,
}
use dis.Disassemble.{
  dis_init, dis_one, composed, operand_text, operand_format, fetch_bytes, dis_inst_len,
  dis_is_bit_branch, dis_is_brk, dis_is_accumulator, mode_len, mode_operand, named_flow,
  opcode_flow, is_conditional, dis_flow_of, absolute_target,
}
use dis.Analyze.{
  analyze_new, analyze_run, run_loop, trace, visit, follow, push, room, count_call, mark_label,
  analyze_add_entry, DisAnalysis, Realloc, analyze_is_instruction, analyze_out_of_range,
}
use dis.Analyze.Spec.{Reached}
use dis.Listing.{Item, print_analyzed, print_loop, skip_unreached, overlaps}
use dis.Listing.Pieces.{Covers}
use dis.Main.{
  show, analyze_program, Settings, run, Program, Outcome, swept, analyzed, exit_code, load_input,
  load_file, read_byte, serve, startup, main, parse_args, defaults,
}
use dis.Base.{◌+◌, min, not, inl}
use dis.Disassemble.{Line}
use dis.Disassemble.Range.{Tiles}
use dis.Main.Sweeps.{is_flat, sweep_len, main_sweeps}
use dis.Main.Total.{exit_status, ReadsInside, program_of, main_returns}
use dis.Main.Lists.{main_lists}
use dis.Main.Prints.{rom_notes, stdout_text, stderr_text, range_note, usage_text}
use dis.Samples.{sample_cpu}

abbrev given : Model → Option VrEmu6502
given model = some sample_cpu

abbrev granted : Realloc
granted call = true

-- 0200 bne $0200, 0202 rts, and a byte behind it
abbrev hex_file : Text
hex_file = codes ":04020000D0FE60AABB" ++ newline ++ codes ":00000001FF" ++ newline

abbrev files : Text → Option (List ℕ)
files path = some hex_file

abbrev stale : ℕ → ℕ
stale i = 0

abbrev path : Option Text
path = some (codes "a.hex")

abbrev settings : Settings
settings = record { model = cpu_65c02; input_path = path; linear = false }

abbrev or_blank : Option (Option Program) → Program
or_blank (some (some p)) = p
or_blank _ = record { memory = startup; base = 0; end = 0; have_entry = false; rom = none }

loaded : Program
loaded = or_blank (load_input files true stale path (mem_set_default_fill startup 0))

loads : load_input files true stale path (mem_set_default_fill startup 0) ≡ some (some loaded)
unfolding loaded load_input load_file read_hex_file read_lines conclude read_hex_line read_fields
    read_record read_data write_data hex_int convert skip_space skip_sign skip_prefix is_prefixed
    fgets map_ram add_region mem_write find_region write_found store mem_set_default_fill
    matches_shebang
loads = refl

loaded_range : (loaded.base ≡ 0x200) × (loaded.end ≡ 0x203) × (loaded.have_entry ≡ true)
unfolding loaded load_input load_file read_hex_file read_lines conclude read_hex_line read_fields
    read_record read_data write_data hex_int convert skip_space skip_sign skip_prefix is_prefixed
    fgets map_ram add_region mem_write find_region write_found store mem_set_default_fill
    matches_shebang
loaded_range = (refl, refl, refl)

in_order : loaded.base ≤ loaded.end
in_order = omega (arith, loaded_range)

main_lists_example :
    (a : DisAnalysis) × (items : List Item) × (serve given true granted files true stale
        (run settings)
      ≡ some (analyzed (analyze_out_of_range (some a)) items))
    × Covers a loaded.end loaded.base sample_cpu (read_byte loaded.memory) false loaded.base items
    × ((x : ℕ)
        → (analyze_is_instruction (some a) x ≡ true)
          ↔ Reached sample_cpu
              (read_byte loaded.memory)
              loaded.base
              loaded.end
              (loaded.base ∷ [])
              x)
main_lists_example =
    main_lists given granted (λ n. refl) files true stale settings sample_cpu loaded refl refl loads
      loaded_range.2 in_order

abbrev linear_settings : Settings
linear_settings = record settings { linear = true }

main_sweeps_example :
    (lines : List Line) × (serve given true granted files true stale (run linear_settings)
      ≡ some (swept (not (is_flat linear_settings loaded)) lines))
    × Tiles sample_cpu
        (read_byte loaded.memory)
        (min (loaded.base + sweep_len loaded) 65536)
        loaded.base
        lines
main_sweeps_example =
    main_sweeps given true granted files true stale linear_settings sample_cpu loaded refl loads
      (inl refl)

main_returns_example :
    (o : Outcome) × (main given true granted files true stale (codes "a.hex" ∷ []) ≡ some o)
    × (exit_code o ≡ exit_status files true stale (parse_args (codes "a.hex" ∷ []) defaults))
    × ReadsInside (program_of files true stale (parse_args (codes "a.hex" ∷ []) defaults))
main_returns_example =
    main_returns given true granted (λ model. (sample_cpu, refl)) files true stale
      (codes "a.hex" ∷ [])

abbrev printed : Option Outcome → Text × Text × ℕ
printed none = ([], [], 2)
printed (some o) = (stdout_text o, stderr_text o, exit_code o)

-- The whole listing.
listing : printed (main given true granted files true stale (codes "a.hex" ∷ [])) ≡ (
  newline
      ++ codes "sub_0200:                  ; entry point"
      ++ newline
      ++ codes "0200: d0 fe     bne $0200 "
      ++ newline
      ++ codes "0202: 60        rts       "
      ++ newline
      ++ newline
      ++ codes "; 0203-0203  1 bytes data"
      ++ newline,
  [],
  0,
)
unfolding main parse_args stdout_text stderr_text load_input load_file read_hex_file read_lines
    conclude read_hex_line read_fields read_record read_data write_data hex_int convert skip_space
    skip_sign skip_prefix is_prefixed fgets map_ram add_region mem_write find_region write_found
    store mem_set_default_fill matches_shebang show analyze_program analyze_new analyze_run run_loop
    trace visit follow push room count_call mark_label analyze_add_entry dis_init dis_inst_len
    dis_flow_of dis_is_bit_branch dis_is_brk dis_is_accumulator mode_len named_flow opcode_flow
    is_conditional absolute_target print_analyzed print_loop skip_unreached overlaps dis_one
    composed operand_text operand_format fetch_bytes hex_in mode_operand mem_read read_found
    read_type load range_note
listing = refl

unknown :
    printed (main given true granted files true stale (codes "--color" ∷ []))
    ≡ ([], codes "dis: unknown option '--color'" ++ newline ++ usage_text, 1)
unfolding main parse_args stdout_text stderr_text
unknown = refl

abbrev rom : Rp6502Rom
rom = record {
  entry = 0x200;
  end = 0x2ff;
  has_reset_vector = true;
  ram_chunks = 2;
  xram_chunks = 1;
  xram_bytes = 16;
}

notes :
    rom_notes (some rom) 0x200
    ≡ codes "note: skipped 1 XRAM chunk (16 bytes); XRAM is not 6502 address space"
      ++ newline
      ++ codes "note: starting at reset vector $0200"
      ++ newline
unfolding rom_notes hex_in
notes = refl

outside :
    range_note 2
    ≡ codes "note: 2 control-flow targets outside the loaded range were not followed" ++ newline
unfolding range_note
outside = refl
