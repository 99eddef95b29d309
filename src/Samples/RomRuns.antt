-- ===== src/Samples/RomRuns.antt =====
-- A run of the program on an RP6502 ROM.
use dis.Base.{
  zero, suc, inl, ℕ, ◌+◌, ◌*◌, ◌<◌, ◌≡◌, refl, arith, false, true, Option, some, List, [], ◌∷◌,
}
use dis.Base.Text.{Text, lower_case, upper_case, lf, crlf, codes}
use dis.Cpu.{Model, cpu_65c02, VrEmu6502}
use dis.Rp6502file.Crc.{rp6502_crc32}
use dis.Rp6502file.Format.{
  Style, as_decimal, as_c_hex, as_mos_hex, Entry, comment, chunk, ungrouped, file_text, AreEntries,
  entry_styles,
}
use dis.Rp6502file.Image.{byte_of}
use dis.Rp6502file.Ranges.{highest}
use dis.Rp6502file.Describes.{start_of}
use dis.Analyze.{Realloc}
use dis.Main.{Settings, run, serve}
use dis.Main.Mapped.{ListsRange}
use dis.Main.Roms.{main_lists_file}
use dis.Samples.{sample_cpu}

abbrev given : Model → Option VrEmu6502
given model = some sample_cpu

abbrev granted : Realloc
granted call = true

-- 0200 nop, 0201 bne $0200, 0203 rts; it starts at the reset vector $0201.
abbrev parts : List Entry
parts =
    comment (codes " a loop")
    ∷ chunk 0x200 (0xea ∷ 0xd0 ∷ 0xfd ∷ 0x60 ∷ [])
    ∷ chunk 0xfffc (0x01 ∷ 0x02 ∷ [])
    ∷ []

abbrev style : Style
style = record {
  shebang = upper_case;
  addr = as_mos_hex upper_case 3;
  len = as_decimal;
  crc = as_c_hex lower_case 7;
  line_end = lf;
}

-- The shebang's line ends in CR LF, the others in LF.
abbrev styles : ℕ → Style
styles zero = record style { line_end = crlf }
styles (suc i) = style

parts-AreEntries : AreEntries (entry_styles ungrouped styles) parts
unfolding rp6502_crc32
parts-AreEntries = (
  ((refl, (refl, (refl, (refl, (refl, (refl, (refl, tt))))))), omega arith, refl),
  (
    ((omega arith, inl (omega arith)), omega arith),
    (((omega arith, inl (omega arith)), omega arith), tt),
  ),
)

abbrev files : Text → Option (List ℕ)
files path = some (file_text styles ungrouped parts)

abbrev stale : ℕ → ℕ
stale i = 0

abbrev settings : Settings
settings = record { model = cpu_65c02; input_path = some (codes "a.rp6502"); linear = false }

main_lists_file_example :
    (read : ℕ → ℕ) × ((y : ℕ) → y < 65536 → byte_of parts y (some 0) ≡ some (read y))
    × ListsRange sample_cpu read
        (serve given true granted files true stale (run settings))
        (start_of parts (0x01 + 0x02 * 256))
        (highest parts)
main_lists_file_example =
    main_lists_file given granted (λ n. refl) files true stale settings sample_cpu
      (codes "a.rp6502") styles ungrouped parts 0x01 0x02 refl refl refl refl parts-AreEntries refl
      refl (omega arith) (omega arith) refl refl

range : (start_of parts (0x01 + 0x02 * 256) ≡ 0x201) × (highest parts ≡ 0x203)
range = (refl, refl)
