-- ===== src/Samples/HexRuns.antt =====
-- A run of the program on an Intel HEX file.
use dis.Base.{ℕ, ◌<◌, ◌≡◌, refl, arith, false, true, Option, some, List, [], ◌∷◌, ◌++◌, All}
use dis.Base.Text.{crlf, Text, codes, hex_in, upper_case}
use dis.Cpu.{Model, cpu_65c02, VrEmu6502}
use dis.Hexfile.Format.{Style, Part, stored, typed, IsPart, parts_text}
use dis.Hexfile.Ranges.{IsInside, byte_of_parts, first_addr, last_addr}
use dis.Rp6502file.Parse.{matches_shebang}
use dis.Rp6502file.Read.{is_rp6502_file}
use dis.Analyze.{Realloc}
use dis.Main.{Settings, run, serve}
use dis.Main.Mapped.{ListsRange}
use dis.Main.Hexes.{main_lists_hex}
use dis.Samples.{sample_cpu}

abbrev given : Model → Option VrEmu6502
given model = some sample_cpu

abbrev granted : Realloc
granted call = true

abbrev style : Style
style = record { letters = upper_case; line_end = crlf }

-- 0200 nop, 0201 bne $0200, 0203 rts, in two records behind an extended address.
abbrev parts : List Part
parts =
    typed 4 (record { addr = 0; payload = 0 ∷ 0 ∷ []; checksum = 0xfa })
    ∷ stored (record { addr = 0x200; payload = 0xea ∷ 0xd0 ∷ []; checksum = 0x42 })
    ∷ stored (record { addr = 0x202; payload = 0xfd ∷ 0x60 ∷ []; checksum = 0x9d })
    ∷ []

abbrev files : Text → Option (List ℕ)
files path = some (parts_text style parts ++ [])

abbrev settings : Settings
settings = record { model = cpu_65c02; input_path = some (codes "a.hex"); linear = false }

parts-All : All IsPart parts
parts-All = (
  (omega arith, refl, refl, (omega arith, omega arith, (omega arith, (omega arith, tt)))),
  (
    (omega arith, omega arith, (omega arith, (omega arith, tt))),
    ((omega arith, omega arith, (omega arith, (omega arith, tt))), tt),
  ),
)

parts-IsInside : All IsInside parts
parts-IsInside = (tt, ((omega arith, omega arith), ((omega arith, omega arith), tt)))

no_rom : is_rp6502_file (some (parts_text style parts ++ [])) ≡ false
unfolding matches_shebang hex_in
no_rom = refl

main_lists_hex_example :
    (read : ℕ → ℕ) × ((y : ℕ) → y < 65536 → byte_of_parts parts y (some 0) ≡ some (read y))
    × ListsRange sample_cpu read
        (serve given true granted files true (λ i. 0) (run settings))
        (first_addr parts)
        (last_addr parts)
main_lists_hex_example =
    main_lists_hex given granted (λ n. refl) files true (λ i. 0) settings sample_cpu (codes "a.hex")
      style parts [] refl refl refl refl no_rom parts-All parts-IsInside (omega arith) refl

range : (first_addr parts ≡ 0x200) × (last_addr parts ≡ 0x203)
range = (refl, refl)
