-- ===== src/Samples/Sweeps.antt =====
-- The text of the linear listing of the demo program.
use dis.Base.{
  ℕ, zero, suc, ◌+◌, ◌-◌, ◌<◌, ◌≡◌, refl, arith, Bool, true, false, Option, some, none, List, [],
  ◌∷◌, get_or, ◌==◌, if◌then◌else◌, min, inl, inr, Bool-cases, All,
}
use dis.Base.Text.{Text, codes}
use dis.Cpu.{Model, VrEmu6502, cpu_65c02}
use dis.Memory.{
  mem_read, mem_set_default_fill, map_rom, add_region, find_region, read_found, read_type, load,
}
use dis.Analyze.{Realloc}
use dis.Main.{
  Settings, run, Program, Outcome, demo_image, demo_program, load_input, read_byte, serve, startup,
}
use dis.Main.Prints.{stdout_text}
use dis.Main.ReadBack.{IsByte, IsShown, parse_listing}
use dis.Main.Shown.{HasShownNames}
use dis.Main.Sweeps.{sweep_len, is_flat}
use dis.Main.Reassembles.{Restores, main_sweeps_text}
use dis.Samples.{sample_cpu, is_branch}

abbrev given : Model → Option VrEmu6502
given model = some sample_cpu

abbrev granted : Realloc
granted call = true

abbrev settings : Settings
settings = record { model = cpu_65c02; input_path = none; linear = false }

abbrev demo : Program
demo = demo_program (mem_set_default_fill startup 0)

choose-IsShown :
    (test : Bool) (s t : Text) → All IsShown s → All IsShown t → All IsShown (if test then s else t)
choose-IsShown true s t first second = first
choose-IsShown false s t first second = second

sample_cpu-HasShownNames : HasShownNames sample_cpu
sample_cpu-HasShownNames opcode = elim (Bool-cases (opcode == 0x00)) [
  | inl is ↦ rw is (refl, (refl, (refl, tt)))
  | inr other ↦ rw other (elim (Bool-cases (opcode == 0x0f)) [
    | inl is ↦ rw is (refl, (refl, (refl, (refl, tt))))
    | inr other ↦ rw other (elim (Bool-cases (opcode == 0x1a)) [
      | inl is ↦ rw is (refl, (refl, (refl, tt)))
      | inr other ↦ rw other (elim (Bool-cases (opcode == 0x20)) [
        | inl is ↦ rw is (refl, (refl, (refl, tt)))
        | inr other ↦ rw other (elim (Bool-cases (opcode == 0x4c)) [
          | inl is ↦ rw is (refl, (refl, (refl, tt)))
          | inr other ↦ rw other (elim (Bool-cases (opcode == 0x60)) [
            | inl is ↦ rw is (refl, (refl, (refl, tt)))
            | inr other ↦ rw other (elim (Bool-cases (opcode == 0x80)) [
              | inl is ↦ rw is (refl, (refl, (refl, tt)))
              | inr other ↦ rw other (elim (Bool-cases (opcode == 0xa9)) [
                | inl is ↦ rw is (refl, (refl, (refl, tt)))
                | inr other ↦ rw other (
                    choose-IsShown (opcode == 0xd0) (codes "bne")
                      (if is_branch opcode then codes "bcc" else codes "nop")
                      (refl, (refl, (refl, tt)))
                      (choose-IsShown (is_branch opcode) (codes "bcc") (codes "nop")
                        (refl, (refl, (refl, tt))) (refl, (refl, (refl, tt)))))
              ])
            ])
          ])
        ])
      ])
    ])
  ])
]

get_or-IsByte : (bytes : List ℕ) (i : ℕ) → All IsByte bytes → get_or bytes i 0 < 256
get_or-IsByte [] i fit = omega arith
get_or-IsByte (b ∷ bytes) zero fit = fit.0
get_or-IsByte (b ∷ bytes) (suc i) fit = get_or-IsByte bytes i fit.1

demo_image-All : All IsByte demo_image
demo_image-All = (
  omega arith,
  (
    omega arith,
    (
      omega arith,
      (
        omega arith,
        (
          omega arith,
          (
            omega arith,
            (
              omega arith,
              (omega arith, (omega arith, (omega arith, (omega arith, (omega arith, tt))))),
            ),
          ),
        ),
      ),
    ),
  ),
)

demo_bytes : (x : ℕ) → read_byte demo.memory x < 256
unfolding demo_program map_rom add_region mem_set_default_fill mem_read find_region read_found
    read_type load
demo_bytes x = let fit = get_or-IsByte demo_image (x - 0x200) demo_image-All in ground (arith, fit)

demo_loads :
    load_input (λ path. none) true (λ i. 0) none (mem_set_default_fill startup 0) ≡ some (some demo)
unfolding load_input
demo_loads = refl

demo_flat : is_flat settings demo ≡ true
unfolding demo_program
demo_flat = refl

main_sweeps_text_example :
    (o : Outcome) × (serve given true granted (λ path. none) true (λ i. 0) (run settings) ≡ some o)
    × Restores
        (read_byte demo.memory)
        (min (demo.base + sweep_len demo) 65536)
        demo.base
        (parse_listing (stdout_text o))
main_sweeps_text_example =
    main_sweeps_text given true granted (λ path. none) true (λ i. 0) settings sample_cpu demo refl
      demo_loads (inl demo_flat) sample_cpu-HasShownNames demo_bytes
