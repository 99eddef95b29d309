-- ===== src/Samples/CommandLines.antt =====
-- A command line with an option that counts twice, and one behind --help.
use dis.Base.{◌≡◌, refl, List, [], ◌∷◌, some, true, All}
use dis.Base.Text.{Text, codes}
use dis.Cpu.{cpu_6502u, cpu_r65c02}
use dis.Main.{run, help, parse_args, parse_cpu, defaults}
use dis.Main.CommandLine.{
  Argument, choose_cpu, choose_linear, choose_path, IsArgument, Ending, finished, asks_help,
  IsEnding, line_words, settings_of, request_of,
}
use dis.Main.CommandLine.Reads.{parse_args_lem}

abbrev line : List Text
line =
    codes "--cpu"
    ∷ codes "6502u"
    ∷ codes "a.hex"
    ∷ codes "--linear"
    ∷ codes "--cpu"
    ∷ codes "r65c02"
    ∷ []

parse_args_lem_example :
    (xs : List Argument) × (e : Ending) × All IsArgument xs
    × IsEnding e
    × (line ≡ line_words xs e)
    × (parse_args line defaults ≡ request_of e (settings_of defaults xs))
parse_args_lem_example = parse_args_lem line defaults

abbrev chosen : List Argument
chosen =
    choose_cpu cpu_6502u ∷ choose_path (codes "a.hex") ∷ choose_linear ∷ choose_cpu cpu_r65c02 ∷ []

last_wins :
    (line ≡ line_words chosen finished)
    × (request_of finished (settings_of defaults chosen)
        ≡ run (record { model = cpu_r65c02; input_path = some (codes "a.hex"); linear = true }))
last_wins = (refl, refl)

helps : parse_args (line_words chosen (asks_help (codes "--what" ∷ []))) defaults ≡ help
unfolding parse_args parse_cpu
helps = refl
