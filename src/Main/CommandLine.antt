-- ===== src/Main/CommandLine.antt =====
-- The command lines of dis.c: what `usage` says of them, as a list of arguments and what ends it.
pub mod Words
pub mod Reads
use dis.Base.{ℕ, ◌≡◌, Bool, true, false, ◌||◌, Option, none, some, List, [], ◌∷◌, ◌++◌, ◌==◌, All}
use mathlib.Core.Option
use dis.Base.Text.{Text, codes, char_at, str_eq}
use dis.Cpu.{Model, cpu_6502, cpu_6502u, cpu_65c02, cpu_w65c02, cpu_r65c02}
use dis.Main.{Settings, Request, run, help, bad_cpu, unknown_option}

-- `cpuNames`, from the model to its name.
abbrev pub model_name : Model → Text
model_name cpu_6502 = codes "6502"
model_name cpu_6502u = codes "6502u"
model_name cpu_65c02 = codes "65c02"
model_name cpu_w65c02 = codes "w65c02"
model_name cpu_r65c02 = codes "r65c02"

-- An argument that is taken.
pub data Argument : Type 0 where
  choose_cpu : Model → Argument
  choose_linear : Argument
  choose_path : Text → Argument

abbrev pub words : Argument → List Text
words (choose_cpu model) = codes "--cpu" ∷ model_name model ∷ []
words choose_linear = codes "--linear" ∷ []
words (choose_path path) = path ∷ []

abbrev pub starts_option : Text → Bool
starts_option word = char_at word 0 == b'-'

abbrev pub IsArgument : Argument → Type 0
IsArgument (choose_path path) = starts_option path ≡ false
IsArgument _ = Unit {0}

-- What may end the arguments that are taken: nothing more, or a word that is not read on from.
pub data Ending : Type 0 where
  finished : Ending
  asks_help : List Text → Ending
  lacks_name : Ending
  unknown_name : Text → List Text → Ending
  unknown_word : Text → List Text → Ending

abbrev pub ending_words : Ending → List Text
ending_words finished = []
ending_words (asks_help rest) = codes "--help" ∷ rest
ending_words lacks_name = codes "--cpu" ∷ []
ending_words (unknown_name name rest) = codes "--cpu" ∷ name ∷ rest
ending_words (unknown_word word rest) = word ∷ rest

abbrev pub IsEnding : Ending → Type 0
IsEnding (unknown_name name rest) = (model : Model) → str_eq name (model_name model) ≡ false
IsEnding (unknown_word word rest) =
    (starts_option word ≡ true)
    × (str_eq word (codes "--cpu") ≡ false)
    × (str_eq word (codes "--help") ≡ false)
    × (str_eq word (codes "--linear") ≡ false)
IsEnding _ = Unit {0}

abbrev pub line_words : List Argument → Ending → List Text
line_words [] e = ending_words e
line_words (a ∷ xs) e = words a ++ line_words xs e

-- The second, if there is one.
abbrev pub later {ℓ} : {A : Type ℓ} → Option A → Option A → Option A
later first none = first
later first (some x) = some x

-- What the arguments say: the last model, the last path, and whether one is --linear.
abbrev pub chosen_model : List Argument → Option Model
chosen_model [] = none
chosen_model (choose_cpu model ∷ xs) = later (some model) (chosen_model xs)
chosen_model (_ ∷ xs) = chosen_model xs

abbrev pub chosen_path : List Argument → Option Text
chosen_path [] = none
chosen_path (choose_path path ∷ xs) = later (some path) (chosen_path xs)
chosen_path (_ ∷ xs) = chosen_path xs

abbrev pub chosen_linear : List Argument → Bool
chosen_linear [] = false
chosen_linear (choose_linear ∷ xs) = true
chosen_linear (_ ∷ xs) = chosen_linear xs

-- The settings `s`, where the arguments say nothing else.
abbrev pub settings_of : Settings → List Argument → Settings
settings_of s xs = record {
  model = Option.get_or (chosen_model xs) s.model;
  input_path = later s.input_path (chosen_path xs);
  linear = chosen_linear xs || s.linear;
}

abbrev pub request_of : Ending → Settings → Request
request_of finished s = run s
request_of (asks_help rest) s = help
request_of lacks_name s = bad_cpu
request_of (unknown_name name rest) s = bad_cpu
request_of (unknown_word word rest) s = unknown_option word
