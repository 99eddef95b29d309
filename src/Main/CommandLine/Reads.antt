-- ===== src/Main/CommandLine/Reads.antt =====
-- The loop of `main` over its arguments.
use dis.Base.{
  ◌≡◌, inl, inr, refl, sym, subst, ap, ◌∙◌, Bool, true, false, ◌||◌, Option, none, some, List, [],
  ◌∷◌, ◌++◌, All, Bool-cases,
}
use mathlib.Core.Option
use dis.Base.Text.{Text, codes, str_eq}
use dis.Cpu.{Model}
use dis.Main.{Settings, parse_args}
use dis.Main.CommandLine.{
  Argument, choose_cpu, choose_linear, choose_path, words, starts_option, IsArgument, Ending,
  finished, asks_help, lacks_name, unknown_name, unknown_word, ending_words, IsEnding, line_words,
  chosen_path, chosen_linear, chosen_model, settings_of, request_of, later,
}
use dis.Main.CommandLine.Words.{
  str_eq-same, path_differs, parse_cpu-model_name, parse_cpu-none, model_cases,
}

-- What one argument changes.
abbrev change : Argument → Settings → Settings
change (choose_cpu model) s = record s { model = model }
change choose_linear s = record s { linear = true }
change (choose_path path) s = record s { input_path = some path }

takes :
    (a : Argument) (rest : List Text) (s : Settings)
    → IsArgument a
    → parse_args (words a ++ rest) s ≡ parse_args rest (change a s)
unfolding parse_args
takes (choose_cpu model) rest s ok = rw (parse_cpu-model_name model) refl
takes choose_linear [] s ok = refl
takes choose_linear (word ∷ rest) s ok = refl
takes (choose_path path) [] s ok =
    rw
      (
        path_differs path (codes "-cpu") ok,
        path_differs path (codes "-help") ok,
        path_differs path (codes "-linear") ok,
        ok,
      )
      refl
takes (choose_path path) (word ∷ rest) s ok =
    rw
      (
        path_differs path (codes "-cpu") ok,
        path_differs path (codes "-help") ok,
        path_differs path (codes "-linear") ok,
        ok,
      )
      refl

ends : (e : Ending) (s : Settings) → IsEnding e → parse_args (ending_words e) s ≡ request_of e s
unfolding parse_args
ends finished s ok = refl
ends (asks_help []) s ok = refl
ends (asks_help (word ∷ rest)) s ok = refl
ends lacks_name s ok = refl
ends (unknown_name name rest) s ok = rw (parse_cpu-none name ok) refl
ends (unknown_word word []) s (option, a, b, c) = rw (a, b, c, option) refl
ends (unknown_word word (next ∷ rest)) s (option, a, b, c) = rw (a, b, c, option) refl

get_or-later {ℓ} :
    {A : Type ℓ} (o : Option A) (x d : A) → Option.get_or o x ≡ Option.get_or (later (some x) o) d
get_or-later none x d = refl
get_or-later (some y) x d = refl

later_assoc {ℓ} :
    {A : Type ℓ} (o p : Option A) (x : A) → later (some x) p ≡ later o (later (some x) p)
later_assoc o none x = refl
later_assoc o (some y) x = refl

or_true : (b : Bool) → (b || true) ≡ true
or_true true = refl
or_true false = refl

settings_of-cons :
    (a : Argument) (xs : List Argument) (s : Settings)
    → settings_of (change a s) xs ≡ settings_of s (a ∷ xs)
settings_of-cons (choose_cpu model) xs s =
    ap
      (λ (m : Model). record {
        model = m;
        input_path = later s.input_path (chosen_path xs);
        linear = chosen_linear xs || s.linear;
      })
      (get_or-later (chosen_model xs) model s.model)
settings_of-cons choose_linear xs s =
    ap
      (λ (b : Bool). record {
        model = Option.get_or (chosen_model xs) s.model;
        input_path = later s.input_path (chosen_path xs);
        linear = b;
      })
      (or_true (chosen_linear xs))
settings_of-cons (choose_path path) xs s =
    ap
      (λ (p : Option Text). record {
        model = Option.get_or (chosen_model xs) s.model;
        input_path = p;
        linear = chosen_linear xs || s.linear;
      })
      (later_assoc s.input_path (chosen_path xs) path)

-- Arguments, and then what ends them.
pub parse_args-line_words :
    (xs : List Argument) (e : Ending) (s : Settings)
    → All IsArgument xs
    → IsEnding e
    → parse_args (line_words xs e) s ≡ request_of e (settings_of s xs)
parse_args-line_words [] e s ok last = ends e s last
parse_args-line_words (a ∷ xs) e s ok last =
    takes a (line_words xs e) s ok.0
    ∙ parse_args-line_words xs e (change a s) ok.1 last
    ∙ ap (request_of e) (settings_of-cons a xs s)

-- The words, as arguments and what ends them.
abbrev IsRead : List Text → Type 0
IsRead line =
    (xs : List Argument) × (e : Ending) × All IsArgument xs × IsEnding e × (line ≡ line_words xs e)

IsRead-cons :
    (a : Argument) (rest : List Text) → IsArgument a → IsRead rest → IsRead (words a ++ rest)
IsRead-cons a rest ok (xs, e, oks, last, same) =
    (a ∷ xs, e, (ok, oks), last, ap (λ (t : List Text). words a ++ t) same)

IsRead-ending : (e : Ending) → IsEnding e → IsRead (ending_words e)
IsRead-ending e ok = ([], e, tt, ok, refl)

-- A word other than --cpu.
IsRead-word :
    (word : Text) (rest : List Text)
    → str_eq word (codes "--cpu") ≡ false
    → IsRead rest
    → IsRead (word ∷ rest)
IsRead-word word rest a read = elim (Bool-cases (str_eq word (codes "--help"))) [
  | inl is ↦
      let same = str_eq-same word (codes "--help") is in
      subst (λ (w : Text). IsRead (w ∷ rest)) (sym same) (IsRead-ending (asks_help rest) tt)
  | inr b ↦ elim (Bool-cases (str_eq word (codes "--linear"))) [
    | inl is ↦
        let same = str_eq-same word (codes "--linear") is in
        subst (λ (w : Text). IsRead (w ∷ rest)) (sym same) (IsRead-cons choose_linear rest tt read)
    | inr c ↦ elim (Bool-cases (starts_option word)) [
      | inl option ↦ IsRead-ending (unknown_word word rest) (option, a, b, c)
      | inr no_option ↦ IsRead-cons (choose_path word) rest no_option read
    ]
  ]
]

IsRead-name : (name : Text) (rest : List Text) → IsRead rest → IsRead (codes "--cpu" ∷ name ∷ rest)
IsRead-name name rest read = elim (model_cases name) [
  | inl (model, same) ↦
      subst (λ (w : Text). IsRead (codes "--cpu" ∷ w ∷ rest)) (sym same)
        (IsRead-cons (choose_cpu model) rest tt read)
  | inr none_is ↦ IsRead-ending (unknown_name name rest) none_is
]

every_line : (line : List Text) → IsRead line
every_line [] = IsRead-ending finished tt
every_line (word ∷ []) = elim (Bool-cases (str_eq word (codes "--cpu"))) [
  | inl is ↦
      let same = str_eq-same word (codes "--cpu") is in
      subst (λ (w : Text). IsRead (w ∷ [])) (sym same) (IsRead-ending lacks_name tt)
  | inr a ↦ IsRead-word word [] a (every_line [])
]
every_line (word ∷ name ∷ rest) = elim (Bool-cases (str_eq word (codes "--cpu"))) [
  | inl is ↦
      let same = str_eq-same word (codes "--cpu") is in
      subst (λ (w : Text). IsRead (w ∷ name ∷ rest)) (sym same)
        (IsRead-name name rest (every_line rest))
  | inr a ↦ IsRead-word word (name ∷ rest) a (every_line (name ∷ rest))
]

-- Every command line is a sequence of arguments, --cpu with the name of a model, --linear, or a
-- path that no '-' begins, with an end: nothing more, --help, --cpu without the name of a model,
-- or another word that a '-' begins. What is asked for is what the end says, and a run if there is
-- nothing more, with the settings of the arguments before it: the last model, the last path, and
-- linear if --linear is there, and else what they were.
pub parse_args_lem :
    (line : List Text) (s : Settings)
    → (xs : List Argument) × (e : Ending) × All IsArgument xs
      × IsEnding e
      × (line ≡ line_words xs e)
      × (parse_args line s ≡ request_of e (settings_of s xs))
parse_args_lem line s =
    let (xs, e, ok, last, same) = every_line line in
    (
      xs,
      e,
      ok,
      last,
      same,
      ap (λ (l : List Text). parse_args l s) same ∙ parse_args-line_words xs e s ok last,
    )
