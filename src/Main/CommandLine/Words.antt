-- ===== src/Main/CommandLine/Words.antt =====
-- The words that `main` compares with its arguments.
use dis.Base.{
  ◌≡◌, ◌⊎◌, inl, inr, refl, ap₂, arith, true, false, none, some, [], ◌∷◌, ◌==◌, Bool-cases,
}
use dis.Base.Text.{Text, codes, str_eq}
use dis.Cpu.{Model, cpu_6502, cpu_6502u, cpu_65c02, cpu_w65c02, cpu_r65c02}
use dis.Main.{parse_cpu}
use dis.Main.CommandLine.{model_name, starts_option}

pub str_eq-same : (s t : Text) → str_eq s t ≡ true → s ≡ t
str_eq-same [] [] e = refl
str_eq-same [] (d ∷ t) e = cc
str_eq-same (c ∷ s) [] e = cc
str_eq-same (c ∷ s) (d ∷ t) e = elim (Bool-cases (c == d)) [
  | inl same ↦ ap₂ ◌∷◌ (ground (arith, same)) (str_eq-same s t (rw same at e))
  | inr other ↦ let f : false ≡ true = rw other at e in cc
]

-- A word that is no option is none of the options.
pub path_differs : (word t : Text) → starts_option word ≡ false → str_eq word (b'-' ∷ t) ≡ false
path_differs [] t no_option = refl
path_differs (c ∷ word) t no_option = rw no_option refl

pub parse_cpu-model_name : (model : Model) → parse_cpu (model_name model) ≡ some model
unfolding parse_cpu
parse_cpu-model_name cpu_6502 = refl
parse_cpu-model_name cpu_6502u = refl
parse_cpu-model_name cpu_65c02 = refl
parse_cpu-model_name cpu_w65c02 = refl
parse_cpu-model_name cpu_r65c02 = refl

abbrev pub IsNoModel : Text → Type 0
IsNoModel name = (model : Model) → str_eq name (model_name model) ≡ false

pub parse_cpu-none : (name : Text) → IsNoModel name → parse_cpu name ≡ none
unfolding parse_cpu
parse_cpu-none name none_is =
    rw
      (
        none_is cpu_6502,
        none_is cpu_6502u,
        none_is cpu_65c02,
        none_is cpu_w65c02,
        none_is cpu_r65c02,
      )
      refl

no_model :
    (name : Text)
    → str_eq name (codes "6502") ≡ false
    → str_eq name (codes "6502u") ≡ false
    → str_eq name (codes "65c02") ≡ false
    → str_eq name (codes "w65c02") ≡ false
    → str_eq name (codes "r65c02") ≡ false
    → IsNoModel name
no_model name a b c d e cpu_6502 = a
no_model name a b c d e cpu_6502u = b
no_model name a b c d e cpu_65c02 = c
no_model name a b c d e cpu_w65c02 = d
no_model name a b c d e cpu_r65c02 = e

-- A name is a model's, or no model's.
pub model_cases : (name : Text) → ((model : Model) × (name ≡ model_name model)) ⊎ IsNoModel name
model_cases name = elim (Bool-cases (str_eq name (codes "6502"))) [
  | inl is ↦ inl (cpu_6502, str_eq-same name (codes "6502") is)
  | inr a ↦ elim (Bool-cases (str_eq name (codes "6502u"))) [
    | inl is ↦ inl (cpu_6502u, str_eq-same name (codes "6502u") is)
    | inr b ↦ elim (Bool-cases (str_eq name (codes "65c02"))) [
      | inl is ↦ inl (cpu_65c02, str_eq-same name (codes "65c02") is)
      | inr c ↦ elim (Bool-cases (str_eq name (codes "w65c02"))) [
        | inl is ↦ inl (cpu_w65c02, str_eq-same name (codes "w65c02") is)
        | inr d ↦ elim (Bool-cases (str_eq name (codes "r65c02"))) [
          | inl is ↦ inl (cpu_r65c02, str_eq-same name (codes "r65c02") is)
          | inr e ↦ inr (no_model name a b c d e)
        ]
      ]
    ]
  ]
]
