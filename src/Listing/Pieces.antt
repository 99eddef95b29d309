-- ===== src/Listing/Pieces.antt =====
-- What the pieces that `printAnalyzed` prints say of the addresses, and the pieces of one round.
use dis.Base.{
  ℕ, zero, suc, ◌+◌, ◌≤◌, ◌<◌, ◌≡◌, ◌⊎◌, inl, inr, refl, arith, Bool, true, false, ◌||◌, some, List,
  [], ◌∷◌, ◌++◌, get_or, ◌==◌, ==_iff, length, u16, Bool-cases,
}
use dis.Cpu.{VrEmu6502}
use dis.Disassemble.{text_or, dis_one, dis_inst_len}
use dis.Analyze.{
  DisAnalysis, analyze_is_instruction, analyze_is_function, analyze_is_label, analyze_callers,
}
use dis.Listing.{
  Item, unreached, entry_point, function, label, instruction, overlapping, headers, overlaps,
}

abbrev pub Announced : ℕ → List Item → Type 0
Announced at [] = ⊥
Announced at (overlapping b ∷ items) = (b ≡ at) ⊎ Announced at items
Announced at (_ ∷ items) = Announced at items

module _ (a : DisAnalysis) (hi entry : ℕ) (cpu : VrEmu6502) (read : ℕ → ℕ) where
  abbrev pub is_start : ℕ → Bool
  is_start x = analyze_is_instruction (some a) (u16 x)

  -- A function or a label has a header line.
  abbrev pub is_named : ℕ → Bool
  is_named x = analyze_is_function (some a) x || analyze_is_label (some a) x

  -- The pieces from `addr` on, up to the end of the range: runs of bytes that are no instruction
  -- starts, and instructions whose further starts are announced. `headed` says whether the header
  -- of `addr` stands before them: an instruction has one exactly if it is a function or a label.
  abbrev pub Covers : Bool → ℕ → List Item → Type 0
  Covers headed addr [] = (headed ≡ false) × (hi < addr)
  Covers headed addr (unreached first last count ∷ items) =
      (headed ≡ false)
      × (first ≡ addr)
      × (last + 1 ≡ addr + count)
      × (0 < count)
      × (last ≤ hi)
      × ((x : ℕ) → addr ≤ x → x ≤ last → is_start x ≡ false)
      × Covers false (addr + count) items
  Covers headed addr (instruction line ∷ items) =
      (headed ≡ is_named addr)
      × (line.addr ≡ addr)
      × (addr ≤ hi)
      × (is_start addr ≡ true)
      × (length line.bytes ≡ dis_inst_len (some cpu) (read addr))
      × ((i : ℕ) → i < length line.bytes → get_or line.bytes i 0 ≡ read (u16 (addr + i)))
      × (line.text ≡ text_or (dis_one (some cpu) addr read 48).text [])
      × ((i : ℕ)
          → 1 ≤ i
          → i < length line.bytes
          → is_start (addr + i) ≡ true
          → Announced (addr + i) items)
      × Covers false (addr + length line.bytes) items
  Covers headed addr (entry_point at ∷ items) =
      (headed ≡ false)
      × (at ≡ addr)
      × (addr ≡ entry)
      × (analyze_is_function (some a) addr ≡ true)
      × Covers true addr items
  Covers headed addr (function at callers ∷ items) =
      (headed ≡ false)
      × (at ≡ addr)
      × (callers ≡ analyze_callers (some a) addr)
      × (analyze_is_function (some a) addr ≡ true)
      × ((addr == entry) ≡ false)
      × Covers true addr items
  Covers headed addr (label at ∷ items) =
      (headed ≡ false)
      × (at ≡ addr)
      × (analyze_is_function (some a) addr ≡ false)
      × (analyze_is_label (some a) addr ≡ true)
      × Covers true addr items
  Covers headed addr (overlapping at ∷ items) =
      (headed ≡ false) × (is_start at ≡ true) × Covers false addr items

  pub headers-Covers :
      (addr : ℕ) (items : List Item)
      → Covers (is_named addr) addr items
      → Covers false addr (headers a entry addr ++ items)
  headers-Covers addr items rest = elim (Bool-cases (analyze_is_function (some a) addr)) [
    | inl named ↦ elim (Bool-cases (addr == entry)) [
      | inl here ↦
          rw (named, here) (refl, refl, (==_iff addr entry).0 here, named, rw named at rest)
      | inr elsewhere ↦ rw (named, elsewhere) (refl, refl, refl, named, elsewhere, rw named at rest)
    ]
    | inr unnamed ↦ elim (Bool-cases (analyze_is_label (some a) addr)) [
      | inl labelled ↦
          rw (unnamed, labelled) (refl, refl, unnamed, labelled, rw (unnamed, labelled) at rest)
      | inr plain ↦ rw (unnamed, plain) (rw (unnamed, plain) at rest)
    ]
  ]

  pub overlaps-Covers :
      (at i left addr : ℕ) (items : List Item)
      → Covers false addr items
      → Covers false addr (overlaps a at i left ++ items)
  unfolding overlaps
  overlaps-Covers at i zero addr items rest = rest
  overlaps-Covers at i (suc left) addr items rest =
      let others = overlaps-Covers at (i + 1) left addr items rest in
      elim (Bool-cases (is_start (at + i))) [
        | inl start ↦ rw start (refl, start, others)
        | inr between ↦ rw between others
      ]

  pub overlaps-Announced :
      (at i left j : ℕ) (items : List Item)
      → i ≤ j
      → j < i + left
      → is_start (at + j) ≡ true
      → Announced (at + j) (overlaps a at i left ++ items)
  unfolding overlaps
  overlaps-Announced at i zero j items lo lt start = absurd (omega arith)
  overlaps-Announced at i (suc left) j items lo lt start =
      let others = λ (after : i + 1 ≤ j).
        overlaps-Announced at (i + 1) left j items after (omega arith) start in
      elim (Bool-cases (is_start (at + i))) [
        | inl here ↦ rw here (elim (Bool-cases (i == j)) [
          | inl same ↦ inl (ground arith)
          | inr later ↦ inr (others (ground arith))
        ])
        | inr between ↦ rw between (
            others (elim (Bool-cases (i == j)) [
              | inl same ↦
                  let e = (==_iff i j).0 same in
                  let s : is_start (at + i) ≡ true = rw (← e) at start in cc
              | inr later ↦ ground arith
            ]))
      ]
