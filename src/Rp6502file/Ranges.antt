-- ===== src/Rp6502file/Ranges.antt =====
-- What the chunk loop makes of its variables, for the entries of a ROM.
use dis.Base.{
  ℕ, ◌+◌, ◌-◌, ◌≤◌, ◌≡◌, refl, subst, arith, Bool, true, false, ◌&&◌, ◌||◌, some, List, [], ◌∷◌,
  ltb, leb, if◌then◌else◌, length, Bool-cases, inl, inr,
}
use dis.Memory.{Memory}
use dis.Memory.Valid.{IsValid}
use dis.Rp6502file.Bounds.{is_in_range_lem}
use dis.Rp6502file.Parse.{is_out_of_range}
use dis.Rp6502file.Read.{Loading, vector_base, load_chunk, count_ram, count_xram, extend}
use dis.Rp6502file.Load.{write_payload-IsValid}
use dis.Rp6502file.Format.{
  Style, Entry, comment, empty_line, chunk, AreEntries, behind_line, load_entries,
}

abbrev pub smaller : ℕ → ℕ → ℕ
smaller a b = if ltb a b then a else b

abbrev pub larger : ℕ → ℕ → ℕ
larger a b = if ltb a b then b else a

-- The first and the last byte of code of a chunk, which is below the vectors; of no code, numbers
-- that change nothing.
abbrev low_of : ℕ → ℕ
low_of addr = if ltb addr vector_base then addr else 0xffffffff

abbrev high_of : ℕ → ℕ → ℕ
high_of addr len = if ltb addr vector_base then smaller (addr + len - 1) 0xfff9 else 0

abbrev holds : ℕ → ℕ → ℕ → Bool
holds addr len x = leb addr x && ltb x (addr + len)

abbrev pub lowest : List Entry → ℕ
lowest [] = 0xffffffff
lowest (comment text ∷ es) = lowest es
lowest (empty_line ∷ es) = lowest es
lowest (chunk addr payload ∷ es) = smaller (low_of addr) (lowest es)

abbrev pub highest : List Entry → ℕ
highest [] = 0
highest (comment text ∷ es) = highest es
highest (empty_line ∷ es) = highest es
highest (chunk addr payload ∷ es) = larger (high_of addr (length payload)) (highest es)

abbrev pub has_code : List Entry → Bool
has_code [] = false
has_code (comment text ∷ es) = has_code es
has_code (empty_line ∷ es) = has_code es
has_code (chunk addr payload ∷ es) = ltb addr vector_base || has_code es

-- Some chunk holds the byte.
abbrev pub supplies : List Entry → ℕ → Bool
supplies [] x = false
supplies (comment text ∷ es) x = supplies es x
supplies (empty_line ∷ es) x = supplies es x
supplies (chunk addr payload ∷ es) x = holds addr (length payload) x || supplies es x

-- What the entries make of the variables.
abbrev pub Describes : List Entry → Loading → Loading → Type 0
Describes es s s' =
    (s'.code_low ≡ smaller s.code_low (lowest es))
    × (s'.code_high ≡ larger s.code_high (highest es))
    × (s'.have_code ≡ (s.have_code || has_code es))
    × (s'.reset_lo ≡ (s.reset_lo || supplies es 0xfffc))
    × (s'.reset_hi ≡ (s.reset_hi || supplies es 0xfffd))

-- A chunk in range, in terms of the first entry's part of the description.
extend-Describes :
    (s : Loading) (addr : ℕ) (payload : List ℕ) (n : Memory)
    → is_out_of_range addr (length payload) ≡ false
    → leb 0x10000 addr ≡ false
    → s.code_low ≤ 0xffffffff
    → Describes
        (chunk addr payload ∷ [])
        s
        (extend (count_ram s n addr (length payload)) addr (length payload))
unfolding is_out_of_range
extend-Describes s addr payload n fits below low = (
  ground (arith, below, low),
  ground (arith, fits, below),
  ground (arith, below),
  ground (arith, fits, below),
  ground (arith, fits, below),
)

count_xram-Describes :
    (s : Loading) (addr : ℕ) (payload : List ℕ)
    → leb 0x10000 addr ≡ true
    → s.code_low ≤ 0xffffffff
    → Describes (chunk addr payload ∷ []) s (count_xram s (length payload))
count_xram-Describes s addr payload above low = (
  ground (arith, above, low),
  ground (arith, above),
  ground (arith, above),
  ground (arith, above),
  ground (arith, above),
)

load_chunk-some :
    (s : Loading) (addr : ℕ) (payload : List ℕ)
    → IsValid s.memory
    → is_out_of_range addr (length payload) ≡ false
    → (s' : Loading) × (load_chunk s addr payload ≡ some s') × IsValid s'.memory
unfolding load_chunk
load_chunk-some s addr payload ok fits = elim (Bool-cases (leb 0x10000 addr)) [
  | inl above ↦ (count_xram s (length payload), rw above, ok)
  | inr below ↦
      let len = length payload in
      let (n, wrote, ok', _) = write_payload-IsValid s.memory addr 0 payload ok in
      let kept : (extend (count_ram s n addr len) addr len).memory ≡ n = ground arith in
      (extend (count_ram s n addr len) addr len, rw (below, wrote), rw kept ok')
]

load_chunk-Describes :
    (s s' : Loading) (addr : ℕ) (payload : List ℕ)
    → IsValid s.memory
    → is_out_of_range addr (length payload) ≡ false
    → s.code_low ≤ 0xffffffff
    → load_chunk s addr payload ≡ some s'
    → Describes (chunk addr payload ∷ []) s s'
unfolding load_chunk
load_chunk-Describes s s' addr payload ok fits low loads = elim (Bool-cases (leb 0x10000 addr)) [
  | inl above ↦
      let counted = rw above at loads in
      let same : count_xram s (length payload) ≡ s' = cc in
      subst (λ (t : Loading). Describes (chunk addr payload ∷ []) s t) same
        (count_xram-Describes s addr payload above low)
  | inr below ↦
      let len = length payload in
      let (n, wrote, _, _) = write_payload-IsValid s.memory addr 0 payload ok in
      let counted = rw (below, wrote) at loads in
      let same : extend (count_ram s n addr len) addr len ≡ s' = cc in
      subst (λ (t : Loading). Describes (chunk addr payload ∷ []) s t) same
        (extend-Describes s addr payload n fits below low)
]

-- A description of the first entry and one of the others are one of all.
Describes-cons :
    (addr : ℕ) (payload : List ℕ) (es : List Entry) (s t s' : Loading)
    → Describes (chunk addr payload ∷ []) s t
    → Describes es t s'
    → Describes (chunk addr payload ∷ es) s s'
Describes-cons addr payload es s t s' (low, high, have, lo, hi) (low', high', have', lo', hi') = (
  ground (arith, low, low'),
  ground (arith, high, high'),
  ground (arith, have, have'),
  ground (arith, lo, lo'),
  ground (arith, hi, hi'),
)

pub load_entries-Describes :
    (styles : ℕ → Style) (es : List Entry) (s : Loading)
    → IsValid s.memory
    → s.code_low ≤ 0xffffffff
    → AreEntries styles es
    → (s' : Loading) × (load_entries s es ≡ some s') × Describes es s s'
load_entries-Describes styles [] s ok low are =
    (s, refl, (ground (arith, low), ground arith, ground arith, ground arith, ground arith))
load_entries-Describes styles (comment text ∷ es) s ok low are =
    load_entries-Describes (behind_line styles) es s ok low are.1
load_entries-Describes styles (empty_line ∷ es) s ok low are =
    load_entries-Describes (behind_line styles) es s ok low are.1
load_entries-Describes styles (chunk addr payload ∷ es) s ok low ((inside, numbers), are) =
    let fits = is_in_range_lem addr (length payload) inside in
    let (t, loads, ok') = load_chunk-some s addr payload ok fits in
    let first = load_chunk-Describes s t addr payload ok fits low loads in
    let low' : t.code_low ≤ 0xffffffff = ground (arith, low, first.0) in
    let (s', rest, others) = load_entries-Describes (behind_line styles) es t ok' low' are in
    (s', rw loads rest, Describes-cons addr payload es s t s' first others)
