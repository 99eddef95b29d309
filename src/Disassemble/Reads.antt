-- ===== src/Disassemble/Reads.antt =====
-- Which bytes `DisRange` reads.
use dis.Base.{
  ℕ, zero, suc, ◌+◌, ◌≤◌, ◌<◌, ◌≡◌, refl, ap, ap₂, sym, ◌∙◌, arith, true, false, Option, some, List,
  [], ◌∷◌, inl, inr, Bool-cases, ltb, ◌==◌, u16,
}
use mathlib.Core.Option
use dis.Base.Text.{Text}
use dis.Cpu.{VrEmu6502}
use dis.Disassemble.{Line, text_or, Decoded, fetch_bytes, range_loop, dis_range}
use dis.Disassemble.Length.{dis_inst_len_bounds, dis_one_reads}
use dis.Disassemble.Range.{size_at, emitted, range_loop-suc}

fetch_bytes_cong :
    (read read' : ℕ → ℕ) (pc i left : ℕ)
    → ((k : ℕ) → i ≤ k → k < i + left → read (u16 (pc + k)) ≡ read' (u16 (pc + k)))
    → fetch_bytes read pc i left ≡ fetch_bytes read' pc i left
unfolding fetch_bytes
fetch_bytes_cong read read' pc i zero same = refl
fetch_bytes_cong read read' pc i (suc left) same =
    ap₂ ◌∷◌ (same i (omega arith) (omega arith))
      (fetch_bytes_cong read read' pc (i + 1) left (λ k lo hi. same k (omega arith) (omega arith)))

module _ (cpu : VrEmu6502) (read read' : ℕ → ℕ) where
  -- The two memories agree on the three bytes from `pc` on.
  abbrev Agree : ℕ → Type 0
  Agree pc = (k : ℕ) → k ≤ 2 → read (u16 (pc + k)) ≡ read' (u16 (pc + k))

  size_same : (pc : ℕ) → pc < 65536 → Agree pc → size_at cpu read pc ≡ size_at cpu read' pc
  size_same pc top same =
      let here : u16 (pc + 0) ≡ pc = omega arith in
      let e : read pc ≡ read' pc = rw here at (same 0 (omega arith)) in rw e

  emitted_same : (pc : ℕ) → pc < 65536 → Agree pc → emitted cpu read pc ≡ emitted cpu read' pc
  emitted_same pc top same =
      let bounds = dis_inst_len_bounds cpu (read pc) in
      let one = dis_one_reads cpu pc 48 read read' top (λ i lt. same i (omega arith)) in
      let bytes =
        fetch_bytes_cong read read' pc 0 (size_at cpu read pc) (λ k lo lt. same k (omega arith)) in
      let size = size_same pc top same in
      ap₂ (λ (bs : List ℕ) (t : Text). record { addr = pc; bytes = bs; text = t })
        (bytes ∙ ap (λ (n : ℕ). fetch_bytes read' pc 0 n) size)
        (ap (λ (d : Decoded). text_or d.text []) one)

  last :
      (r : ℕ → ℕ) (len fuel pc consumed : ℕ)
      → pc < 65536
      → ltb consumed len ≡ true
      → ltb (u16 (pc + size_at cpu r pc)) pc ≡ true
      → range_loop (some cpu) r len (suc fuel) pc consumed ≡ some (emitted cpu r pc ∷ [])
  last r len fuel pc consumed top more wraps =
      rw (range_loop-suc cpu r len fuel pc consumed top, more, wraps)

  onward :
      (r : ℕ → ℕ) (len fuel pc consumed : ℕ)
      → pc < 65536
      → ltb consumed len ≡ true
      → ltb (u16 (pc + size_at cpu r pc)) pc ≡ false
      → range_loop (some cpu) r len (suc fuel) pc consumed
        ≡ Option.map
            (λ lines. emitted cpu r pc ∷ lines)
            (range_loop (some cpu) r len fuel (pc + size_at cpu r pc) (consumed + size_at cpu r pc))
  onward r len fuel pc consumed top more on =
      let bounds = dis_inst_len_bounds cpu (r pc) in
      let next : u16 (pc + size_at cpu r pc) ≡ pc + size_at cpu r pc = ground (arith, bounds) in
      rw (range_loop-suc cpu r len fuel pc consumed top, more, on, next)

  range_loop_same :
      (fuel addr len pc consumed : ℕ)
      → pc < 65536
      → addr + consumed ≡ pc
      → ((i : ℕ) → i < len + 2 → read (u16 (addr + i)) ≡ read' (u16 (addr + i)))
      → range_loop (some cpu) read len fuel pc consumed
        ≡ range_loop (some cpu) read' len fuel pc consumed
  range_loop_same zero addr len pc consumed top e same = unfold range_loop in refl
  range_loop_same (suc fuel) addr len pc consumed top e same =
      elim (Bool-cases (ltb consumed len)) [
        | inr done ↦
            rw (range_loop-suc cpu read len fuel pc consumed top, done)
              (rw (range_loop-suc cpu read' len fuel pc consumed top, done))
        | inl more ↦
            let agree : Agree pc = λ k le.
              let there : pc + k ≡ addr + (consumed + k) = omega arith in
              rw there (same (consumed + k) (ground arith)) in
            let size = size_same pc top agree in
            let line = emitted_same pc top agree in
            elim (Bool-cases (ltb (u16 (pc + size_at cpu read pc)) pc)) [
              | inl wraps ↦
                  last read len fuel pc consumed top more wraps
                  ∙ ap (λ (l : Line). some (l ∷ [])) line
                  ∙ sym (last read' len fuel pc consumed top more (rw size at wraps))
              | inr on ↦
                  let bounds = dis_inst_len_bounds cpu (read pc) in
                  let n = size_at cpu read pc in
                  let rest =
                    range_loop_same fuel addr len (pc + n) (consumed + n) (ground (arith, bounds))
                      (omega arith) same in
                  onward read len fuel pc consumed top more on
                  ∙ ap₂ (λ (l : Line) (r : Option (List Line)). Option.map (λ lines. l ∷ lines) r)
                      line
                      (rest
                        ∙ ap
                            (λ (k : ℕ).
                              range_loop (some cpu) read' len fuel (pc + k) (consumed + k))
                            size)
                  ∙ sym (onward read' len fuel pc consumed top more (rw size at on))
            ]
      ]

-- With an opcode table and from a 16-bit address, DisRange depends on no byte of memory but those
-- of the range and the two behind it, at addresses that wrap to 16 bits: two memories that agree
-- on them give the same lines.
pub dis_range_reads :
    (cpu : VrEmu6502) (read read' : ℕ → ℕ) (addr len : ℕ)
    → addr < 65536
    → ((i : ℕ) → i < len + 2 → read (u16 (addr + i)) ≡ read' (u16 (addr + i)))
    → dis_range (some cpu) addr len read ≡ dis_range (some cpu) addr len read'
unfolding dis_range
dis_range_reads cpu read read' addr len top same = elim (Bool-cases (len == 0)) [
  | inl empty ↦ rw empty
  | inr some_bytes ↦
      rw some_bytes
        (range_loop_same cpu read read' (suc len) addr len addr 0 top (omega arith) same)
]
