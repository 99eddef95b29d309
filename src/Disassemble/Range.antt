-- ===== src/Disassemble/Range.antt =====
-- `DisRange`: its lines, instruction by instruction.
use dis.Base.{
  ℕ, zero, suc, ◌+◌, ◌-◌, ◌≤◌, ◌<◌, ◌≡◌, refl, ap, some, List, [], ◌∷◌, true, false, min, inl, inr,
  arith, u8, u16, ltb, ◌==◌, if◌then◌else◌, Bool-cases, length, get_or, take, ◌||◌,
}
use mathlib.Core.Option
use dis.Cpu.{VrEmu6502}
use dis.Disassemble.{
  Line, text_or, dis_inst_len, dis_one, composed, fetch_bytes, range_loop, dis_range,
}
use dis.Disassemble.Length.{dis_inst_len_bounds}

pub length-fetch_bytes : (read : ℕ → ℕ) (pc i left : ℕ) → length (fetch_bytes read pc i left) ≡ left
unfolding fetch_bytes
length-fetch_bytes read pc i zero = refl
length-fetch_bytes read pc i (suc left) = ap suc (length-fetch_bytes read pc (i + 1) left)

pub get_or-fetch_bytes :
    (read : ℕ → ℕ) (pc i left j : ℕ)
    → j < left
    → get_or (fetch_bytes read pc i left) j 0 ≡ read (u16 (pc + (i + j)))
unfolding fetch_bytes
get_or-fetch_bytes read pc i zero j h = absurd (omega arith)
get_or-fetch_bytes read pc i (suc left) zero h = let e : i ≡ i + 0 = omega arith in rw (← e)
get_or-fetch_bytes read pc i (suc left) (suc j) h =
    let e : i + 1 + j ≡ i + suc j = omega arith in
    rw (← e) (get_or-fetch_bytes read pc (i + 1) left j (omega arith))

module _ (cpu : VrEmu6502) (read : ℕ → ℕ) where
  -- The bytes of the instruction at `pc`, all of them and in order.
  abbrev pub IsInstructionAt : ℕ → List ℕ → Type 0
  IsInstructionAt pc bytes =
      (length bytes ≡ dis_inst_len (some cpu) (read pc))
      × ((i : ℕ) → i < length bytes → get_or bytes i 0 ≡ read (u16 (pc + i)))

  -- The lines are the instructions from `pc` on, one behind the other, each begins before `stop`,
  -- and the last one ends at `stop` or behind it.
  abbrev pub Tiles : ℕ → ℕ → List Line → Type 0
  Tiles stop pc [] = stop ≤ pc
  Tiles stop pc (l ∷ ls) =
      (l.addr ≡ pc)
      × (pc < stop)
      × IsInstructionAt pc l.bytes
      × (l.text ≡ take 47 (composed cpu pc read))
      × Tiles stop (pc + length l.bytes) ls

  abbrev pub size_at : ℕ → ℕ
  size_at pc = dis_inst_len (some cpu) (read pc)

  abbrev pub emitted : ℕ → Line
  emitted pc = record {
    addr = pc;
    bytes = fetch_bytes read pc 0 (size_at pc);
    text = text_or (dis_one (some cpu) pc read 48).text [];
  }

  emitted-Tiles :
      (stop pc : ℕ) (ls : List Line)
      → pc < stop
      → Tiles stop (pc + size_at pc) ls
      → Tiles stop pc (emitted pc ∷ ls)
  unfolding dis_one
  emitted-Tiles stop pc ls h rest =
      let size = length-fetch_bytes read pc 0 (size_at pc) in
      (
        refl,
        h,
        (
          size,
          λ i lt.
              let e : 0 + i ≡ i = omega arith in
              rw e at (get_or-fetch_bytes read pc 0 (size_at pc) i (rw size at lt)),
        ),
        refl,
        rw size rest,
      )

  pub range_loop-suc :
      (len fuel pc consumed : ℕ)
      → pc < 65536
      → range_loop (some cpu) read len (suc fuel) pc consumed ≡ (
          if ltb consumed len
          then if ltb (u16 (pc + size_at pc)) pc
            then some (emitted pc ∷ [])
            else Option.map
                (λ lines. emitted pc ∷ lines)
                (range_loop
                  (some cpu)
                  read
                  len
                  fuel
                  (u16 (pc + size_at pc))
                  (consumed + size_at pc))
          else some [])
  unfolding range_loop dis_one
  range_loop-suc len fuel pc consumed h =
      let bounds = dis_inst_len_bounds cpu (read pc) in
      let e : u8 (u16 (pc + size_at pc) + 65536 - pc) ≡ size_at pc = omega (arith, bounds) in
      let ok : (ltb (size_at pc) 1 || ltb 3 (size_at pc)) ≡ false = ground (arith, bounds) in
      rw (e, ok)

  range_loop-on :
      (len fuel pc consumed : ℕ) (lines : List Line)
      → pc < 65536
      → ltb consumed len ≡ true
      → ltb (u16 (pc + size_at pc)) pc ≡ false
      → u16 (pc + size_at pc) ≡ pc + size_at pc
      → range_loop (some cpu) read len fuel (pc + size_at pc) (consumed + size_at pc) ≡ some lines
      → range_loop (some cpu) read len (suc fuel) pc consumed ≡ some (emitted pc ∷ lines)
  range_loop-on len fuel pc consumed lines h more on next runs =
      rw (range_loop-suc len fuel pc consumed h, more, on, next, runs)

  range_loop-Tiles :
      (fuel addr len pc consumed : ℕ)
      → pc < 65536
      → addr + consumed ≡ pc
      → len - consumed < fuel
      → (lines : List Line) × (range_loop (some cpu) read len fuel pc consumed ≡ some lines)
        × Tiles (min (addr + len) 65536) pc lines
  range_loop-Tiles zero addr len pc consumed h e f = absurd (omega arith)
  range_loop-Tiles (suc fuel) addr len pc consumed h e f = elim (Bool-cases (ltb consumed len)) [
    | inl more ↦ elim (Bool-cases (ltb (u16 (pc + size_at pc)) pc)) [
      | inl wraps ↦ (
        emitted pc ∷ [],
        rw (range_loop-suc len fuel pc consumed h, more, wraps),
        emitted-Tiles _ pc [] (ground arith) (ground (arith, dis_inst_len_bounds cpu (read pc))),
      )
      | inr on ↦
          let bounds = dis_inst_len_bounds cpu (read pc) in
          let next : u16 (pc + size_at pc) ≡ pc + size_at pc = ground (arith, bounds) in
          let (lines, runs, tiles) =
            range_loop-Tiles fuel addr len (pc + size_at pc) (consumed + size_at pc)
              (ground (arith, bounds)) (omega arith) (ground (arith, bounds)) in
          (
            emitted pc ∷ lines,
            range_loop-on len fuel pc consumed lines h more on next runs,
            emitted-Tiles _ pc lines (ground arith) tiles,
          )
    ]
    | inr done ↦ ([], rw (range_loop-suc len fuel pc consumed h, done), ground arith)
  ]

  -- With an opcode table and from a 16-bit address, DisRange ends, and its lines tile the range up
  -- to its end or the top of memory: they are consecutive whole instructions with their bytes and
  -- texts, each begins inside the range, and together they leave none of it out.
  pub dis_range-Tiles :
      (addr len : ℕ)
      → addr < 65536
      → (lines : List Line) × (dis_range (some cpu) addr len read ≡ some lines)
        × Tiles (min (addr + len) 65536) addr lines
  unfolding dis_range
  dis_range-Tiles addr len h = elim (Bool-cases (len == 0)) [
    | inl empty ↦ ([], rw empty, ground arith)
    | inr some_bytes ↦
        let (lines, runs, tiles) =
          range_loop-Tiles (suc len) addr len addr 0 h (omega arith) (omega arith) in
        (lines, rw (some_bytes, runs), tiles)
  ]
