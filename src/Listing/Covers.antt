-- ===== src/Listing/Covers.antt =====
-- `printAnalyzed` in dis.c: the addresses that its listing covers.
use dis.Base.{
  ℕ, zero, suc, ◌+◌, ◌-◌, ◌≤◌, ◌<◌, ◌≡◌, inl, inr, refl, arith, true, false, ◌||◌, some, List, [],
  ◌∷◌, ◌++◌, ◌∙◌, ltb, ◌==◌, ==_iff, u16, Bool-cases,
}
use dis.Cpu.{VrEmu6502}
use dis.Disassemble.{dis_one, dis_inst_len}
use dis.Disassemble.Length.{dis_inst_len_bounds}
use dis.Disassemble.Range.{length-fetch_bytes, get_or-fetch_bytes}
use dis.Analyze.{DisAnalysis, analyze_is_instruction}
use dis.Listing.{
  Item, unreached, skip_unreached, headers, len_of, instruction_items, print_loop, print_analyzed,
}
use dis.Listing.Pieces.{
  Covers, is_start, is_named, headers-Covers, overlaps-Covers, overlaps-Announced,
}

module _ (a : DisAnalysis) (hi entry : ℕ) (cpu : VrEmu6502) (read : ℕ → ℕ) where
  skip_unreached_lem :
      (left addr : ℕ)
      → (addr ≤ skip_unreached a left addr)
        × (skip_unreached a left addr ≤ addr + left)
        × ((x : ℕ)
            → addr ≤ x
            → x < skip_unreached a left addr
            → is_start a hi entry cpu read x ≡ false)
  unfolding skip_unreached
  skip_unreached_lem zero addr = (omega arith, omega arith, λ x lo lt. absurd (omega arith))
  skip_unreached_lem (suc left) addr =
      let rest = skip_unreached_lem left (addr + 1) in
      elim (Bool-cases (is_start a hi entry cpu read addr)) [
        | inl start ↦ rw start (omega arith, omega arith, λ x lo lt. absurd (omega arith))
        | inr gap ↦ rw gap (
          omega (arith, rest.0),
          omega (arith, rest.1),
          λ x lo lt. elim (Bool-cases (addr == x)) [
            | inl here ↦ let e = (==_iff addr x).0 here in rw e at gap
            | inr later ↦ rest.2 x (ground arith) lt
          ],
        )
      ]

  skip_unreached_moves :
      (left addr : ℕ)
      → 0 < left
      → is_start a hi entry cpu read addr ≡ false
      → addr + 1 ≤ skip_unreached a left addr
  unfolding skip_unreached
  skip_unreached_moves zero addr pos gap = absurd (omega arith)
  skip_unreached_moves (suc left) addr pos gap = rw gap (skip_unreached_lem left (addr + 1)).0

  size_of : ℕ → ℕ
  size_of at = dis_inst_len (some cpu) (read at)

  len_of-eq : (at : ℕ) → at < 65536 → len_of (some cpu) read a hi entry at ≡ size_of at
  unfolding dis_one size_of
  len_of-eq at top = omega (arith, dis_inst_len_bounds cpu (read at))

  instruction-Covers :
      (addr : ℕ) (items : List Item)
      → addr < 65536
      → addr ≤ hi
      → is_start a hi entry cpu read addr ≡ true
      → Covers a hi entry cpu read false (addr + len_of (some cpu) read a hi entry addr) items
      → Covers a hi entry cpu read
          (is_named a hi entry cpu read addr)
          addr
          (instruction_items (some cpu) read a hi entry addr ++ items)
  unfolding size_of
  instruction-Covers addr items top inside start rest =
      let n = len_of (some cpu) read a hi entry addr in
      let size = length-fetch_bytes read addr 0 n in
      (
        refl,
        refl,
        inside,
        start,
        size ∙ len_of-eq addr top,
        λ i lt.
            let e : 0 + i ≡ i = omega arith in
            rw e at (get_or-fetch_bytes read addr 0 n i (omega (arith, size, lt))),
        refl,
        λ i lo lt also.
            overlaps-Announced a hi entry cpu read addr 1 (n - 1) i items lo (omega (arith, size))
              also,
        rw size (overlaps-Covers a hi entry cpu read addr 1 (n - 1) (addr + n) items rest),
      )

  print_loop-Covers :
      (fuel addr : ℕ)
      → hi < 65536
      → hi + 1 - addr < fuel
      → (items : List Item) × (print_loop (some cpu) read a hi entry fuel addr ≡ some items)
        × Covers a hi entry cpu read false addr items
  unfolding print_loop size_of
  print_loop-Covers zero addr top enough = absurd (omega arith)
  print_loop-Covers (suc fuel) addr top enough = elim (Bool-cases (ltb hi addr)) [
    | inl above ↦ ([], rw above, (refl, ground arith))
    | inr inside ↦
        let at : u16 addr ≡ addr = ground arith in
        elim (Bool-cases (analyze_is_instruction (some a) (u16 addr))) [
          | inr gap ↦
              let next = skip_unreached a (hi + 1 - addr) addr in
              let skip = skip_unreached_lem (hi + 1 - addr) addr in
              let on : addr + 1 ≤ next =
                skip_unreached_moves (hi + 1 - addr) addr (ground arith) gap in
              let reach : addr + (next - addr) ≡ next = omega (arith, on) in
              let (items, runs, covers) = print_loop-Covers fuel next top (ground arith) in
              (
                unreached addr (next - 1) (next - addr) ∷ items,
                rw (inside, gap, runs),
                (
                  refl,
                  refl,
                  omega (arith, on),
                  omega (arith, on),
                  ground (arith, skip.1),
                  λ x lo le. skip.2 x lo (omega (arith, on)),
                  rw reach covers,
                ),
              )
          | inl start ↦
              let n = len_of (some cpu) read a hi entry addr in
              let bounds = dis_inst_len_bounds cpu (read addr) in
              let size = len_of-eq addr (ground arith) in
              let whole : (n == 0 || ltb 3 n) ≡ false = ground (arith, size, bounds) in
              let (items, runs, covers) =
                print_loop-Covers fuel (addr + n) top (ground (arith, size, bounds)) in
              (
                headers a entry addr
                    ++ (instruction_items (some cpu) read a hi entry addr ++ items),
                rw (inside, start, at, whole, runs),
                headers-Covers a hi entry cpu read addr
                    (instruction_items (some cpu) read a hi entry addr ++ items)
                    (instruction-Covers addr items (ground arith) (ground arith) start covers),
              )
        ]
  ]

  -- With an opcode table and a 16-bit end hi, the listing of printAnalyzed ends, and its pieces
  -- cover the addresses from lo to hi in order, each once: runs of bytes that are no instruction
  -- starts, and whole instructions, each at a start, with its bytes and the text of DisOne. An
  -- instruction has a header in front exactly if its address is a function, with the entry point
  -- or the number of callers, or a label. Every further start that an instruction steps over is
  -- announced.
  pub print_analyzed-Covers :
      (lo : ℕ)
      → hi < 65536
      → (items : List Item) × (print_analyzed (some cpu) read a lo hi entry ≡ some items)
        × Covers a hi entry cpu read false lo items
  unfolding print_analyzed
  print_analyzed-Covers lo top = print_loop-Covers (suc (suc hi - lo)) lo top (omega arith)
