-- ===== src/Rp6502file/Image.antt =====
-- What a ROM leaves in the image that the command line maps.
use dis.Base.{
  ℕ, suc, ◌+◌, ◌-◌, ◌≤◌, ◌<◌, ◌≡◌, refl, sym, ap, ◌∙◌, arith, Bool, true, false, ◌&&◌, Option, none,
  some, List, [], ◌∷◌, ltb, leb, ◌==◌, if◌then◌else◌, length, get_or, u16, Bool-cases, inl, inr,
}
use dis.Memory.{Memory, Region, ram, caller, find_region, mem_read, mem_write}
use dis.Memory.Access.{mem_read-mem_write, writes_at, same_cell, cell_of}
use dis.Memory.Valid.{IsValid, accesses-IsValid}
use dis.Rp6502file.Bounds.{is_in_range_lem}
use dis.Rp6502file.Parse.{is_out_of_range}
use dis.Rp6502file.Read.{
  Loading, RomError, described, count_ram, count_xram, extend, Reading, write_payload, load_chunk,
  finish, nothing_loaded, read_rp6502_file,
}
use dis.Rp6502file.Finish.{finish_lem}
use dis.Rp6502file.Ranges.{has_code, load_entries-Describes}
use dis.Rp6502file.Load.{IsSound, write_payload-IsValid, load_chunk-IsSound}
use dis.Rp6502file.Total.{read_rp6502_file-IsGood}
use dis.Rp6502file.RoundTrip.{read_rp6502_file-file_text}
use dis.Rp6502file.Format.{
  Style, Layout, IsLayout, file_text, Entry, comment, empty_line, chunk, AreEntries, behind_line,
  entry_styles, load_entries,
}

-- The region of `MapRAM(0x0000, image, 0xffff)`.
abbrev pub image_region : Region
image_region = record {
  start = 0;
  end = 0xfffe;
  type = ram;
  bytes_at = caller 0;
  fill_byte = 0;
  writable = true;
}

-- The image, and nothing else, is mapped.
abbrev pub IsImage : Memory → Type 0
IsImage m = IsValid m × (m.regions ≡ image_region ∷ [])

-- A byte of the address space after a chunk, `old` where the chunk has none.
abbrev pub byte_after : ℕ → List ℕ → ℕ → Option ℕ → Option ℕ
byte_after addr payload y old =
    if leb addr y && ltb y (addr + length payload) && ltb y 0xffff
    then some (get_or payload (y - addr) 0)
    else old

-- A byte of the address space after the entries in order.
abbrev pub byte_of : List Entry → ℕ → Option ℕ → Option ℕ
byte_of [] y old = old
byte_of (comment text ∷ es) y old = byte_of es y old
byte_of (empty_line ∷ es) y old = byte_of es y old
byte_of (chunk addr payload ∷ es) y old = byte_of es y (byte_after addr payload y old)

image_cells :
    (m : Memory) (x y : ℕ)
    → m.regions ≡ image_region ∷ []
    → x < 65536
    → y < 65536
    → (writes_at m x && same_cell (cell_of m x) (cell_of m y)) ≡ (x == y && ltb y 0xffff)
unfolding find_region
image_cells m x y image hx hy = rw image (ground (arith, hx, hy))

mem_write-byte :
    (m m' : Memory) (x y val : ℕ)
    → m.regions ≡ image_region ∷ []
    → x < 65536
    → y < 65536
    → mem_write m x val ≡ some m'
    → mem_read m' y ≡ (if x == y && ltb y 0xffff then some val else mem_read m y)
mem_write-byte m m' x y val image hx hy wrote =
    rw (← image_cells m x y image hx hy) (mem_read-mem_write m m' x y val wrote)

get_or-past :
    (b a y : ℕ) (payload : List ℕ)
    → a < y
    → get_or (b ∷ payload) (y - a) 0 ≡ get_or payload (y - (a + 1)) 0
get_or-past b a y payload past = let next : y - a ≡ suc (y - (a + 1)) = omega arith in rw next refl

get_or-here : (b a y : ℕ) (payload : List ℕ) → (a == y) ≡ true → get_or (b ∷ payload) (y - a) 0 ≡ b
get_or-here b a y payload here =
    let none_left : y - a ≡ 0 = ground (arith, here) in rw none_left refl

byte_after-cons :
    (a b : ℕ) (payload : List ℕ) (y : ℕ) (old : Option ℕ)
    → byte_after (a + 1) payload y (if a == y && ltb y 0xffff then some b else old)
      ≡ byte_after a (b ∷ payload) y old
byte_after-cons a b payload y old = elim (Bool-cases (ltb a y)) [
  | inl past ↦
      let same = get_or-past b a y payload (ground (arith, past)) in rw same (ground (arith, past))
  | inr not_past ↦ elim (Bool-cases (a == y)) [
    | inl here ↦ rw (get_or-here b a y payload here) (ground (arith, here))
    | inr before ↦ ground (arith, not_past, before)
  ]
]

pub write_payload-byte :
    (m m' : Memory) (addr i : ℕ) (payload : List ℕ) (y : ℕ)
    → IsImage m
    → addr + i + length payload ≤ 65536
    → y < 65536
    → write_payload m addr i payload ≡ some m'
    → mem_read m' y ≡ byte_after (addr + i) payload y (mem_read m y)
unfolding write_payload
write_payload-byte m m' addr i [] y image fits hy wrote =
    let same : m ≡ m' = cc in rw (← same) (ground arith)
write_payload-byte m m' addr i (b ∷ payload) y (ok, image) fits hy wrote =
    let x = u16 (addr + i) in
    let at : x ≡ addr + i = omega arith in
    let (_, (n, wrote_one, ok', same)) = accesses-IsValid m x b (omega arith) ok in
    let rest = rw wrote_one at wrote in
    let image' : IsImage n = (ok', same ∙ image) in
    let next = write_payload-byte n m' addr (i + 1) payload y image' (omega arith) hy rest in
    let one = mem_write-byte m n x y b image (omega arith) hy wrote_one in
    let moved : addr + (i + 1) ≡ addr + i + 1 = omega arith in
    next ∙ rw (one, moved, at) (byte_after-cons (addr + i) b payload y (mem_read m y))

-- A chunk in range.
load_chunk-byte :
    (s s' : Loading) (addr : ℕ) (payload : List ℕ) (y : ℕ)
    → IsImage s.memory
    → is_out_of_range addr (length payload) ≡ false
    → y < 65536
    → load_chunk s addr payload ≡ some s'
    → mem_read s'.memory y ≡ byte_after addr payload y (mem_read s.memory y)
unfolding load_chunk is_out_of_range
load_chunk-byte s s' addr payload y image fits hy loads = elim (Bool-cases (leb 0x10000 addr)) [
  | inl above ↦
      let counted = rw above at loads in
      let same : count_xram s (length payload) ≡ s' = cc in rw (← same) (ground (arith, above))
  | inr below ↦
      let len = length payload in
      let (n, wrote, ok, kept) = write_payload-IsValid s.memory addr 0 payload image.0 in
      let left : addr + 0 + len ≤ 65536 = ground (arith, fits, below) in
      let start : addr + 0 ≡ addr = omega arith in
      let written = write_payload-byte s.memory n addr 0 payload y image left hy wrote in
      let counted = rw (below, wrote) at loads in
      let same : extend (count_ram s n addr len) addr len ≡ s' = cc in
      let memory : (extend (count_ram s n addr len) addr len).memory ≡ n = ground arith in
      rw (← same) (rw memory (rw start at written))
]

-- The entries in order leave an image.
pub load_entries-byte :
    (styles : ℕ → Style) (es : List Entry) (m : Memory) (s : Loading)
    → m.regions ≡ image_region ∷ []
    → AreEntries styles es
    → IsSound m s
    → (s' : Loading) × (load_entries s es ≡ some s')
      × IsSound m s'
      × ((y : ℕ) → y < 65536 → mem_read s'.memory y ≡ byte_of es y (mem_read s.memory y))
load_entries-byte styles [] m s image ok sound = (s, refl, sound, λ y hy. refl)
load_entries-byte styles (comment text ∷ es) m s image ok sound =
    load_entries-byte (behind_line styles) es m s image ok.1 sound
load_entries-byte styles (empty_line ∷ es) m s image ok sound =
    load_entries-byte (behind_line styles) es m s image ok.1 sound
load_entries-byte styles (chunk addr payload ∷ es) m s image ((inside, are), ok) sound =
    let fits = is_in_range_lem addr (length payload) inside in
    let (s1, loads, sound1) = load_chunk-IsSound m s addr payload fits sound in
    let (s', rest, sound', bytes) =
      load_entries-byte (behind_line styles) es m s1 image ok sound1 in
    let one = λ (y : ℕ) (hy : y < 65536).
      load_chunk-byte s s1 addr payload y (sound.0, sound.1 ∙ image) fits hy loads in
    (s', rw loads rest, sound', λ y hy. rw (bytes y hy, one y hy))

-- In an image as the command line maps it, a file in the format of rp6502file.h, with comments
-- that fit a line, each line with its own notations (decimal, or C or MOS hex of up to 32 digits
-- in either case) and its own line end, with or without a CR, without a group and with a file that
-- can be sought, or with a group of 32-bit size and CRC, is read to its end, and refused exactly
-- if no chunk lies below the vectors at $FFFA, for want of code. Either way MemRead then gives at
-- each address the byte of the last chunk that holds it, below $FFFF, and elsewhere what it gave
-- before.
pub read_rp6502_file-byte :
    (styles : ℕ → Style) (layout : Layout) (seeks : Bool) (es : List Entry) (m : Memory)
    → IsImage m
    → AreEntries (entry_styles layout styles) es
    → IsLayout styles layout es seeks
    → (r : Reading) × (read_rp6502_file seeks (some (file_text styles layout es)) m ≡ some r)
      × (r.error ≡ (if has_code es then none else some RomError.no_code))
      × ((y : ℕ) → y < 65536 → mem_read r.loading.memory y ≡ byte_of es y (mem_read m y))
read_rp6502_file-byte styles layout seeks es m image ok laid =
    let (r, reads, good) =
      read_rp6502_file-IsGood seeks (some (file_text styles layout es)) m image.0 in
    let (s, loads, sound, bytes) =
      load_entries-byte (entry_styles layout styles) es m (nothing_loaded m) image.1 ok
        (image.0, refl, inl (refl, refl, refl)) in
    let done : finish s ≡ some r =
      rw loads at (sym (read_rp6502_file-file_text styles layout seeks es m ok laid) ∙ reads) in
    let (memory, error) = finish_lem s r done in
    let (s', loads', described) =
      load_entries-Describes (entry_styles layout styles) es (nothing_loaded m) image.0
        (omega arith) ok in
    let same : s ≡ s' = cc in
    let code : s.have_code ≡ has_code es = ap Loading.have_code same ∙ described.2 in
    (
      r,
      reads,
      error ∙ ap (λ (b : Bool). if b then none else some RomError.no_code) code,
      λ y hy. rw memory (bytes y hy),
    )
