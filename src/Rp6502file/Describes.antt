-- ===== src/Rp6502file/Describes.antt =====
-- The description of a ROM that readRp6502File gives: where its code lies, and what it counts.
use dis.Base.{
  ℕ, ◌+◌, ◌≤◌, ◌<◌, ◌≡◌, refl, ap, ap₂, ◌∙◌, arith, Bool, true, ◌&&◌, none, some, List, [], ◌∷◌,
  leb, bit_or, ◌*◌, if◌then◌else◌, u16, Bool-cases, inl, inr,
}
use dis.Memory.{Memory, mem_read}
use dis.Rp6502file.Read.{
  read_rp6502_file, nothing_loaded, reset_vector, finish, start_at, described, Loading, Reading,
  vector_base,
}
use dis.Base.Bits.{bit_or_bytes}
use dis.Rp6502file.Load.{InOrder}
use dis.Rp6502file.Image.{IsImage, byte_of, load_entries-byte}
use dis.Rp6502file.RoundTrip.{read_rp6502_file-file_text}
use dis.Rp6502file.Ranges.{lowest, highest, has_code, supplies, load_entries-Describes}
use dis.Rp6502file.Format.{
  Style, Layout, IsLayout, file_text, Entry, comment, empty_line, chunk, AreEntries, entry_styles,
}

lowest-bound : (es : List Entry) → lowest es ≤ 0xffffffff
lowest-bound [] = omega arith
lowest-bound (comment text ∷ es) = lowest-bound es
lowest-bound (empty_line ∷ es) = lowest-bound es
lowest-bound (chunk addr payload ∷ es) = ground (arith, lowest-bound es)

reset_vector-bytes :
    (m : Memory) (lo hi : ℕ)
    → lo < 256
    → hi < 256
    → mem_read m 0xfffc ≡ some lo
    → mem_read m 0xfffd ≡ some hi
    → reset_vector m ≡ some (lo + hi * 256)
unfolding reset_vector
reset_vector-bytes m lo hi lo-lt hi-lt low high =
    let fits : u16 (hi * 256) ≡ hi * 256 = omega arith in
    let word : u16 (bit_or lo (u16 (hi * 256))) ≡ lo + hi * 256 =
      omega (arith, bit_or_bytes lo hi lo-lt, ap (λ (t : ℕ). bit_or lo t) fits) in
    rw (low, high, word) refl

-- Where the entry is: at the reset vector, if both bytes are supplied and it points into the code.
abbrev pub start_of : List Entry → ℕ → ℕ
start_of es vector =
    if supplies es 0xfffc && supplies es 0xfffd && leb (lowest es) vector && leb vector (highest es)
    then vector
    else lowest es

start_of-eq :
    (es : List Entry) (v : ℕ) (p q : Bool) (low high : ℕ)
    → p ≡ supplies es 0xfffc
    → q ≡ supplies es 0xfffd
    → low ≡ lowest es
    → high ≡ highest es
    → (if p && q && leb low v && leb v high then v else low) ≡ start_of es v
start_of-eq es v p q low high p_is q_is low_is high_is = rw (p_is, q_is, low_is, high_is) refl

finish-start :
    (s : Loading) (v : ℕ)
    → s.have_code ≡ true
    → s.code_low ≤ s.code_high
    → s.code_high < vector_base
    → reset_vector s.memory ≡ some v
    → (r : Reading) × (finish s ≡ some r)
      × (r.error ≡ none)
      × (r.loading.out.end ≡ s.code_high)
      × (r.loading.out.has_reset_vector ≡ (s.reset_lo && s.reset_hi))
      × (r.loading.out.entry ≡ (
          if s.reset_lo && s.reset_hi && leb s.code_low v && leb v s.code_high
          then v
          else s.code_low))
unfolding finish
finish-start s v code order top reads = elim (Bool-cases (s.reset_lo && s.reset_hi)) [
  | inl given ↦ (
    start_at (described s) (some v),
    rw (code, given, reads) refl,
    ground arith,
    ground (arith, top),
    ground arith,
    ground (arith, given, order, top),
  )
  | inr absent ↦ (
    start_at (described s) none,
    rw (code, absent) refl,
    refl,
    ground (arith, top),
    refl,
    ground (arith, absent, order, top),
  )
]

-- In an image as the command line maps it, a file in the format of rp6502file.h, with comments
-- that fit a line, each line with its own notations (decimal, or C or MOS hex of up to 32 digits
-- in either case) and its own line end, with or without a CR, without a group and with a file that
-- can be sought, or with a group of 32-bit size and CRC, and with a chunk below the vectors at
-- $FFFA, is read without an error. The end is then the highest byte of such chunks below the
-- vectors. The entry is the reset vector, whose bytes lo and hi MemRead gives in the end, if
-- chunks supply both of them and it lies between the lowest such byte and the end, and otherwise
-- that lowest byte.
pub read_rp6502_file-start :
    (styles : ℕ → Style) (layout : Layout) (seeks : Bool) (es : List Entry) (m : Memory) (lo hi : ℕ)
    → IsImage m
    → AreEntries (entry_styles layout styles) es
    → IsLayout styles layout es seeks
    → has_code es ≡ true
    → lo < 256
    → hi < 256
    → byte_of es 0xfffc (mem_read m 0xfffc) ≡ some lo
    → byte_of es 0xfffd (mem_read m 0xfffd) ≡ some hi
    → (r : Reading) × (read_rp6502_file seeks (some (file_text styles layout es)) m ≡ some r)
      × (r.error ≡ none)
      × (r.loading.out.end ≡ highest es)
      × (r.loading.out.has_reset_vector ≡ (supplies es 0xfffc && supplies es 0xfffd))
      × (r.loading.out.entry ≡ start_of es (lo + hi * 256))
read_rp6502_file-start styles layout seeks es m lo hi image ok laid code lo-lt hi-lt low high =
    let start = nothing_loaded m in
    let (s, loads, (lowest_is, highest_is, code_is, lo_is, hi_is)) =
      load_entries-Describes (entry_styles layout styles) es start image.0 (omega arith) ok in
    let (t, loads', (valid, same, order), bytes) =
      load_entries-byte (entry_styles layout styles) es m start image.1 ok
        (image.0, refl, inl (refl, refl, refl)) in
    let equal : t ≡ s = cc in
    let v = lo + hi * 256 in
    let reads : reset_vector s.memory ≡ some v = rw (← equal) (
      reset_vector-bytes t.memory lo hi lo-lt hi-lt (bytes 0xfffc (omega arith) ∙ low)
        (bytes 0xfffd (omega arith) ∙ high)) in
    let bounds : InOrder s.have_code s.code_low s.code_high = rw (← equal) order in
    let coded : s.have_code ≡ true = ground (arith, code_is, code) in
    let (r, done, fine, last, vector, entry) =
      finish-start s v coded (ground (arith, bounds, coded)) (ground (arith, bounds, coded))
        reads in
    let from : s.code_low ≡ lowest es = ground (arith, lowest_is, lowest-bound es) in
    let to : s.code_high ≡ highest es = ground (arith, highest_is) in
    (
      r,
      read_rp6502_file-file_text styles layout seeks es m ok laid ∙ rw (loads, done) refl,
      fine,
      last ∙ to,
      vector ∙ ap₂ (λ (p q : Bool). p && q) lo_is hi_is,
      entry ∙ start_of-eq es v s.reset_lo s.reset_hi s.code_low s.code_high lo_is hi_is from to,
    )
