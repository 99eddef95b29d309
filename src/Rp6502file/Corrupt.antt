-- ===== src/Rp6502file/Corrupt.antt =====
-- A chunk whose payload has a changed byte.
use dis.Base.{
  ℕ, ◌<◌, ◌≡◌, ◌≢◌, arith, ap, sym, ◌∙◌, true, false, some, List, ◌∷◌, ◌++◌, ◌==◌, ==_iff, ==_refl,
  length, length-append, take, take-append, Bool-cases, inl, inr,
}
use dis.Libc.Files.{File}
use dis.Rp6502file.Crc.{rp6502_crc32}
use dis.Rp6502file.Crc.Bitwise.{AllBytes}
use dis.Rp6502file.Crc.Detects.{rp6502_crc32_detects}
use dis.Rp6502file.Bounds.{payload_fits}
use dis.Rp6502file.Parse.{Header, is_out_of_range}
use dis.Rp6502file.Read.{Loading, goes_on, refused, RomError, read_chunk}

-- A chunk after which the loop goes on has a range and a payload that agree with its header.
read_chunk-accepted :
    (h : Header) (f f' : File) (s s' : Loading)
    → read_chunk (some h) f s ≡ some (goes_on f' s')
    → (is_out_of_range h.addr h.len ≡ false) × (rp6502_crc32 (take h.len f.rest) ≡ h.crc)
unfolding read_chunk
read_chunk-accepted h f f' s s' e = elim (Bool-cases (is_out_of_range h.addr h.len)) [
  | inl out ↦ let wrong = rw out at e in cc
  | inr fits ↦
      let held = payload_fits h.addr h.len fits in
      elim (Bool-cases (length (take h.len f.rest) == h.len)) [
        | inr short ↦ let wrong = rw (fits, held, short) at e in cc
        | inl whole ↦ elim (Bool-cases (rp6502_crc32 (take h.len f.rest) == h.crc)) [
          | inr mismatch ↦ let wrong = rw (fits, held, whole, mismatch) at e in cc
          | inl right ↦ (fits, (==_iff (rp6502_crc32 (take h.len f.rest)) h.crc).0 right)
        ]
      ]
]

mismatch-Refused :
    (h : Header) (f : File) (s : Loading)
    → is_out_of_range h.addr h.len ≡ false
    → (length (take h.len f.rest) == h.len) ≡ true
    → (rp6502_crc32 (take h.len f.rest) == h.crc) ≡ false
    → read_chunk (some h) f s ≡ some (refused (RomError.crc_mismatch h.addr h.len) s)
unfolding read_chunk
mismatch-Refused h f s fits whole mismatch =
    rw (fits, payload_fits h.addr h.len fits, whole, mismatch)

-- If the reader goes on after a chunk, it refuses the chunk of the same header in which exactly
-- one byte of the payload has been changed, with the CRC message, whatever it has loaded before.
pub read_chunk-corrupted :
    (h : Header) (before after trailing : List ℕ) (x y pos : ℕ) (s s' t : Loading) (f' : File)
    → AllBytes before
    → AllBytes after
    → x < 256
    → y < 256
    → x ≢ y
    → h.len ≡ length (before ++ x ∷ after)
    → read_chunk (some h) (record { rest = (before ++ x ∷ after) ++ trailing; pos = pos }) s
      ≡ some (goes_on f' s')
    → read_chunk (some h) (record { rest = (before ++ y ∷ after) ++ trailing; pos = pos }) t
      ≡ some (refused (RomError.crc_mismatch h.addr h.len) t)
read_chunk-corrupted h before after trailing x y pos s s' t f' hb ha hx hy differ len goes =
    let good = before ++ x ∷ after in
    let bad = before ++ y ∷ after in
    let (fits, right) = read_chunk-accepted h _ f' s s' goes in
    let size : h.len ≡ length bad =
      omega (arith, len, length-append before (x ∷ after), length-append before (y ∷ after)) in
    let taken : take h.len (good ++ trailing) ≡ good = rw len (take-append good trailing) in
    let got : take h.len (bad ++ trailing) ≡ bad = rw size (take-append bad trailing) in
    let crc : rp6502_crc32 good ≡ h.crc = ap rp6502_crc32 (sym taken) ∙ right in
    let wrong : (rp6502_crc32 bad == h.crc) ≡ false =
      elim (Bool-cases (rp6502_crc32 bad == h.crc)) [
        | inr other ↦ other
        | inl same ↦ absurd (
            rp6502_crc32_detects before after x y hb ha hx hy differ
              (crc ∙ sym ((==_iff (rp6502_crc32 bad) h.crc).0 same)))
      ] in
    mismatch-Refused h _ t fits (rw got (rw (sym size) (==_refl h.len))) (rw got wrong)
