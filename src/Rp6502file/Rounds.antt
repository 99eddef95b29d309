-- ===== src/Rp6502file/Rounds.antt =====
-- The rounds of the chunk loop.
use dis.Base.{
  ℕ, ◌<◌, ◌≡◌, ◌⊎◌, inl, inr, refl, arith, Option, none, some, ◌==◌, ==_iff, length, take,
  Bool-cases,
}
use dis.Base.Text.{Text, char_at}
use dis.Libc.Files.{File, skip, c_string}
use dis.Libc.Lines.{length-drop, fgets-cases}
use dis.Memory.{Memory}
use dis.Rp6502file.Bounds.{payload_fits}
use dis.Rp6502file.Parse.{
  read_line, is_too_long, strip, is_out_of_range, Header, chunk_header, line_max,
}
use dis.Rp6502file.Crc.{rp6502_crc32}
use dis.Rp6502file.Read.{
  Loading, Round, ended, goes_on, refused, RomError, read_chunk, read_entry, round, at_section_end,
}
use dis.Rp6502file.Load.{IsSound, load_chunk-IsSound}

-- A line is read from the file, and less of it is left.
pub read_line-cases :
    (size : ℕ) (f : File)
    → ((f' : File) × (read_line size f ≡ (none, f')))
      ⊎ ((line : Text) × (f' : File) × (read_line size f ≡ (some line, f'))
          × (length f'.rest < length f.rest))
unfolding read_line
read_line-cases size f = elim (fgets-cases size f) [
  | inl ends ↦ inl (f, rw ends)
  | inr (chars, f', reads, shorter) ↦ elim (Bool-cases (is_too_long size (c_string chars))) [
    | inl long ↦ inl (f', rw (reads, long))
    | inr fits ↦ inr (strip (c_string chars), f', rw (reads, fits), shorter)
  ]
]

-- How a round leaves the variables: sound, and with a file of less than `size` bytes.
abbrev pub RoundIsSound : Memory → ℕ → Round → Type 0
RoundIsSound m size (ended s) = IsSound m s
RoundIsSound m size (goes_on f s) = (length f.rest < size) × IsSound m s
RoundIsSound m size (refused e s) = IsSound m s

read_chunk-IsSound :
    (m : Memory) (size : ℕ) (h : Option Header) (f : File) (s : Loading)
    → length f.rest < size
    → IsSound m s
    → (r : Round) × (read_chunk h f s ≡ some r) × RoundIsSound m size r
unfolding read_chunk
read_chunk-IsSound m size none f s less ok = (refused RomError.malformed_chunk s, refl, ok)
read_chunk-IsSound m size (some h) f s less ok =
    let payload = take h.len f.rest in
    let after = skip (length payload) f in
    elim (Bool-cases (is_out_of_range h.addr h.len)) [
      | inl out ↦ (refused RomError.chunk_out_of_range s, rw out, ok)
      | inr fits ↦
          let held = payload_fits h.addr h.len fits in
          elim (Bool-cases (length payload == h.len)) [
            | inr short ↦ (refused RomError.truncated_payload s, rw (fits, held, short), ok)
            | inl whole ↦ elim (Bool-cases (rp6502_crc32 payload == h.crc)) [
              | inr wrong ↦ (
                refused (RomError.crc_mismatch h.addr h.len) s,
                rw (fits, held, whole, wrong),
                ok,
              )
              | inl right ↦
                  let size_eq : length payload ≡ h.len = (==_iff (length payload) h.len).0 whole in
                  let (s', loads, ok') =
                    load_chunk-IsSound m s h.addr payload (rw size_eq fits) ok in
                  (
                    goes_on after s',
                    rw (fits, held, whole, right, loads),
                    (omega (arith, less, length-drop (length payload) f.rest), ok'),
                  )
            ]
          ]
    ]

read_entry-IsSound :
    (m : Memory) (size : ℕ) (line : Text) (f : File) (s : Loading)
    → length f.rest < size
    → IsSound m s
    → (r : Round) × (read_entry (some line) f s ≡ some r) × RoundIsSound m size r
read_entry-IsSound m size line f s less ok = elim (Bool-cases (char_at line 0 == 0)) [
  | inl blank ↦ (goes_on f s, rw blank, (less, ok))
  | inr text ↦ elim (Bool-cases (char_at line 0 == b'#')) [
    | inl comment ↦ (goes_on f s, rw (text, comment), (less, ok))
    | inr chunk ↦
        let (r, reads, sound) = read_chunk-IsSound m size (chunk_header line) f s less ok in
        (r, rw (text, chunk) reads, sound)
  ]
]

-- Every round has a result, and one that goes on leaves less of the file.
pub round-IsSound :
    (m : Memory) (section_end : Option ℕ) (f : File) (s : Loading)
    → IsSound m s
    → (r : Round) × (round section_end f s ≡ some r) × RoundIsSound m (length f.rest) r
unfolding round
round-IsSound m section_end f s ok = elim (Bool-cases (at_section_end section_end f)) [
  | inl stop ↦ (ended s, rw stop, ok)
  | inr on ↦ elim (read_line-cases line_max f) [
    | inl (f', ends) ↦ (ended s, rw (on, ends), ok)
    | inr (line, f', reads, shorter) ↦
        let (r, e, sound) = read_entry-IsSound m (length f.rest) line f' s shorter ok in
        (r, rw (on, reads) e, sound)
  ]
]
