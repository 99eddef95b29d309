-- ===== src/Rp6502file/Entries.antt =====
-- The chunk loop on entries in the format of rp6502file.h.
use dis.Base.{
  ℕ, zero, suc, ◌+◌, ◌<◌, ◌≡◌, refl, ◌∙◌, arith, leb, true, false, Option, none, some, List, [],
  ◌∷◌, ◌++◌, ==_refl, ◌>>=◌, length, length-append, take-append, drop-append,
}
use mathlib.Core.List.{append_assoc}
use mathlib.Core.Option
use dis.Base.Text.{ending, length-ending}
use dis.Libc.Files.{File, fgets}
use dis.Rp6502file.Crc.{rp6502_crc32}
use dis.Rp6502file.Bounds.{is_in_range_lem, payload_fits}
use dis.Rp6502file.Parse.{read_line, is_out_of_range}
use dis.Rp6502file.Read.{
  Loading, Reading, at_section_end, goes_on, read_chunk, round, chunks, after_round, finish,
  load_chunk,
}
use dis.Rp6502file.Format.{
  Style, Entry, comment, empty_line, chunk, header_text, entry_text, entries_text, IsEntry,
  AreEntries, AreNumbers, behind_line, load_entry, load_entries,
}
use dis.Rp6502file.Headers.{
  chunk_header-header_text, header_text-IsPlain, length-header_text, header_text-first,
}
use dis.Rp6502file.PlainLines.{read_line-ending}

-- A chunk whose payload stands in the file is loaded.
read_chunk-payload :
    (addr : ℕ) (payload tail : List ℕ) (pos : ℕ) (s : Loading)
    → is_out_of_range addr (length payload) ≡ false
    → read_chunk
        (some (record { addr = addr; len = length payload; crc = rp6502_crc32 payload }))
        (record { rest = payload ++ tail; pos = pos })
        s
      ≡ Option.map
          (goes_on (record { rest = tail; pos = pos + length payload }))
          (load_chunk s addr payload)
unfolding read_chunk
read_chunk-payload addr payload tail pos s fits = rw (take-append payload tail) (
    rw
      (
        fits,
        payload_fits addr (length payload) fits,
        ==_refl (length payload),
        ==_refl (rp6502_crc32 payload),
        drop-append payload tail,
      )
      refl)

-- The section goes on at `pos`.
abbrev pub IsBefore : Option ℕ → ℕ → Type 0
IsBefore section_end pos =
    (rest : List ℕ) → at_section_end section_end (record { rest = rest; pos = pos }) ≡ false

round-comment :
    (style : Style) (section_end : Option ℕ) (text tail : List ℕ) (pos : ℕ) (s : Loading)
    → IsEntry style (comment text)
    → IsBefore section_end pos
    → round section_end (record { rest = entry_text style (comment text) ++ tail; pos = pos }) s
      ≡ some (
          goes_on
            (record { rest = tail; pos = pos + suc (length text) + length (ending style.line_end) })
            s)
unfolding round
round-comment style section_end text tail pos s (plain, fits, other) before =
    let back = ending style.line_end in
    let line = read_line-ending style.line_end (b'#' ∷ text) tail pos (refl, plain) (omega arith) in
    rw (append_assoc text back tail) (rw (before (b'#' ∷ (text ++ (back ++ tail))), line) refl)

round-empty_line :
    (style : Style) (section_end : Option ℕ) (tail : List ℕ) (pos : ℕ) (s : Loading)
    → IsBefore section_end pos
    → round section_end (record { rest = entry_text style empty_line ++ tail; pos = pos }) s
      ≡ some (goes_on (record { rest = tail; pos = pos + 0 + length (ending style.line_end) }) s)
unfolding round
round-empty_line style section_end tail pos s before =
    let back = ending style.line_end in
    let line =
      read_line-ending style.line_end [] tail pos tt
        (omega (arith, length-ending style.line_end)) in
    rw (before (back ++ tail), line) refl

-- A round on a header goes on with the chunk behind it.
pub round-header_text :
    (style : Style) (section_end : Option ℕ) (addr len crc : ℕ) (rest : List ℕ) (pos : ℕ)
    (s : Loading)
    → AreNumbers style addr len crc
    → IsBefore section_end pos
    → round section_end
        (record {
          rest = header_text style addr len crc ++ (ending style.line_end ++ rest);
          pos = pos;
        })
        s
      ≡ read_chunk
          (some (record { addr = addr; len = len; crc = crc }))
          (record {
            rest = rest;
            pos = pos + length (header_text style addr len crc) + length (ending style.line_end);
          })
          s
unfolding round
round-header_text style section_end addr len crc rest pos s are before =
    let head = header_text style addr len crc in
    let back = ending style.line_end in
    let line =
      read_line-ending style.line_end head rest pos (header_text-IsPlain style addr len crc)
        (omega (arith, length-header_text style addr len crc are, length-ending style.line_end)) in
    let parsed = chunk_header-header_text style addr len crc are in
    let (mark, solid) = header_text-first style addr len crc in
    rw (before (head ++ (back ++ rest)), line) (rw (mark, solid) (rw parsed refl))

round-chunk :
    (style : Style) (section_end : Option ℕ) (addr : ℕ) (payload tail : List ℕ) (pos : ℕ)
    (s : Loading)
    → IsEntry style (chunk addr payload)
    → IsBefore section_end pos
    → round section_end
        (record { rest = entry_text style (chunk addr payload) ++ tail; pos = pos })
        s
      ≡ Option.map
          (goes_on (record {
            rest = tail;
            pos =
                pos
                + length (header_text style addr (length payload) (rp6502_crc32 payload))
                + length (ending style.line_end)
                + length payload;
          }))
          (load_chunk s addr payload)
round-chunk style section_end addr payload tail pos s (inside, are) before =
    let n = length payload in
    let crc = rp6502_crc32 payload in
    let head = header_text style addr n crc in
    let back = ending style.line_end in
    let fits = is_in_range_lem addr n inside in
    rw (append_assoc head (back ++ payload) tail) (
      rw (append_assoc back payload tail) (
        round-header_text style section_end addr n crc (payload ++ tail) pos s are before
        ∙ read_chunk-payload addr payload tail (pos + length head + length back) s fits))

-- A round on an entry takes it whole.
round-entry :
    (style : Style) (section_end : Option ℕ) (e : Entry) (tail : List ℕ) (pos : ℕ) (s : Loading)
    → IsEntry style e
    → IsBefore section_end pos
    → (pos' : ℕ) × (pos' ≡ pos + length (entry_text style e))
      × (round section_end (record { rest = entry_text style e ++ tail; pos = pos }) s
          ≡ Option.map (goes_on (record { rest = tail; pos = pos' })) (load_entry s e))
round-entry style section_end (comment text) tail pos s ok before = (
  pos + suc (length text) + length (ending style.line_end),
  omega (arith, length-append text (ending style.line_end)),
  round-comment style section_end text tail pos s ok before,
)
round-entry style section_end empty_line tail pos s ok before = (
  pos + 0 + length (ending style.line_end),
  omega arith,
  round-empty_line style section_end tail pos s before,
)
round-entry style section_end (chunk addr payload) tail pos s ok before =
    let head = header_text style addr (length payload) (rp6502_crc32 payload) in
    let back = ending style.line_end in
    (
      pos + length head + length back + length payload,
      omega (arith, length-append head (back ++ payload), length-append back payload),
      round-chunk style section_end addr payload tail pos s ok before,
    )

entry_text-NotEmpty : (style : Style) (e : Entry) → 0 < length (entry_text style e)
entry_text-NotEmpty style (comment text) = omega arith
entry_text-NotEmpty style empty_line = omega (arith, length-ending style.line_end)
entry_text-NotEmpty style (chunk addr payload) =
    let head = header_text style addr (length payload) (rp6502_crc32 payload) in
    let back = ending style.line_end in
    omega (
      arith,
      length-append head (back ++ payload),
      length-append back payload,
      length-ending style.line_end,
    )

goes_on-loaded :
    (loop : File → Loading → Option Reading) (f : File) (more : Loading → Option Loading)
    (last : Loading → Option Reading) (loaded : Option Loading)
    → ((s : Loading) → loop f s ≡ (more s >>= last))
    → after_round loop (Option.map (goes_on f) loaded) ≡ (loaded >>= more >>= last)
goes_on-loaded loop f more last none reads = refl
goes_on-loaded loop f more last (some s) reads = reads s

-- The loop reads the entries in order, and then does what it does behind them, at `stop`.
pub chunks-entries :
    (styles : ℕ → Style) (section_end : Option ℕ) (es : List Entry) (behind : List ℕ)
    (fuel pos stop : ℕ) (last : Loading → Option Reading) (s : Loading)
    → AreEntries styles es
    → pos + length (entries_text styles es) ≡ stop
    → ((p : ℕ) → p < stop → IsBefore section_end p)
    → ((left : ℕ) (t : Loading)
        → chunks section_end (suc left) (record { rest = behind; pos = stop }) t ≡ last t)
    → length (entries_text styles es) < fuel
    → chunks section_end fuel (record { rest = entries_text styles es ++ behind; pos = pos }) s
      ≡ (load_entries s es >>= last)
unfolding chunks
chunks-entries styles section_end es behind zero pos stop last s ok sum before done enough =
    absurd (omega arith)
chunks-entries styles section_end [] behind (suc fuel) pos stop last s ok sum before done enough =
    let here : pos ≡ stop = omega arith in rw here (done fuel s)
chunks-entries styles section_end (e ∷ es) behind (suc fuel) pos stop last s ok sum before done
      enough =
    let more = entry_text-NotEmpty (styles 0) e in
    let size = length-append (entry_text (styles 0) e) (entries_text (behind_line styles) es) in
    let (pos', moved, reads) =
      round-entry (styles 0) section_end e (entries_text (behind_line styles) es ++ behind) pos s
        ok.0 (before pos (omega (arith, size, more))) in
    rw (append_assoc (entry_text (styles 0) e) (entries_text (behind_line styles) es) behind) (
      rw reads (
        goes_on-loaded (λ f' s'. chunks section_end fuel f' s')
          (record { rest = entries_text (behind_line styles) es ++ behind; pos = pos' })
          (λ s'. load_entries s' es) last (load_entry s e)
          (λ s'.
            chunks-entries (behind_line styles) section_end es behind fuel pos' stop last s' ok.1
              (omega (arith, size, moved)) before done (omega (arith, size, enough, more)))))

-- Behind the entries of a section the loop ends, and so it does at the end of the file.
pub chunks-section :
    (stop left : ℕ) (behind : List ℕ) (s : Loading)
    → chunks (some stop) (suc left) (record { rest = behind; pos = stop }) s ≡ finish s
unfolding chunks round
chunks-section stop left behind s =
    let at_end : leb stop stop ≡ true = ground arith in rw at_end refl

pub chunks-nothing :
    (pos left : ℕ) (s : Loading)
    → chunks none (suc left) (record { rest = []; pos = pos }) s ≡ finish s
unfolding chunks round read_line fgets
chunks-nothing pos left s = refl

pub IsBefore-section : (stop p : ℕ) → p < stop → IsBefore (some stop) p
IsBefore-section stop p before = λ rest. ground (arith, before)
