-- ===== src/Rp6502file/Stopped.antt =====
-- `readRp6502File` on a file with something behind its good chunks that it does not go on from.
use dis.Base.{
  ℕ, suc, ◌+◌, ◌-◌, ◌<◌, ◌≡◌, refl, ◌∙◌, arith, true, false, none, some, List, [], ◌∷◌, ◌++◌, ◌==◌,
  ==_refl, ◌>>=◌, length, length-append, take-append, take_all, All,
}
use dis.Base.Text.{ending, length-ending}
use dis.Libc.Files.{File}
use dis.Libc.PlainLines.{IsInLine}
use dis.Libc.LongLines.{c_string-full, char_at-IsInLine, fgets-full}
use dis.Memory.{Memory}
use dis.Rp6502file.Crc.{rp6502_crc32}
use dis.Rp6502file.Bounds.{is_in_range_lem, is_outside_lem, payload_fits}
use dis.Rp6502file.Parse.{read_line, line_max, is_too_long, is_out_of_range, Header}
use dis.Rp6502file.Read.{
  Loading, refused, chunk_out_of_range, truncated_payload, crc_mismatch, round, chunks, chunk_fuel,
  is_group, read_chunk, read_sections, read_rp6502_file, nothing_loaded,
}
use dis.Rp6502file.Format.{
  Style, Entry, header_text, entries_text, AreEntries, AreNumbers, behind_line, load_entries,
}
use dis.Rp6502file.Headers.{header_text-IsPlain, length-header_text, header_text-first}
use dis.Rp6502file.PlainLines.{read_line-ending}
use dis.Rp6502file.Entries.{chunks-entries, round-header_text}
use dis.Rp6502file.RoundTrip.{entries_text-Ungrouped, behind_shebang, after_shebang}
use dis.Rp6502file.Stops.{
  Stop, malformed, outside, truncated, corrupted, overlong, stop_text, IsStop, stopped_text,
  stopped,
}

-- A line of 255 characters or more is not read.
read_line-overlong :
    (text rest : List ℕ) (pos : ℕ)
    → All IsInLine text
    → length text ≡ 255
    → read_line line_max (record { rest = text ++ rest; pos = pos })
      ≡ (none, record { rest = rest; pos = pos + length text })
unfolding read_line
read_line-overlong [] rest pos inner size = absurd (omega arith)
read_line-overlong (c ∷ text) rest pos inner size =
    let whole = c ∷ text in
    let fills : suc (length whole) ≡ line_max = omega arith in
    let read = rw fills at (fgets-full c text rest pos inner) in
    let string = c_string-full whole inner in
    let last = char_at-IsInLine whole (length whole - 1) inner in
    let filled : (length whole + 1 == line_max) ≡ true = ground (arith, size) in
    let long : is_too_long line_max whole ≡ true = rw (filled, last) refl in
    rw read (rw string (rw long refl))

read_chunk-outside :
    (h : Header) (f : File) (s : Loading)
    → is_out_of_range h.addr h.len ≡ true
    → read_chunk (some h) f s ≡ some (refused chunk_out_of_range s)
unfolding read_chunk
read_chunk-outside h f s out = rw out refl

read_chunk-truncated :
    (h : Header) (payload : List ℕ) (pos : ℕ) (s : Loading)
    → is_out_of_range h.addr h.len ≡ false
    → length payload < h.len
    → read_chunk (some h) (record { rest = payload; pos = pos }) s
      ≡ some (refused truncated_payload s)
unfolding read_chunk
read_chunk-truncated h payload pos s fits short =
    let all = take_all h.len payload (omega arith) in
    let fewer : (length payload == h.len) ≡ false = ground (arith, short) in
    rw all (rw (fits, payload_fits h.addr h.len fits, fewer) refl)

read_chunk-corrupted_text :
    (addr crc : ℕ) (payload rest : List ℕ) (pos : ℕ) (s : Loading)
    → is_out_of_range addr (length payload) ≡ false
    → (rp6502_crc32 payload == crc) ≡ false
    → read_chunk
        (some (record { addr = addr; len = length payload; crc = crc }))
        (record { rest = payload ++ rest; pos = pos })
        s
      ≡ some (refused (crc_mismatch addr (length payload)) s)
unfolding read_chunk
read_chunk-corrupted_text addr crc payload rest pos s fits other =
    rw (take-append payload rest)
      (rw (fits, payload_fits addr (length payload) fits, ==_refl (length payload), other) refl)

-- The loop at a stop.
chunks-stop :
    (style : Style) (stop : Stop) (pos left : ℕ) (s : Loading)
    → IsStop style stop
    → chunks none (suc left) (record { rest = stop_text style stop; pos = pos }) s ≡ stopped stop s
unfolding chunks
chunks-stop style (malformed text rest) pos left s (plain, fits, solid, unmarked, bad) =
    let line =
      read_line-ending style.line_end text rest pos plain
        (omega (arith, length-ending style.line_end)) in
    unfold round read_chunk in rw line (rw (solid, unmarked) (rw bad refl))
chunks-stop style (outside addr len crc rest) pos left s (are, far) =
    let out = is_outside_lem addr len far in
    rw (round-header_text style none addr len crc rest pos s are (λ rest. refl))
      (rw (read_chunk-outside (record { addr = addr; len = len; crc = crc }) _ s out) refl)
chunks-stop style (truncated addr len crc payload) pos left s (are, inside, short) =
    let fits = is_in_range_lem addr len inside in
    rw (round-header_text style none addr len crc payload pos s are (λ rest. refl)) (
      rw
        (read_chunk-truncated (record { addr = addr; len = len; crc = crc }) payload _ s fits short)
        refl)
chunks-stop style (corrupted addr crc payload rest) pos left s (are, inside, other) =
    let fits = is_in_range_lem addr (length payload) inside in
    rw
      (round-header_text style none addr (length payload) crc (payload ++ rest) pos s are
        (λ rest. refl))
      (rw (read_chunk-corrupted_text addr crc payload rest _ s fits other) refl)
chunks-stop style (overlong text rest) pos left s (inner, size) =
    unfold round in rw (read_line-overlong text rest pos inner size) refl

header-Ungrouped :
    (style : Style) (addr len crc : ℕ) (rest : List ℕ) (pos : ℕ)
    → AreNumbers style addr len crc
    → is_group
        (read_line line_max (record {
          rest = header_text style addr len crc ++ (ending style.line_end ++ rest);
          pos = pos;
        })).0
      ≡ false
header-Ungrouped style addr len crc rest pos are =
    let line =
      read_line-ending style.line_end (header_text style addr len crc) rest pos
        (header_text-IsPlain style addr len crc)
        (omega (arith, length-header_text style addr len crc are, length-ending style.line_end)) in
    let (mark, solid) = header_text-first style addr len crc in rw line (rw mark refl)

-- A stop is no group header.
stop_text-Ungrouped :
    (style : Style) (stop : Stop) (pos : ℕ)
    → IsStop style stop
    → is_group (read_line line_max (record { rest = stop_text style stop; pos = pos })).0 ≡ false
stop_text-Ungrouped style (malformed text rest) pos (plain, fits, solid, unmarked, bad) =
    let line =
      read_line-ending style.line_end text rest pos plain
        (omega (arith, length-ending style.line_end)) in
    rw line (rw unmarked refl)
stop_text-Ungrouped style (outside addr len crc rest) pos ok =
    header-Ungrouped style addr len crc rest pos ok.0
stop_text-Ungrouped style (truncated addr len crc payload) pos ok =
    header-Ungrouped style addr len crc payload pos ok.0
stop_text-Ungrouped style (corrupted addr crc payload rest) pos ok =
    header-Ungrouped style addr (length payload) crc (payload ++ rest) pos ok.0
stop_text-Ungrouped style (overlong text rest) pos (inner, size) =
    rw (read_line-overlong text rest pos inner size) refl

-- A file in the format of rp6502file.h without a group, that can be sought, with comments that fit
-- a line, each line with its own notations (decimal, or C or MOS hex of up to 32 digits in either
-- case) and its own line end, with or without a CR, and with something behind its good chunks that
-- the reader does not go on from, ends as that says once the good chunks are loaded: with the
-- error for a malformed header, for a chunk without bytes, over the end of RAM at $10000 or of
-- XRAM at $20000, or of more than $10000 bytes, for a payload that the end of the file cuts off,
-- or for a payload whose CRC differs; and behind 255 characters without a line end as if the file
-- ended there.
pub read_rp6502_file-stopped_text :
    (styles : ℕ → Style) (es : List Entry) (last : Style) (stop : Stop) (m : Memory)
    → AreEntries (behind_line styles) es
    → IsStop last stop
    → read_rp6502_file true (some (stopped_text styles es last stop)) m
      ≡ (load_entries (nothing_loaded m) es >>= stopped stop)
unfolding read_sections
read_rp6502_file-stopped_text styles es last stop m ok bad =
    let entries = entries_text (behind_line styles) es in
    let body = behind_shebang (styles 0) (entries ++ stop_text last stop) in
    let end = body.pos + length entries in
    let other : is_group (read_line line_max body).0 ≡ false =
      entries_text-Ungrouped (behind_line styles) es (stop_text last stop) body.pos ok
        (stop_text-Ungrouped last stop body.pos bad) in
    after_shebang (styles 0) true (entries ++ stop_text last stop) m
    ∙ rw other (
        chunks-entries (behind_line styles) none es (stop_text last stop) (chunk_fuel body) body.pos
          end (stopped stop) (nothing_loaded m) ok refl (λ p before rest. refl)
          (λ left t. chunks-stop last stop end left t bad)
          (omega (arith, length-append entries (stop_text last stop))))
