-- ===== src/Rp6502file/Stops.antt =====
-- What may stand in a ROM file behind its last good chunk, so that readRp6502File goes no further.
use dis.Base.{ℕ, ◌<◌, ◌≤◌, ◌≡◌, false, Option, none, some, List, ◌++◌, ◌==◌, length, All}
use dis.Base.Text.{Text, ending, char_at}
use dis.Libc.PlainLines.{IsPlain, IsInLine}
use dis.Rp6502file.Crc.{rp6502_crc32}
use dis.Rp6502file.Bounds.{IsInRange, IsOutside}
use dis.Rp6502file.Parse.{chunk_header}
use dis.Rp6502file.Read.{
  Loading, Reading, malformed_chunk, chunk_out_of_range, truncated_payload, crc_mismatch, failed,
  finish,
}
use dis.Rp6502file.Format.{
  Style, Entry, header_text, entries_text, shebang_text, AreNumbers, behind_line,
}

pub data Stop : Type 0 where
  -- a line that is no header, and what is behind it
  malformed : Text → List ℕ → Stop
  -- a header with this address and length, a CRC, and what is behind it
  outside : ℕ → ℕ → ℕ → List ℕ → Stop
  -- a header, and the bytes that are left
  truncated : ℕ → ℕ → ℕ → List ℕ → Stop
  -- a header with the CRC, its payload, and what is behind it
  corrupted : ℕ → ℕ → List ℕ → List ℕ → Stop
  -- a line that the buffer does not hold, and what is behind its first 255 characters
  overlong : Text → List ℕ → Stop

abbrev pub stop_text : Style → Stop → List ℕ
stop_text style (malformed text rest) = text ++ (ending style.line_end ++ rest)
stop_text style (outside addr len crc rest) =
    header_text style addr len crc ++ (ending style.line_end ++ rest)
stop_text style (truncated addr len crc payload) =
    header_text style addr len crc ++ (ending style.line_end ++ payload)
stop_text style (corrupted addr crc payload rest) =
    header_text style addr (length payload) crc ++ (ending style.line_end ++ (payload ++ rest))
stop_text style (overlong text rest) = text ++ rest

abbrev pub IsStop : Style → Stop → Type 0
IsStop style (malformed text rest) =
    All IsPlain text
    × (length text ≤ 253)
    × ((char_at text 0 == 0) ≡ false)
    × ((char_at text 0 == b'#') ≡ false)
    × (chunk_header text ≡ none)
IsStop style (outside addr len crc rest) = AreNumbers style addr len crc × IsOutside addr len
IsStop style (truncated addr len crc payload) =
    AreNumbers style addr len crc × IsInRange addr len × (length payload < len)
IsStop style (corrupted addr crc payload rest) =
    AreNumbers style addr (length payload) crc
    × IsInRange addr (length payload)
    × ((rp6502_crc32 payload == crc) ≡ false)
IsStop style (overlong text rest) = All IsInLine text × (length text ≡ 255)

-- The file up to there, without a group; the last style is that of the stop.
abbrev pub stopped_text : (ℕ → Style) → List Entry → Style → Stop → List ℕ
stopped_text styles es last stop =
    shebang_text (styles 0).shebang
    ++ (ending (styles 0).line_end ++ (entries_text (behind_line styles) es ++ stop_text last stop))

-- What becomes of what the good chunks loaded.
abbrev pub stopped : Stop → Loading → Option Reading
stopped (malformed text rest) s = some (failed malformed_chunk s)
stopped (outside addr len crc rest) s = some (failed chunk_out_of_range s)
stopped (truncated addr len crc payload) s = some (failed truncated_payload s)
stopped (corrupted addr crc payload rest) s = some (failed (crc_mismatch addr (length payload)) s)
stopped (overlong text rest) s = finish s
