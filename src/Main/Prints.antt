-- ===== src/Main/Prints.antt =====
-- What the program prints: the listings on stdout, and the notes and errors of main in dis.c on
-- stderr. The messages of the two readers are not among them.
use dis.Base.{ℕ, true, Option, none, some, List, [], ◌∷◌, ◌++◌, ◌==◌, if◌then◌else◌}
use dis.Base.Text.{newline, Text, codes, hex, decimal}
use dis.Disassemble.{Line}
use dis.Listing.{Item, item_text, print_instruction}
use dis.Rp6502file.Read.{Rp6502Rom}
use dis.Main.{Outcome, usage, refused_cpu, refused_option, swept, analyzed}

-- `usage`
abbrev pub usage_text : Text
usage_text =
    codes "usage: dis [--cpu MODEL] [program]"
    ++ newline
    ++ codes "  MODEL:   6502, 6502u, 65c02 (default), w65c02, r65c02"
    ++ newline
    ++ codes "  program: an Intel HEX file or an RP6502 ROM (.rp6502);"
    ++ newline
    ++ codes "           the format is detected from the contents"
    ++ newline
    ++ codes "  with no file, disassembles a small built-in demo program"
    ++ newline
    ++ codes "  --linear: flat sweep instead of following control flow"
    ++ newline

-- The ending of a plural.
abbrev plural : ℕ → Text
plural n = if n == 1 then [] else codes "s"

abbrev xram_note : Rp6502Rom → Text
xram_note rom =
    if rom.xram_chunks == 0
    then []
    else codes "note: skipped "
      ++ decimal 10 rom.xram_chunks
      ++ codes " XRAM chunk"
      ++ plural rom.xram_chunks
      ++ codes " ("
      ++ decimal 10 rom.xram_bytes
      ++ codes " bytes); XRAM is not 6502 address space"
      ++ newline

abbrev vector_note : Rp6502Rom → ℕ → Text
vector_note rom base =
    if rom.has_reset_vector
    then codes "note: starting at reset vector $" ++ hex 4 base ++ newline
    else []

-- The notes on a loaded ROM.
unfoldable pub rom_notes : Option Rp6502Rom → ℕ → Text
rom_notes none base = []
rom_notes (some rom) base = xram_note rom ++ vector_note rom base

-- The note on the targets outside the range.
unfoldable pub range_note : ℕ → Text
range_note count =
    if count == 0
    then []
    else codes "note: "
      ++ decimal 10 count
      ++ codes " control-flow target"
      ++ plural count
      ++ codes " outside the loaded range "
      ++ (if count == 1 then codes "was" else codes "were")
      ++ codes " not followed"
      ++ newline

abbrev pub lines_text : List Line → Text
lines_text [] = []
lines_text (line ∷ lines) = print_instruction line ++ lines_text lines

abbrev items_text : List Item → Text
items_text [] = []
items_text (item ∷ items) = item_text item ++ items_text items

-- What main prints on stdout.
unfoldable pub stdout_text : Outcome → Text
stdout_text usage = usage_text
stdout_text (swept fallback lines) = lines_text lines
stdout_text (analyzed out_of_range items) = items_text items
stdout_text _ = []

-- What main prints on stderr after the notes on the ROM.
unfoldable pub stderr_text : Outcome → Text
stderr_text refused_cpu =
    codes "dis: --cpu needs one of: 6502, 6502u, 65c02, w65c02, r65c02" ++ newline
stderr_text (refused_option option) =
    codes "dis: unknown option '" ++ option ++ codes "'" ++ newline ++ usage_text
stderr_text (swept true lines) = codes "dis: out of memory; falling back to linear" ++ newline
stderr_text (analyzed out_of_range items) = range_note out_of_range
stderr_text _ = []
