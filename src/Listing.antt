-- ===== src/Listing.antt =====
-- The listing of dis.c: `printInstruction` and `printAnalyzed`.
pub mod Pieces
pub mod Covers
use dis.Base.{
  ℕ, zero, suc, ◌+◌, ◌-◌, ◌/◌, ◌%◌, Bool, true, false, not, ◌&&◌, ◌||◌, Option, none, some, List,
  [], ◌∷◌, ◌++◌, ltb, leb, ◌==◌, if◌then◌else◌, length, get_or, u8, u16,
}
use mathlib.Core.Option
use dis.Base.Text.{newline, Text, codes, hex, decimal}
use dis.Cpu.{VrEmu6502}
use dis.Disassemble.{Line, dis_one, fetch_bytes, text_or}
use dis.Analyze.{
  DisAnalysis, analyze_is_instruction, analyze_is_function, analyze_is_label, analyze_callers,
}

abbrev pub spaces : ℕ → Text
spaces zero = []
spaces (suc n) = b' ' ∷ spaces n

-- `%-10s`
abbrev pub padded : Text → Text
padded s = s ++ spaces (10 - length s)

abbrev pub bytes_text : List ℕ → Text
bytes_text (a ∷ []) = hex 2 a ++ codes "        "
bytes_text (a ∷ b ∷ []) = hex 2 a ++ codes " " ++ hex 2 b ++ codes "     "
bytes_text bytes =
    hex 2 (get_or bytes 0 0)
    ++ codes " "
    ++ hex 2 (get_or bytes 1 0)
    ++ codes " "
    ++ hex 2 (get_or bytes 2 0)
    ++ codes "  "

-- `printInstruction`
abbrev pub print_instruction : Line → Text
print_instruction line =
    hex 4 line.addr ++ codes ": " ++ bytes_text line.bytes ++ padded line.text ++ b'\n' ∷ []

-- What one round of `printAnalyzed` prints, piece by piece.
pub data Item : Type 0 where
  -- unreached bytes: the first, the last and their number
  unreached : ℕ → ℕ → ℕ → Item
  -- the header of a function, as the entry point or with its number of callers
  entry_point : ℕ → Item
  function : ℕ → ℕ → Item
  label : ℕ → Item
  instruction : Line → Item
  overlapping : ℕ → Item

abbrev callers_text : ℕ → Text
callers_text callers =
    if callers == 1 then codes "1 caller" else decimal 10 callers ++ codes " callers"

abbrev comment_column : Text
comment_column = codes "                  ; "

-- The text of a piece.
abbrev pub item_text : Item → Text
item_text (unreached first last count) =
    newline
    ++ codes "; "
    ++ hex 4 first
    ++ codes "-"
    ++ hex 4 last
    ++ codes "  "
    ++ decimal 10 count
    ++ codes " bytes data"
    ++ newline
item_text (entry_point at) =
    newline
    ++ codes "sub_"
    ++ hex 4 at
    ++ codes ":"
    ++ comment_column
    ++ codes "entry point"
    ++ newline
item_text (function at callers) =
    newline
    ++ codes "sub_"
    ++ hex 4 at
    ++ codes ":"
    ++ comment_column
    ++ callers_text callers
    ++ newline
item_text (label at) = codes "loc_" ++ hex 4 at ++ codes ":" ++ newline
item_text (instruction line) = print_instruction line
item_text (overlapping at) =
    codes "; "
    ++ hex (if ltb 0xffff at then 5 else 4) at
    ++ codes " is also an instruction start (overlapping decode)"
    ++ newline

-- The loop over unreached bytes: the first address that is an instruction, with `left` addresses
-- left in the range.
unfoldable pub skip_unreached : DisAnalysis → ℕ → ℕ → ℕ
skip_unreached a zero addr = addr
skip_unreached a (suc left) addr =
    let rest = skip_unreached a left (addr + 1) in
    if analyze_is_instruction (some a) (u16 addr) then addr else rest

-- The label lines before an instruction.
abbrev pub headers : DisAnalysis → ℕ → ℕ → List Item
headers a entry at =
    if analyze_is_function (some a) at
    then (if at == entry then entry_point at else function at (analyze_callers (some a) at)) ∷ []
    else if analyze_is_label (some a) at
    then label at ∷ []
    else []

-- The starts that the instruction at `at` steps over, from `i` with `left` rounds left.
unfoldable pub overlaps : DisAnalysis → ℕ → ℕ → ℕ → List Item
overlaps a at i zero = []
overlaps a at i (suc left) =
    let rest = overlaps a at (i + 1) left in
    if analyze_is_instruction (some a) (u16 (at + i)) then overlapping (at + i) ∷ rest else rest

module _ (dis_cpu : Option VrEmu6502) (read : ℕ → ℕ) (a : DisAnalysis) (hi entry : ℕ) where
  abbrev pub len_of : ℕ → ℕ
  len_of at = u8 ((dis_one dis_cpu at read 48).next + 65536 - at)

  -- The line for the instruction at `at`, and the starts that it steps over.
  abbrev pub instruction_items : ℕ → List Item
  instruction_items at =
      instruction (record {
        addr = at;
        bytes = fetch_bytes read at 0 (len_of at);
        text = text_or (dis_one dis_cpu at read 48).text [];
      })
      ∷ overlaps a at 1 (len_of at - 1)

  -- The outer loop of `printAnalyzed`, or `none` out of fuel.
  unfoldable pub print_loop : ℕ → ℕ → Option (List Item)
  print_loop zero addr = none
  print_loop (suc fuel) addr =
      let at = u16 addr in
      let next = skip_unreached a (hi + 1 - addr) addr in
      let after_data = print_loop fuel next in
      let after = print_loop fuel (addr + len_of at) in
      if ltb hi addr
      then some []
      else if not (analyze_is_instruction (some a) at)
      then Option.map (λ items. unreached addr (next - 1) (next - addr) ∷ items) after_data
      else if len_of at == 0 || ltb 3 (len_of at)
      then some (headers a entry at)
      else Option.map (λ items. headers a entry at ++ (instruction_items at ++ items)) after

-- `printAnalyzed`. Each round goes up by an address at least, so the range and one test are enough.
unfoldable pub print_analyzed :
    Option VrEmu6502 → (ℕ → ℕ) → DisAnalysis → ℕ → ℕ → ℕ → Option (List Item)
print_analyzed dis_cpu read a lo hi entry =
    print_loop dis_cpu read a hi entry (suc (suc hi - lo)) lo
