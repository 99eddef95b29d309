-- ===== src/Main/Roms.antt =====
-- `main` in dis.c, from the bytes of an RP6502 ROM to its listing.
use dis.Base.{
  Bool, ◌++◌, length, ℕ, ◌+◌, ◌*◌, ◌≤◌, ◌<◌, ◌≡◌, refl, sym, subst, ap, ◌∙◌, arith, true, false,
  Option, none, some, List,
}
use mathlib.Core.List.{append_assoc}
use dis.Base.Text.{Text, Letters, lower_case, upper_case, ending}
use dis.Cpu.{Model, VrEmu6502}
use dis.Memory.{mem_read, mem_set_default_fill}
use dis.Memory.Valid.{IsValid}
use dis.Rp6502file.Total.{read_rp6502_file-IsGood}
use dis.Rp6502file.Parse.{matches_shebang}
use dis.Rp6502file.Read.{Reading, is_rp6502_file, read_rp6502_file}
use dis.Rp6502file.Format.{
  Style, Layout, ungrouped, grouped, IsLayout, file_text, shebang_text, group_text, entries_text,
  Entry, AreEntries, behind_line, entry_styles,
}
use dis.Rp6502file.Image.{byte_of, read_rp6502_file-byte}
use dis.Rp6502file.Ranges.{highest, has_code}
use dis.Rp6502file.Describes.{start_of, read_rp6502_file-start}
use dis.Analyze.{Realloc}
use dis.Main.Lists.{main_lists}
use dis.Main.{Settings, run, Program, load_input, load_file, read_byte, serve, startup}
use dis.Main.Mapped.{mapped, mapped-IsImage, mapped-zero, ListsRange}
use dis.Main.Total.{read_byte-some}

shebang-sniffed :
    (letters : Letters) (rest : List ℕ)
    → is_rp6502_file (some (shebang_text letters ++ rest)) ≡ true
unfolding matches_shebang
shebang-sniffed lower_case rest = refl
shebang-sniffed upper_case rest = refl

file_text-sniffed :
    (styles : ℕ → Style) (layout : Layout) (es : List Entry)
    → is_rp6502_file (some (file_text styles layout es)) ≡ true
file_text-sniffed styles ungrouped es =
    shebang-sniffed (styles 0).shebang
      (ending (styles 0).line_end ++ entries_text (behind_line styles) es)
file_text-sniffed styles (grouped crc behind) es =
    let entries = entries_text (behind_line (behind_line styles)) es in
    let rest =
      ending (styles 0).line_end
      ++ (group_text (styles 1) (length entries) crc ++ (ending (styles 1).line_end ++ entries)) in
    rw (append_assoc (shebang_text (styles 0).shebang) rest behind)
      (shebang-sniffed (styles 0).shebang (rest ++ behind))

-- The program that a ROM loads as.
abbrev program_of_reading : Reading → Program
program_of_reading r = record {
  memory = r.loading.memory;
  base = r.loading.out.entry;
  end = r.loading.out.end;
  have_entry = true;
  rom = some r.loading.out;
}

load_input-rom :
    (files : Text → Option (List ℕ)) (seeks : Bool) (stale : ℕ → ℕ) (path : Text)
    (styles : ℕ → Style) (layout : Layout) (es : List Entry) (r : Reading)
    → files path ≡ some (file_text styles layout es)
    → read_rp6502_file seeks (some (file_text styles layout es)) mapped ≡ some r
    → r.error ≡ none
    → load_input files seeks stale (some path) (mem_set_default_fill startup 0)
      ≡ some (some (program_of_reading r))
unfolding load_input load_file
load_input-rom files seeks stale path styles layout es r holds reads fine =
    rw (holds, file_text-sniffed styles layout es) (rw reads (rw fine refl))

module _ (vr_emu6502_new : Model → Option VrEmu6502) (realloc : Realloc)
    (grows : (n : ℕ) → realloc n ≡ true) (files : Text → Option (List ℕ)) (seeks : Bool)
    (stale : ℕ → ℕ) (s : Settings) (cpu : VrEmu6502) (path : Text) (styles : ℕ → Style)
    (layout : Layout) (es : List Entry) (lo hi : ℕ) where
  -- From the bytes of a file to the listing: with a handle, every allocation granted, no --linear,
  -- and a path to a file in the format of rp6502file.h, with comments that fit a line, each line
  -- with its own notations (decimal, or C or MOS hex of up to 32 digits in either case) and its
  -- own line end, with or without a CR, without a group and with seeks that succeed, or with a
  -- group of 32-bit size and CRC, that has a chunk below the vectors at $FFFA, main reads back the
  -- bytes of the chunks at addresses below $FFFF, the later over the earlier, and 0 elsewhere. It
  -- lists from the reset vector lo + 256 hi, if chunks supply both bytes and it lies in the code,
  -- and otherwise from the lowest byte of code, up to the highest. The listing covers that range,
  -- and its starts are exactly what control flow reaches from there inside it.
  pub main_lists_file :
      vr_emu6502_new s.model ≡ some cpu
      → s.linear ≡ false
      → s.input_path ≡ some path
      → files path ≡ some (file_text styles layout es)
      → AreEntries (entry_styles layout styles) es
      → IsLayout styles layout es seeks
      → has_code es ≡ true
      → lo < 256
      → hi < 256
      → byte_of es 0xfffc (some 0) ≡ some lo
      → byte_of es 0xfffd (some 0) ≡ some hi
      → (read : ℕ → ℕ) × ((y : ℕ) → y < 65536 → byte_of es y (some 0) ≡ some (read y))
        × ListsRange cpu read
            (serve vr_emu6502_new true realloc files seeks stale (run s))
            (start_of es (lo + hi * 256))
            (highest es)
  main_lists_file new flat path_is holds ok laid code lo-lt hi-lt low high =
      let zero_at = λ (y : ℕ) (fits : y < 65536). ap (byte_of es y) (mapped-zero y fits) in
      let (r, reads, fine, end_is, _, entry_is) =
        read_rp6502_file-start styles layout seeks es mapped lo hi mapped-IsImage ok laid code lo-lt
          hi-lt (zero_at 0xfffc (omega arith) ∙ low) (zero_at 0xfffd (omega arith) ∙ high) in
      let (r', reads', _, bytes) =
        read_rp6502_file-byte styles layout seeks es mapped mapped-IsImage ok laid in
      let (r'', reads'', (valid, _, range)) =
        read_rp6502_file-IsGood seeks (some (file_text styles layout es)) mapped mapped-IsImage.0 in
      let same : r' ≡ r = cc in
      let same' : r'' ≡ r = cc in
      let p = program_of_reading r in
      let loads : load_input files seeks stale s.input_path (mem_set_default_fill startup 0)
          ≡ some (some p) =
        rw path_is (load_input-rom files seeks stale path styles layout es r holds reads fine) in
      let ok' : IsValid p.memory = subst (λ (t : Reading). IsValid t.loading.memory) same' valid in
      let order : p.base ≤ p.end =
        subst (λ (t : Reading). t.error ≡ none → t.loading.out.entry ≤ t.loading.out.end) same'
          (λ e. (range e).0) fine in
      let bytes' =
        subst
          (λ (t : Reading).
            (y : ℕ) → y < 65536 → mem_read t.loading.memory y ≡ byte_of es y (mem_read mapped y))
          same bytes in
      let Shown = λ (base end : ℕ).
        ListsRange cpu (read_byte p.memory)
          (serve vr_emu6502_new true realloc files seeks stale (run s)) base end in
      let lists : Shown p.base p.end =
        main_lists vr_emu6502_new realloc grows files seeks stale s cpu p new flat loads refl
          order in
      (
        read_byte p.memory,
        λ y fits. sym (zero_at y fits) ∙ sym (bytes' y fits) ∙ read_byte-some p.memory y ok' fits,
        subst (λ (b : ℕ). Shown b (highest es)) entry_is
            (subst (λ (e : ℕ). Shown p.base e) end_is lists),
      )
