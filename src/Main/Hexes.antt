-- ===== src/Main/Hexes.antt =====
-- `main` in dis.c, from the bytes of an Intel HEX file to its listing.
use dis.Base.{
  ℕ, ◌^◌, ◌<◌, ◌≤◌, ◌≡◌, ◌==◌, refl, sym, subst, ap, ◌∙◌, arith, Bool, true, false, Option, none,
  some, List, ◌++◌, All,
}
use mathlib.Core.Option
use dis.Base.Text.{Text}
use dis.Cpu.{Model, VrEmu6502}
use dis.Memory.{mem_set_default_fill}
use dis.Memory.Valid.{IsValid}
use dis.Rp6502file.Read.{is_rp6502_file}
use dis.Hexfile.{HexReading, read_hex_file}
use dis.Hexfile.Format.{Style, Part, IsPart, parts_text}
use dis.Hexfile.Total.{read_hex_file-IsValid}
use dis.Hexfile.Ranges.{IsInside, byte_of_parts, first_addr, last_addr, count_bytes, first_addr_le}
use dis.Hexfile.Image.{read_hex_file-byte}
use dis.Analyze.{Realloc}
use dis.Main.Lists.{main_lists}
use dis.Main.Mapped.{mapped, mapped-IsImage, mapped-zero, ListsRange}
use dis.Main.Total.{read_byte-some}
use dis.Main.{Settings, run, Program, load_input, load_file, read_byte, serve, startup}

-- The program that a HEX file loads as.
abbrev program_of_reading : HexReading → Program
program_of_reading r = record {
  memory = r.memory;
  base = r.address;
  end = Option.get_or r.end 0;
  have_entry = true;
  rom = none;
}

load_input-hex :
    (files : Text → Option (List ℕ)) (seeks : Bool) (stale : ℕ → ℕ) (path : Text)
    (contents : List ℕ) (r : HexReading)
    → files path ≡ some contents
    → is_rp6502_file (some contents) ≡ false
    → read_hex_file stale (some contents) mapped ≡ some r
    → (r.address == 0) ≡ false
    → load_input files seeks stale (some path) (mem_set_default_fill startup 0)
      ≡ some (some (program_of_reading r))
unfolding load_input load_file
load_input-hex files seeks stale path contents r holds other reads started =
    rw (holds, other) (rw reads (rw started refl))

module _ (vr_emu6502_new : Model → Option VrEmu6502) (realloc : Realloc)
    (grows : (n : ℕ) → realloc n ≡ true) (files : Text → Option (List ℕ)) (seeks : Bool)
    (stale : ℕ → ℕ) (s : Settings) (cpu : VrEmu6502) (path : Text) (style : Style) (ps : List Part)
    (behind : List ℕ) where
  -- From the bytes of a HEX file to the listing: with a handle, every allocation granted, no
  -- --linear, and a path to a file that isRp6502File does not take and that has records with
  -- digits in either case, texts of up to 1021 characters that no ':' begins, an EOF record and
  -- anything behind it, whose data records have bytes, inside the address space, with less than
  -- 2^31 bytes in all and a data record that is not at address 0, main reads back the bytes of the
  -- data records at addresses below $FFFF, the later over the earlier, and 0 elsewhere. It lists
  -- from the first address of a data record that is not 0, passing over records at 0, up to the
  -- highest of a byte. The listing covers that range, and its starts are exactly what control flow
  -- reaches from there inside it.
  pub main_lists_hex :
      vr_emu6502_new s.model ≡ some cpu
      → s.linear ≡ false
      → s.input_path ≡ some path
      → files path ≡ some (parts_text style ps ++ behind)
      → is_rp6502_file (some (parts_text style ps ++ behind)) ≡ false
      → All IsPart ps
      → All IsInside ps
      → count_bytes ps < 2 ^ 31
      → (first_addr ps == 0) ≡ false
      → (read : ℕ → ℕ) × ((y : ℕ) → y < 65536 → byte_of_parts ps y (some 0) ≡ some (read y))
        × ListsRange cpu read
            (serve vr_emu6502_new true realloc files seeks stale (run s))
            (first_addr ps)
            (last_addr ps)
  main_lists_hex new flat path_is holds other ok inside total started =
      let contents = parts_text style ps ++ behind in
      let (r, reads, bytes, address, end, _) =
        read_hex_file-byte stale style ps behind mapped mapped-IsImage ok inside total in
      let (r', reads', valid, _) =
        read_hex_file-IsValid stale (some contents) mapped mapped-IsImage.0 in
      let same : r' ≡ r = cc in
      let ok' : IsValid r.memory = subst (λ (t : HexReading). IsValid t.memory) same valid in
      let p = program_of_reading r in
      let ended : r.end ≡ some (last_addr ps) = rw started at end in
      let end' : p.end ≡ last_addr ps = ap (λ (o : Option ℕ). Option.get_or o 0) ended in
      let order : p.base ≤ p.end = omega (arith, (first_addr_le ps inside).0, address, end') in
      let loads : load_input files seeks stale s.input_path (mem_set_default_fill startup 0)
          ≡ some (some p) =
        rw path_is (
          load_input-hex files seeks stale path contents r holds other reads
            (rw address started)) in
      let Shown = λ (base last : ℕ).
        ListsRange cpu (read_byte p.memory)
          (serve vr_emu6502_new true realloc files seeks stale (run s)) base last in
      let lists : Shown p.base p.end =
        main_lists vr_emu6502_new realloc grows files seeks stale s cpu p new flat loads refl
          order in
      (
        read_byte p.memory,
        λ y fits.
            sym (ap (byte_of_parts ps y) (mapped-zero y fits))
            ∙ sym (bytes y fits)
            ∙ read_byte-some p.memory y ok' fits,
        subst (λ (b : ℕ). Shown b (last_addr ps)) address
            (subst (λ (e : ℕ). Shown p.base e) end' lists),
      )
