-- ===== src/Hexfile/Records.antt =====
-- The lines of `readHexFile`, where a record was printed.
use dis.Base.{
  ℕ, ◌+◌, ◌^◌, ◌≤◌, ◌<◌, ◌≡◌, refl, sym, subst, ap, ◌∙◌, arith, false, [], ◌∷◌, ◌++◌, ◌==◌, length,
  length-append, Option, some, none, u32, ◌>>=◌,
}
use mathlib.Core.List.{append_assoc}
use mathlib.Core.Option
use dis.Base.Text.{LineEnd, lf, crlf, return_text, newline, Text, char_at, hex_in}
use dis.Libc.Printed.{length-hex}
use dis.Memory.{Memory}
use dis.Rp6502file.Read.{write_payload}
use dis.Hexfile.{
  Loader, goes_on, stops, overwrite, field, rounds, write_data, record_data, read_data, read_record,
  read_hex_line, read_fields,
}
use dis.Hexfile.Format.{
  Style, Record, Part, stored, typed, skipped, IsRecord, IsPart, bytes_text, record_text, part_text,
  eof_text, load_part,
}
use dis.Hexfile.Fields.{overwrite-append}
use dis.Hexfile.Columns.{write_data-bytes_text, columns, length-columns, line_text, fields}

-- What stands behind the payload.
abbrev behind_text : Style → Record → Text
behind_text style r = hex_in style.letters 2 r.checksum ++ (return_text style.line_end ++ newline)

-- What stands behind the type.
abbrev tail_text : Style → Record → Text
tail_text style r = bytes_text style.letters r.payload ++ behind_text style r

record_text-line :
    (style : Style) (type : ℕ) (r : Record)
    → record_text style type r ++ newline
      ≡ line_text style.letters (length r.payload) r.addr type (tail_text style r)
record_text-line style type r =
    let l = style.letters in
    let a = hex_in l 2 (length r.payload) in
    let b = hex_in l 4 r.addr in
    let c = hex_in l 2 type in
    let d = bytes_text l r.payload in
    let e = hex_in l 2 r.checksum in
    let f = return_text style.line_end in
    ap (λ (t : Text). b':' ∷ t)
      (append_assoc a (b ++ (c ++ (d ++ (e ++ f)))) newline
        ∙ ap (λ (t : Text). a ++ t)
            (append_assoc b (c ++ (d ++ (e ++ f))) newline
              ∙ ap (λ (t : Text). b ++ t)
                  (append_assoc c (d ++ (e ++ f)) newline
                    ∙ ap (λ (t : Text). c ++ t)
                        (append_assoc d (e ++ f) newline
                          ∙ ap (λ (t : Text). d ++ t) (append_assoc e f newline)))))

-- The fields of a record's line.
abbrev Shows : (ℕ → ℕ) → ℕ → Record → Type 0
Shows buffer type r =
    (buffer 0 ≡ b':')
    × (field buffer 1 2 ≡ length r.payload)
    × (field buffer 3 4 ≡ r.addr)
    × (field buffer 7 2 ≡ type)

record_text-Shows :
    (stale : ℕ → ℕ) (style : Style) (type : ℕ) (r : Record)
    → type < 256
    → IsRecord r
    → Shows (overwrite stale (record_text style type r ++ newline)) type r
record_text-Shows stale style type r type_fits (addr_fits, size, bytes) =
    let l = style.letters in
    let n = length r.payload in
    let tail = tail_text style r in
    let (first, second, third) =
      fields stale l n r.addr type tail (omega (arith, size)) addr_fits type_fits in
    let colon =
      overwrite-append stale [] (hex_in l 2 n ++ (hex_in l 4 r.addr ++ (hex_in l 2 type ++ tail)))
        b':' in
    subst (λ (t : Text). Shows (overwrite stale t) type r) (sym (record_text-line style type r))
      (colon, first, second, third)

data_line :
    (buffer : ℕ → ℕ) (s : Loader) (r : Record)
    → Shows buffer 0 r
    → length r.payload ≤ 255
    → read_hex_line buffer s ≡ (
        write_data s.memory buffer r.addr 0 (length r.payload) >>= (λ m. some (
          goes_on (
            record_data
              (record s { total = u32 (s.total + length r.payload) })
              m
              r.addr
              (length r.payload)))))
unfolding read_hex_line read_fields read_record read_data
data_line buffer s r (colon, first, second, third) small =
    let turns : rounds (length r.payload) ≡ length r.payload = ground (arith, small) in
    rw (colon, third, first, second, turns) refl

typed_line :
    (buffer : ℕ → ℕ) (s : Loader) (type : ℕ) (r : Record)
    → Shows buffer type r
    → (type == 0) ≡ false
    → (type == 1) ≡ false
    → read_hex_line buffer s
      ≡ some (goes_on (record s { total = u32 (s.total + length r.payload) }))
unfolding read_hex_line read_fields read_record
typed_line buffer s type r (colon, first, _, third) not_stored not_eof =
    rw (colon, third, first, not_stored, not_eof) refl

eof_line :
    (buffer : ℕ → ℕ) (s : Loader) (r : Record)
    → Shows buffer 1 r
    → length r.payload ≡ 0
    → s.total < 2 ^ 32
    → read_hex_line buffer s ≡ some (stops s)
unfolding read_hex_line read_fields read_record
eof_line buffer s r (colon, first, _, third) none_left total =
    let kept : u32 (s.total + 0) ≡ s.total = omega arith in
    rw (colon, third, first, none_left, kept) refl

skipped_line :
    (buffer : ℕ → ℕ) (s : Loader)
    → (buffer 0 == b':') ≡ false
    → read_hex_line buffer s ≡ some (goes_on s)
unfolding read_hex_line
skipped_line buffer s other = rw other refl

goes_on_with :
    (o : Option Memory) (f : Memory → Loader)
    → (o >>= (λ m. some (goes_on (f m)))) ≡ Option.map goes_on (o >>= (λ m. some (f m)))
goes_on_with none f = refl
goes_on_with (some m) f = refl

-- The payload's bytes are what is written.
writes_payload :
    (stale : ℕ → ℕ) (style : Style) (r : Record) (m : Memory)
    → IsRecord r
    → write_data m (overwrite stale (record_text style 0 r ++ newline)) r.addr 0 (length r.payload)
      ≡ write_payload m r.addr 0 r.payload
writes_payload stale style r m (addr_fits, size, bytes) =
    let l = style.letters in
    let n = length r.payload in
    let tail = tail_text style r in
    let before = columns l n r.addr ++ hex_in l 2 0 in
    let split : line_text l n r.addr 0 tail ≡ before ++ tail = sym (
      append_assoc (columns l n r.addr) (hex_in l 2 0) tail
      ∙ append_assoc (b':' ∷ hex_in l 2 n) (hex_in l 4 r.addr) (hex_in l 2 0 ++ tail)) in
    let start : length before ≡ 9 = omega (
      arith,
      length-columns l n r.addr,
      length-append (columns l n r.addr) (hex_in l 2 0),
      length-hex l 2 0,
    ) in
    write_data-bytes_text l m stale r.addr 0 (record_text style 0 r ++ newline) before r.payload
      (behind_text style r) (record_text-line style 0 r ∙ split) start bytes (omega (arith, size))

skipped-first :
    (stale : ℕ → ℕ) (text : Text) (line_end : LineEnd)
    → (char_at text 0 == b':') ≡ false
    → (overwrite stale ((text ++ return_text line_end) ++ newline) 0 == b':') ≡ false
skipped-first stale [] lf other = refl
skipped-first stale [] crlf other = refl
skipped-first stale (c ∷ text) line_end other =
    rw (overwrite-append stale [] ((text ++ return_text line_end) ++ newline) c) other

-- A line of any kind.
pub read_hex_line-part_text :
    (stale : ℕ → ℕ) (style : Style) (p : Part) (s : Loader)
    → IsPart p
    → read_hex_line (overwrite stale (part_text style p ++ newline)) s
      ≡ Option.map goes_on (load_part s p)
read_hex_line-part_text stale style (stored r) s ok =
    let n = length r.payload in
    let shows = record_text-Shows stale style 0 r (omega arith) ok in
    data_line (overwrite stale (record_text style 0 r ++ newline)) s r shows ok.1
    ∙ rw (writes_payload stale style r s.memory ok) (
        goes_on_with (write_payload s.memory r.addr 0 r.payload)
          (λ m. record_data (record s { total = u32 (s.total + n) }) m r.addr n))
read_hex_line-part_text stale style (typed type r) s (fits, not_stored, not_eof, ok) =
    typed_line (overwrite stale (record_text style type r ++ newline)) s type r
      (record_text-Shows stale style type r fits ok) not_stored not_eof
read_hex_line-part_text stale style (skipped text) s (_, _, other) =
    skipped_line (overwrite stale ((text ++ return_text style.line_end) ++ newline)) s
      (skipped-first stale text style.line_end other)

-- The EOF record.
pub read_hex_line-eof_text :
    (stale : ℕ → ℕ) (style : Style) (s : Loader)
    → s.total < 2 ^ 32
    → read_hex_line (overwrite stale (eof_text style ++ newline)) s ≡ some (stops s)
read_hex_line-eof_text stale style s total =
    let r : Record = record { addr = 0; payload = []; checksum = 0xff } in
    eof_line (overwrite stale (eof_text style ++ newline)) s r
      (record_text-Shows stale style 1 r (omega arith) (omega arith, omega arith, tt)) refl total
