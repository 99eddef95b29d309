-- ===== src/Hexfile/Columns.antt =====
-- The columns of a line of `readHexFile`, where its fields were printed.
use dis.Base.{
  ℕ, ◌+◌, ◌*◌, ◌≤◌, ◌<◌, ◌≡◌, refl, sym, ap, ◌∙◌, arith, List, [], ◌∷◌, ◌++◌, length, length-append,
  All, Option, some, none, u8, u16, ◌>>=◌,
}
use mathlib.Core.List.{append_assoc}
use dis.Base.Text.{Text, Letters, hex_in}
use dis.Libc.Printed.{length-hex}
use dis.Memory.{Memory, mem_write}
use dis.Rp6502file.Read.{write_payload}
use dis.Hexfile.Copies.{copied-some}
use dis.Hexfile.{overwrite, field, write_data}
use dis.Hexfile.Format.{IsByte, bytes_text}
use dis.Hexfile.Fields.{field-hex}

and_then_same :
    (o : Option Memory) (f g : Memory → Option Memory)
    → ((m : Memory) → f m ≡ g m)
    → (o >>= f) ≡ (o >>= g)
and_then_same none f g same = refl
and_then_same (some m) f g same = same m

pub write_data-bytes_text :
    (l : Letters) (m : Memory) (stale : ℕ → ℕ) (addr i : ℕ) (text before payload after : List ℕ)
    → text ≡ before ++ (bytes_text l payload ++ after)
    → length before ≡ 9 + i * 2
    → All IsByte payload
    → i + length payload ≤ 255
    → write_data m (overwrite stale text) addr i (length payload) ≡ write_payload m addr i payload
unfolding write_data write_payload
write_data-bytes_text l m stale addr i text before [] after e start bytes small = refl
write_data-bytes_text l m stale addr i text before (b ∷ payload) after e start bytes small =
    let copies = copied-some (overwrite stale text) i (omega arith) in
    let next = before ++ hex_in l 2 b in
    let split : text ≡ before ++ (hex_in l 2 b ++ (bytes_text l payload ++ after)) =
      e
      ∙ ap (λ (t : Text). before ++ t) (append_assoc (hex_in l 2 b) (bytes_text l payload) after) in
    let whole : text ≡ next ++ (bytes_text l payload ++ after) =
      split ∙ sym (append_assoc before (hex_in l 2 b) (bytes_text l payload ++ after)) in
    let start' : length next ≡ 9 + (i + 1) * 2 =
      omega (arith, length-append before (hex_in l 2 b), length-hex l 2 b) in
    let byte : field (overwrite stale text) (9 + i * 2) 2 ≡ b = rw (← start) (
      rw split
        (field-hex stale before (bytes_text l payload ++ after) l 0 b (omega (arith, bytes.0)))) in
    let value : u8 (field (overwrite stale text) (9 + i * 2) 2) ≡ b =
      omega (arith, byte, bytes.0) in
    rw copies (
      ap
        (λ (v : ℕ).
          mem_write m (u16 (addr + i)) v
          >>= (λ m'. write_data m' (overwrite stale text) addr (i + 1) (length payload)))
        value
      ∙ and_then_same (mem_write m (u16 (addr + i)) b)
          (λ m'. write_data m' (overwrite stale text) addr (i + 1) (length payload))
          (λ m'. write_payload m' addr (i + 1) payload)
          (λ m'.
            write_data-bytes_text l m' stale addr (i + 1) text next payload after whole start'
              bytes.1 (omega arith)))

-- What stands before the columns of a field.
abbrev pub columns : Letters → ℕ → ℕ → Text
columns l n addr = (b':' ∷ hex_in l 2 n) ++ hex_in l 4 addr

pub length-columns : (l : Letters) (n addr : ℕ) → length (columns l n addr) ≡ 7
length-columns l n addr = omega (
  arith,
  length-append (b':' ∷ hex_in l 2 n) (hex_in l 4 addr),
  length-hex l 2 n,
  length-hex l 4 addr,
)

-- A line with these fields in front.
abbrev pub line_text : Letters → ℕ → ℕ → ℕ → Text → Text
line_text l n addr type tail =
    b':' ∷ (hex_in l 2 n ++ (hex_in l 4 addr ++ (hex_in l 2 type ++ tail)))

pub fields :
    (stale : ℕ → ℕ) (l : Letters) (n addr type : ℕ) (tail : Text)
    → n < 256
    → addr < 65536
    → type < 256
    → (field (overwrite stale (line_text l n addr type tail)) 1 2 ≡ n)
      × (field (overwrite stale (line_text l n addr type tail)) 3 4 ≡ addr)
      × (field (overwrite stale (line_text l n addr type tail)) 7 2 ≡ type)
fields stale l n addr type tail n_fits addr_fits type_fits =
    let behind = hex_in l 2 type ++ tail in
    let second = field-hex stale (b':' ∷ hex_in l 2 n) behind l 2 addr addr_fits in
    let third = field-hex stale (columns l n addr) tail l 0 type type_fits in
    (
      field-hex stale (b':' ∷ []) (hex_in l 4 addr ++ behind) l 0 n n_fits,
      rw (length-hex l 2 n) at second,
      rw (append_assoc (hex_in l 2 n) (hex_in l 4 addr) behind, length-columns l n addr) at third,
    )
