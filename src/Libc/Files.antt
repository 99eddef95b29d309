-- ===== src/Libc/Files.antt =====
-- An open file: the bytes that are left and the position.
use dis.Base.{
  ℕ, zero, suc, ◌+◌, ◌-◌, Option, none, some, List, [], ◌∷◌, ◌==◌, if◌then◌else◌, take, drop,
  length,
}
use dis.Base.Text.{Text}

pub record File : Type 0 where
  pub rest : List ℕ
  pub pos : ℕ

abbrev pub opened : List ℕ → File
opened bytes = record { rest = bytes; pos = 0 }

-- `f` after `n` more bytes have been read.
abbrev pub skip : ℕ → File → File
skip n f = record { rest = drop n f.rest; pos = f.pos + n }

-- The bytes up to the end of the line, with its '\n', but `most` at most.
abbrev pub line_len : ℕ → List ℕ → ℕ
line_len zero bytes = 0
line_len (suc most) [] = 0
line_len (suc most) (b ∷ bytes) = if b == b'\n' then 1 else suc (line_len most bytes)

-- `fgets(buf, size, f)`: the characters that it stores before the NUL, and the file.
unfoldable pub fgets : ℕ → File → Option (List ℕ × File)
fgets size f =
    let n = line_len (size - 1) f.rest in if n == 0 then none else some (take n f.rest, skip n f)

-- `fread(buf, 1, n, f)`: the bytes that it stores, fewer than `n` at the end of the file.
abbrev pub fread : ℕ → File → List ℕ × File
fread n f = (take n f.rest, skip (length (take n f.rest)) f)

-- A string is what stands before the first NUL.
abbrev pub c_string : List ℕ → Text
c_string [] = []
c_string (b ∷ bytes) = if b == 0 then [] else b ∷ c_string bytes
