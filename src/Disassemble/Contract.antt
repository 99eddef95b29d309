-- ===== src/Disassemble/Contract.antt =====
-- What disassemble.h says of lengths, buffers, ranges and targets, before and after DisInit. It
-- also says that `buf` is left empty only on failure, which is not so for a buffer of one byte, and
-- lists the kinds of flow, which Kinds is about.
use dis.Base.{
  ℕ, suc, ◌+◌, ◌-◌, ◌≤◌, ◌<◌, ◌≡◌, refl, arith, Option, some, none, List, [], ◌∷◌, length, get_or,
  take, u16, min,
}
use dis.Base.Text.{Text}
use dis.Cpu.{Model, VrEmu6502}
use dis.Disassemble.{
  Line, Decoded, Classified, normal, text_or, dis_init, dis_inst_len, dis_one, dis_range,
  dis_flow_of,
}
use dis.Disassemble.Length.{dis_inst_len_bounds}
use dis.Disassemble.Buffer.{dis_one_truncates}
use dis.Disassemble.Range.{Tiles, dis_range-Tiles}
use dis.Disassemble.Flow.{has_target, is_some, named_flow_targeted}

-- The functions that disassemble.h declares, on the state that they share.
pub record Disassembler : Type 1 where
  pub State : Type 0
  pub init : Model → State → State
  pub inst_len : State → ℕ → ℕ
  pub one : State → ℕ → (ℕ → ℕ) → ℕ → Decoded
  pub range : State → ℕ → ℕ → (ℕ → ℕ) → Option (List Line)
  pub flow_of : State → ℕ → (ℕ → ℕ) → Classified

-- The lines of a range up to `stop`, from `pc` on: instructions that begin inside the range, one
-- behind the other, each decoded in full, up to the end of the range or behind it.
abbrev pub Lists : (d : Disassembler) → d.State → (ℕ → ℕ) → ℕ → ℕ → List Line → Type 0
Lists d s read stop pc [] = stop ≤ pc
Lists d s read stop pc (l ∷ ls) =
    (l.addr ≡ pc)
    × (pc < stop)
    × (length l.bytes ≡ d.inst_len s (read pc))
    × ((i : ℕ) → i < length l.bytes → get_or l.bytes i 0 ≡ read (u16 (pc + i)))
    × (l.text ≡ text_or (d.one s pc read 48).text [])
    × Lists d s read stop (pc + length l.bytes) ls

-- After DisInit.
pub record Promises (d : Disassembler) (s : d.State) : Type 0 where
  pub inst_len_bounds : (opcode : ℕ) → (1 ≤ d.inst_len s opcode) × (d.inst_len s opcode ≤ 3)
  pub one_next :
      (addr size : ℕ) (read : ℕ → ℕ)
      → (d.one s addr read size).next ≡ u16 (addr + d.inst_len s (read addr))
  pub one_fits :
      (addr size more : ℕ) (read : ℕ → ℕ)
      → (text : Text) × (longer : Text) × ((d.one s addr read (suc size)).text ≡ some text)
        × ((d.one s addr read (suc size + more)).text ≡ some longer)
        × (text ≡ take size longer)
        × (length text ≤ size)
  pub one_unwritten : (addr : ℕ) (read : ℕ → ℕ) → (d.one s addr read 0).text ≡ none
  pub range_empty : (addr : ℕ) (read : ℕ → ℕ) → d.range s addr 0 read ≡ some []
  pub range_lists :
      (addr len : ℕ) (read : ℕ → ℕ)
      → (lines : List Line) × (d.range s (u16 addr) len read ≡ some lines)
        × Lists d s read (min (u16 addr + len) 65536) (u16 addr) lines
  pub flow_targeted :
      (addr : ℕ) (read : ℕ → ℕ)
      → is_some (d.flow_of s addr read).target ≡ has_target (d.flow_of s addr read).kind

-- Before it, and where the library gives no handle.
pub record Inert (d : Disassembler) (s : d.State) : Type 0 where
  pub inst_len_zero : (opcode : ℕ) → d.inst_len s opcode ≡ 0
  pub one_zero : (addr size : ℕ) (read : ℕ → ℕ) → (d.one s addr read size).next ≡ 0
  pub one_empty : (addr size : ℕ) (read : ℕ → ℕ) → (d.one s addr read (suc size)).text ≡ some []
  pub range_nothing : (addr len : ℕ) (read : ℕ → ℕ) → d.range s addr len read ≡ some []
  pub flow_normal :
      (addr : ℕ) (read : ℕ → ℕ) → d.flow_of s addr read ≡ record { kind = normal; target = none }

-- disassemble.c as such functions; the state is `disCpu`.
abbrev pub disassembler : (Model → Option VrEmu6502) → Disassembler
disassembler vr_emu6502_new = record {
  State = Option VrEmu6502;
  init = λ model dis_cpu. dis_init vr_emu6502_new dis_cpu model;
  inst_len = dis_inst_len;
  one = dis_one;
  range = dis_range;
  flow_of = dis_flow_of;
}

module _ (vr_emu6502_new : Model → Option VrEmu6502) (cpu : VrEmu6502) where
  abbrev d : Disassembler
  d = disassembler vr_emu6502_new

  Tiles-Lists :
      (read : ℕ → ℕ) (stop pc : ℕ) (lines : List Line)
      → Tiles cpu read stop pc lines
      → Lists d (some cpu) read stop pc lines
  Tiles-Lists read stop pc [] tiles = tiles
  Tiles-Lists read stop pc (l ∷ lines) (here, inside, (size, bytes), text, rest) = (
    here,
    inside,
    size,
    bytes,
    unfold dis_one in text,
    Tiles-Lists read stop (pc + length l.bytes) lines rest,
  )

  -- disassemble.c refines the interface that disassemble.h declares: whatever the state was
  -- before, DisInit with a handle makes these promises on lengths, buffers, ranges and targets hold,
  -- and without a handle every call does nothing.
  pub disassembler-Promises :
      (model : Model) (old : Option VrEmu6502)
      → vr_emu6502_new model ≡ some cpu
      → Promises d (d.init model old) × Inert d none
  unfolding dis_init dis_inst_len dis_one dis_range dis_flow_of
  disassembler-Promises model old given = (
    rw given (record {
      inst_len_bounds =
          λ opcode. let bounds = dis_inst_len_bounds cpu opcode in (bounds.0, bounds.1);
      one_next = λ addr size read. refl;
      one_fits = λ addr size more read.
          let (short, long, s, l, cut, fits, _) =
            dis_one_truncates cpu addr read (suc size) (suc size + more) (omega arith)
              (omega arith) in
          let e : suc size - 1 ≡ size = omega arith in
          (short, long, s, l, rw e at cut, omega (arith, fits));
      one_unwritten = λ addr read. refl;
      range_empty = λ addr read. refl;
      range_lists = λ addr len read.
          let (lines, runs, tiles) = dis_range-Tiles cpu read (u16 addr) len (omega arith) in
          (lines, runs, Tiles-Lists read (min (u16 addr + len) 65536) (u16 addr) lines tiles);
      flow_targeted =
          λ addr read. named_flow_targeted (read addr) (cpu.mnemonic_str (read addr)) addr read;
    }),
    record {
      inst_len_zero = λ opcode. refl;
      one_zero = λ addr size read. refl;
      one_empty = λ addr size read. ground arith;
      range_nothing = λ addr len read. refl;
      flow_normal = λ addr read. refl;
    },
  )
