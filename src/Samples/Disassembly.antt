-- ===== src/Samples/Disassembly.antt =====
-- Tests of the disassembler, and its theorems at concrete inputs.
use dis.Base.{
  ℕ, ap, ◌++◌, ◌==◌, if◌then◌else◌, ◌<◌, ◌≡◌, refl, arith, some, List, [], ◌∷◌, length, take,
}
use dis.Base.Text.{Text, codes, hex, hex_in}
use dis.Disassemble.{
  branch, dis_inst_len, dis_one, dis_range, dis_flow_of, composed, Line, Classified, operand_text,
  operand_format, fetch_bytes, range_loop, dis_is_bit_branch, dis_is_brk, dis_is_accumulator,
  mode_len, mode_operand, named_flow, opcode_flow, is_conditional,
}
use dis.Disassemble.Length.{dis_one_reads}
use dis.Disassemble.Buffer.{dis_one_truncates, dis_one_complete}
use dis.Disassemble.Range.{dis_range-Tiles, Tiles}
use dis.Disassemble.Flow.{IsConsistent, dis_flow_of_target, dis_flow_of_shown, has_target, is_some}
use dis.Samples.{sample_cpu, sample_read, sample_read-lt}

lines_sample :
    dis_range (some sample_cpu) 0x200 6 sample_read
    ≡ some (
        record { addr = 0x200; bytes = 0x20 ∷ 0x08 ∷ 0x02 ∷ []; text = codes "jsr $0208" }
        ∷ record { addr = 0x203; bytes = 0xd0 ∷ 0xfb ∷ []; text = codes "bne $0200" }
        ∷ record { addr = 0x205; bytes = 0x4c ∷ 0x00 ∷ 0xc0 ∷ []; text = codes "jmp $c000" }
        ∷ [])
unfolding dis_range range_loop dis_one composed operand_text operand_format fetch_bytes hex_in
    dis_inst_len dis_is_bit_branch dis_is_brk dis_is_accumulator mode_len mode_operand
lines_sample = refl

-- Another memory, with the same instruction at 0209.
abbrev other_read : ℕ → ℕ
other_read a = if a == 0x20a then 7 else sample_read a

dis_one_reads_example :
    dis_one (some sample_cpu) 0x209 sample_read 48 ≡ dis_one (some sample_cpu) 0x209 other_read 48
unfolding dis_inst_len dis_is_bit_branch dis_is_brk mode_len
dis_one_reads_example =
    dis_one_reads sample_cpu 0x209 48 sample_read other_read (omega arith) (λ i lt. ground arith)

dis_one_truncates_example :
    (short : Text) × (long : Text) × ((dis_one (some sample_cpu) 0x200 sample_read 6).text
      ≡ some short)
    × ((dis_one (some sample_cpu) 0x200 sample_read 48).text ≡ some long)
    × (short ≡ take 5 long)
    × (length short < 6)
    × ((dis_one (some sample_cpu) 0x200 sample_read 6).next
        ≡ (dis_one (some sample_cpu) 0x200 sample_read 48).next)
dis_one_truncates_example =
    dis_one_truncates sample_cpu 0x200 sample_read 6 48 (omega arith) (omega arith)

dis_one_complete_example :
    ((dis_one (some sample_cpu) 0x200 sample_read 48).text
      ≡ some (composed sample_cpu 0x200 sample_read))
    × ((opcode arg8 arg8b : ℕ)
        → operand_text sample_cpu opcode 0x200 arg8 arg8b
          ≡ operand_format sample_cpu opcode 0x200 arg8 arg8b)
dis_one_complete_example =
    dis_one_complete sample_cpu 0x200 sample_read (codes "jsr") refl (omega arith)

dis_range-Tiles_example :
    (lines : List Line) × (dis_range (some sample_cpu) 0x200 6 sample_read ≡ some lines)
    × Tiles sample_cpu sample_read 0x206 0x200 lines
dis_range-Tiles_example = dis_range-Tiles sample_cpu sample_read 0x200 6 (omega arith)

dis_flow_of_target_example :
    (is_some (dis_flow_of (some sample_cpu) 0x203 sample_read).target
      ≡ has_target (dis_flow_of (some sample_cpu) 0x203 sample_read).kind)
    × ((t : ℕ) → (dis_flow_of (some sample_cpu) 0x203 sample_read).target ≡ some t → t < 65536)
dis_flow_of_target_example = dis_flow_of_target (some sample_cpu) 0x203 sample_read sample_read-lt

sample_cpu-IsConsistent : IsConsistent sample_cpu
unfolding is_conditional
sample_cpu-IsConsistent = record {
  jsr = refl;
  jmp = refl;
  conditional = λ opcode h. ground arith;
  bra = λ m h e. refl;
}

flow_sample :
    dis_flow_of (some sample_cpu) 0x203 sample_read ≡ record { kind = branch; target = some 0x200 }
unfolding dis_flow_of named_flow opcode_flow is_conditional dis_is_bit_branch
flow_sample = refl

dis_flow_of_shown_example :
    (before : Text) × (composed sample_cpu 0x203 sample_read ≡ before ++ (codes "$" ++ hex 4 0x200))
dis_flow_of_shown_example =
    dis_flow_of_shown sample_cpu 0x203 sample_read 0x200 sample_cpu-IsConsistent
      (ap (λ (f : Classified). f.target) flow_sample)
