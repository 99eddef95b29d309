-- ===== src/Disassemble/Length.antt =====
-- `DisInstLen`, and the bytes that `DisOne` fetches.
use dis.Base.{ℕ, ◌+◌, ◌≤◌, ◌<◌, ◌≡◌, some, none, arith, u16}
use dis.Cpu.{VrEmu6502, AddrMode}
use dis.Disassemble.{mode_len, dis_inst_len, dis_one, composed}

mode_len_bounds : (m : AddrMode) → (1 ≤ mode_len m) × (mode_len m ≤ 3)
unfolding mode_len
mode_len_bounds m = ground arith

-- With a handle every opcode is 1, 2 or 3 bytes long, and only without one is the length 0.
pub dis_inst_len_bounds :
    (cpu : VrEmu6502) (opcode : ℕ)
    → (1 ≤ dis_inst_len (some cpu) opcode)
      × (dis_inst_len (some cpu) opcode ≤ 3)
      × (dis_inst_len none opcode ≡ 0)
unfolding dis_inst_len
dis_inst_len_bounds cpu opcode = ground (arith, mode_len_bounds (cpu.addr_mode opcode))

-- With an opcode table and at a 16-bit address, DisOne depends on no byte of memory but those of
-- the instruction there: two memories that agree on them give the same text and the same next
-- address.
pub dis_one_reads :
    (cpu : VrEmu6502) (addr size : ℕ) (read read' : ℕ → ℕ)
    → addr < 65536
    → ((i : ℕ)
        → i < dis_inst_len (some cpu) (read addr)
        → read (u16 (addr + i)) ≡ read' (u16 (addr + i)))
    → dis_one (some cpu) addr read size ≡ dis_one (some cpu) addr read' size
unfolding dis_one composed
dis_one_reads cpu addr size read read' fits same =
    let here : u16 (addr + 0) ≡ addr = omega arith in
    let bounds = dis_inst_len_bounds cpu (read addr) in
    let opcode : read addr ≡ read' addr = rw here at (same 0 bounds.0) in
    ground (arith, opcode, same 1, same 2)
