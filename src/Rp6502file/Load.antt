-- ===== src/Rp6502file/Load.antt =====
-- What a chunk of the right range does to the memory and the code range.
use dis.Base.{
  ℕ, ◌+◌, ◌≤◌, ◌<◌, ◌≡◌, ◌⊎◌, inl, inr, refl, arith, ◌∙◌, Bool, true, false, some, List, [], ◌∷◌,
  leb, length, u16, Bool-cases,
}
use dis.Memory.{Memory}
use dis.Memory.Valid.{IsValid, accesses-IsValid}
use dis.Rp6502file.Parse.{is_out_of_range}
use dis.Rp6502file.Read.{
  Loading, write_payload, load_chunk, count_ram, count_xram, extend, vector_base,
}

-- Before the first chunk of code the bounds are those of no range; then they are a range below
-- the vectors.
abbrev pub InOrder : Bool → ℕ → ℕ → Type 0
InOrder have_code low high =
    (have_code ≡ false) × (low ≡ 0xffffffff) × (high ≡ 0)
    ⊎ (have_code ≡ true) × (low ≤ high) × (high < vector_base)

-- The memory is valid and has the regions of `m`, and the code range is in order.
abbrev pub IsSound : Memory → Loading → Type 0
IsSound m s =
    IsValid s.memory × (s.memory.regions ≡ m.regions) × InOrder s.have_code s.code_low s.code_high

pub write_payload-IsValid :
    (m : Memory) (addr i : ℕ) (payload : List ℕ)
    → IsValid m
    → (m' : Memory) × (write_payload m addr i payload ≡ some m')
      × IsValid m'
      × (m'.regions ≡ m.regions)
unfolding write_payload
write_payload-IsValid m addr i [] ok = (m, refl, ok, refl)
write_payload-IsValid m addr i (b ∷ payload) ok =
    let (_, (n, wrote, ok', same)) = accesses-IsValid m (u16 (addr + i)) b (omega arith) ok in
    let (m', rest, ok'', same') = write_payload-IsValid n addr (i + 1) payload ok' in
    (m', rw wrote rest, ok'', same' ∙ same)

extend-InOrder :
    (s : Loading) (addr len : ℕ)
    → is_out_of_range addr len ≡ false
    → InOrder s.have_code s.code_low s.code_high
    → InOrder
        (extend s addr len).have_code
        (extend s addr len).code_low
        (extend s addr len).code_high
unfolding is_out_of_range
extend-InOrder s addr len fits ok = ground (arith, fits, ok)

-- A chunk in range is loaded.
pub load_chunk-IsSound :
    (m : Memory) (s : Loading) (addr : ℕ) (payload : List ℕ)
    → is_out_of_range addr (length payload) ≡ false
    → IsSound m s
    → (s' : Loading) × (load_chunk s addr payload ≡ some s') × IsSound m s'
unfolding load_chunk
load_chunk-IsSound m s addr payload fits (ok, same, order) =
    let len = length payload in
    let (n, wrote, ok', same') = write_payload-IsValid s.memory addr 0 payload ok in
    elim (Bool-cases (leb 0x10000 addr)) [
      | inl xram ↦ (count_xram s len, rw xram, (ok, same, order))
      | inr ram ↦
          let t = count_ram s n addr len in
          let kept : (extend t addr len).memory ≡ n = ground arith in
          (
            extend t addr len,
            rw (ram, wrote),
            (rw kept ok', rw kept (same' ∙ same), extend-InOrder t addr len fits order),
          )
    ]
