-- ===== src/Rp6502file/Total.antt =====
-- `readRp6502File` as a whole, on every file.
use dis.Base.{
  ℕ, zero, suc, ◌+◌, ◌*◌, ◌≤◌, ◌<◌, ◌≡◌, inl, inr, refl, arith, Bool, true, ◌&&◌, Option, none,
  some, List, leb, length, u16, bit_or, Bool-cases,
}
use dis.Libc.Files.{File, opened}
use dis.Memory.{Memory}
use dis.Memory.Valid.{IsValid, accesses-IsValid}
use dis.Rp6502file.Parse.{read_line, line_max}
use dis.Rp6502file.Read.{
  Loading, Reading, Round, ended, goes_on, refused, RomError, after_round, chunks, chunk_fuel,
  finish, reset_vector, start_at, described, failed, is_group, section_len, read_section,
  read_sections, has_shebang, nothing_loaded, read_rp6502_file, vector_base,
}
use dis.Rp6502file.Load.{IsSound}
use dis.Rp6502file.Rounds.{RoundIsSound, round-IsSound}

-- A reading that leaves a valid memory with the regions of `m`, and on success an entry at or
-- before the end, which lies below the vectors.
abbrev pub IsGood : Memory → Reading → Type 0
IsGood m r =
    IsValid r.loading.memory
    × (r.loading.memory.regions ≡ m.regions)
    × (r.error ≡ none
        → (r.loading.out.entry ≤ r.loading.out.end) × (r.loading.out.end < vector_base))

abbrev Returns : Memory → Option Reading → Type 0
Returns m result = (r : Reading) × (result ≡ some r) × IsGood m r

failed-Returns :
    (m : Memory) (e : RomError) (s : Loading) → IsSound m s → Returns m (some (failed e s))
failed-Returns m e s (ok, same, order) = (failed e s, refl, (ok, same, λ none_is. cc))

reset_vector-some : (m : Memory) → IsValid m → (v : ℕ) × (reset_vector m ≡ some v)
unfolding reset_vector
reset_vector-some m ok =
    let ((lo, reads_lo), _) = accesses-IsValid m 0xfffc 0 (omega arith) ok in
    let ((hi, reads_hi), _) = accesses-IsValid m 0xfffd 0 (omega arith) ok in
    (u16 (bit_or lo (u16 (hi * 256))), rw (reads_lo, reads_hi))

start_at-IsGood :
    (m : Memory) (s : Loading) (vector : Option ℕ)
    → IsSound m s
    → s.have_code ≡ true
    → IsGood m (start_at (described s) vector)
start_at-IsGood m s none (ok, same, order) code = (ok, same, λ e. ground (arith, order, code))
start_at-IsGood m s (some v) (ok, same, order) code =
    elim (Bool-cases (leb s.code_low v && leb v s.code_high)) [
      | inl inside ↦ rw inside (ok, same, λ e. ground (arith, order, code, inside))
      | inr outside ↦ rw outside (ok, same, λ e. ground (arith, order, code))
    ]

finish-Returns : (m : Memory) (s : Loading) → IsSound m s → Returns m (finish s)
unfolding finish
finish-Returns m s ok = elim (Bool-cases s.have_code) [
  | inr no_code ↦ (failed RomError.no_code s, simp no_code, (ok.0, ok.1, λ none_is. cc))
  | inl code ↦ elim (Bool-cases (s.reset_lo && s.reset_hi)) [
    | inr absent ↦
        (start_at (described s) none, simp (code, absent), start_at-IsGood m s none ok code)
    | inl given ↦
        let (v, reads) = reset_vector-some s.memory ok.0 in
        (
          start_at (described s) (some v),
          simp (code, given, reads),
          start_at-IsGood m s (some v) ok code,
        )
  ]
]

after_round-Returns :
    (m : Memory) (size : ℕ) (loop : File → Loading → Option Reading) (r : Round)
    → ((f : File) (s : Loading) → length f.rest < size → IsSound m s → Returns m (loop f s))
    → RoundIsSound m size r
    → Returns m (after_round loop (some r))
after_round-Returns m size loop (ended s) on sound = finish-Returns m s sound
after_round-Returns m size loop (refused e s) on sound = failed-Returns m e s sound
after_round-Returns m size loop (goes_on f s) on (less, sound) = on f s less sound

-- Fuel above the length of the file is enough.
chunks-Returns :
    (m : Memory) (section_end : Option ℕ) (fuel : ℕ) (f : File) (s : Loading)
    → length f.rest < fuel
    → IsSound m s
    → Returns m (chunks section_end fuel f s)
unfolding chunks
chunks-Returns m section_end zero f s enough ok = absurd (omega arith)
chunks-Returns m section_end (suc fuel) f s enough ok =
    let (r, e, sound) = round-IsSound m section_end f s ok in
    rw e (
      after_round-Returns m (length f.rest) (λ f' s'. chunks section_end fuel f' s') r
        (λ f' s' less. chunks-Returns m section_end fuel f' s' (omega arith)) sound)

read_section-Returns :
    (m : Memory) (len : Option ℕ) (f : File) (s : Loading)
    → IsSound m s
    → Returns m (read_section len f s)
read_section-Returns m none f s ok = failed-Returns m RomError.malformed_group s ok
read_section-Returns m (some len) f s ok =
    chunks-Returns m (some (f.pos + len)) (chunk_fuel f) f s (omega arith) ok

read_sections-Returns :
    (m : Memory) (seeks : Bool) (f : File) (s : Loading)
    → IsSound m s
    → Returns m (read_sections seeks f s)
unfolding read_sections
read_sections-Returns m seeks f s ok = elim (Bool-cases (is_group (read_line line_max f).0)) [
  | inl group ↦
      rw group (
        read_section-Returns m (section_len (read_line line_max f).0) (read_line line_max f).1 s ok)
  | inr ungrouped ↦ elim (Bool-cases seeks) [
    | inl seek ↦ rw (ungrouped, seek) (chunks-Returns m none (chunk_fuel f) f s (omega arith) ok)
    | inr stuck ↦ rw (ungrouped, stuck) (failed-Returns m RomError.seek_failed s ok)
  ]
]

-- In a valid memory readRp6502File returns on every file, whatever its bytes, and leaves a valid
-- memory with the same regions: it ends, no MemWrite leaves a buffer, and no fread is told to
-- store more than the CHUNK_MAX bytes of payload. If it succeeds, the entry is at or before the
-- end, and the end lies below the vectors at $FFFA.
pub read_rp6502_file-IsGood :
    (seeks : Bool) (contents : Option (List ℕ)) (m : Memory)
    → IsValid m
    → (r : Reading) × (read_rp6502_file seeks contents m ≡ some r) × IsGood m r
unfolding read_rp6502_file
read_rp6502_file-IsGood seeks none m ok =
    failed-Returns m RomError.cannot_open (nothing_loaded m) (ok, refl, inl (refl, refl, refl))
read_rp6502_file-IsGood seeks (some bytes) m ok =
    let start : IsSound m (nothing_loaded m) = (ok, refl, inl (refl, refl, refl)) in
    let (line, f) = read_line line_max (opened bytes) in
    elim (Bool-cases (has_shebang line)) [
      | inl magic ↦ rw magic (read_sections-Returns m seeks f (nothing_loaded m) start)
      | inr other ↦ rw other (failed-Returns m RomError.missing_header (nothing_loaded m) start)
    ]
