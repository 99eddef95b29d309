-- ===== src/Samples/Programs.antt =====
-- Tests of the command line and the listing, and the theorem on the listing at a concrete program.
use dis.Base.{◌==◌, ◌||◌, ◌≡◌, refl, arith, true, false, some, List, [], ◌∷◌, ◌++◌}
use dis.Base.Text.{codes, hex_in}
use dis.Analyze.{DisAnalysis}
use dis.Cpu.{cpu_r65c02}
use dis.Listing.{Item, unreached, item_text, print_analyzed, print_loop, skip_unreached}
use dis.Listing.Pieces.{Covers}
use dis.Listing.Covers.{print_analyzed-Covers}
use dis.Main.{parse_args, parse_cpu, defaults, run, bad_cpu}
use dis.Samples.{sample_cpu, sample_read}

-- The last path counts, and an option may follow it.
arguments :
    parse_args
      (codes "a.hex" ∷ codes "--cpu" ∷ codes "r65c02" ∷ codes "b.hex" ∷ codes "--linear" ∷ [])
      defaults
    ≡ run (record { model = cpu_r65c02; input_path = some (codes "b.hex"); linear = true })
unfolding parse_args parse_cpu
arguments = refl

missing_model : parse_args (codes "--cpu" ∷ []) defaults ≡ bad_cpu
unfolding parse_args
missing_model = refl

-- Without marks the whole range is one run of unreached bytes.
abbrev unmarked : DisAnalysis
unmarked = record {
  lo = 0x200;
  hi = 0x209;
  flags = λ _. record { instruction = false; function = false; label = false; queued = false };
  callers = λ _. 0;
  work = [];
  work_cap = 0;
  realloc_calls = 0;
  out_of_range = 0;
}

all_unreached :
    print_analyzed (some sample_cpu) sample_read unmarked 0x200 0x209 0x200
    ≡ some (unreached 0x200 0x209 10 ∷ [])
unfolding print_analyzed print_loop skip_unreached
all_unreached = refl

unreached_text :
    item_text (unreached 0x200 0x209 10) ≡ b'\n' ∷ codes "; 0200-0209  10 bytes data" ++ b'\n' ∷ []
unfolding hex_in
unreached_text = refl

-- A marked instruction at 0208, and another at 0201 that 0200 steps over.
abbrev marked : DisAnalysis
marked = record unmarked {
  flags = λ x. record {
    instruction = x == 0x200 || x == 0x201 || x == 0x208;
    function = false;
    label = false;
    queued = false;
  };
}

print_analyzed-Covers_example :
    (items : List Item) × (print_analyzed (some sample_cpu) sample_read marked 0x200 0x209 0x200
      ≡ some items)
    × Covers marked 0x209 0x200 sample_cpu sample_read false 0x200 items
print_analyzed-Covers_example =
    print_analyzed-Covers marked 0x209 0x200 sample_cpu sample_read 0x200 (omega arith)
