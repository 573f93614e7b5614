-- ===== src/Descriptors/Tests.antt =====
-- The tables on concrete entries.
use apna_os.Prelude.{ℕ, ◌≡◌, ◌≢◌, arith}
use apna_os.Descriptors.{Segments, gdt_set_gate}
use apna_os.Descriptors.Fields.{Segment, gdt_set_gate_lem}

abbrev no_segments : Segments
no_segments = record {
  gdt = λ k. record {
    limit_low = 0;
    base_low = 0;
    base_middle = 0;
    access = 0;
    granularity = 0;
    base_high = 0;
  };
  gp = record { limit = 0; base = 0 };
}

gdt_set_gate_lem_example :
    Segment 0x12345678 0xFFFFFFFF 0x9A 0xCF
      ((gdt_set_gate 1 0x12345678 0xFFFFFFFF 0x9A 0xCF no_segments).gdt 1)
    × ((k : ℕ)
        → 1 ≢ k
        → (gdt_set_gate 1 0x12345678 0xFFFFFFFF 0x9A 0xCF no_segments).gdt k ≡ no_segments.gdt k)
gdt_set_gate_lem_example =
    gdt_set_gate_lem 1 0x12345678 0xFFFFFFFF 0x9A 0xCF no_segments (omega arith) (omega arith)
