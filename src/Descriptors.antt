-- ===== src/Descriptors.antt =====
-- keyboard/gdt.c and interrupts/idt.c: the tables of segments and of interrupt gates. The addresses
-- of the tables and of `isr_stub` are parameters; the assembly that loads a table is left out.
pub mod Fields
mod Tests
use apna_os.Prelude.{ℕ, zero, suc, ◌+◌, ◌-◌, ◌*◌, ◌/◌, ◌%◌, ◌^◌, Array, update}

pub record GdtEntry : Type 0 where
  pub limit_low : ℕ
  pub base_low : ℕ
  pub base_middle : ℕ
  pub access : ℕ
  pub granularity : ℕ
  pub base_high : ℕ

-- `struct gdt_ptr`, and `struct idt_ptr`, which is the same.
pub record TablePtr : Type 0 where
  pub limit : ℕ
  pub base : ℕ

pub record Segments : Type 0 where
  pub gdt : Array GdtEntry
  pub gp : TablePtr

-- The low half of `granularity` is set first; or-ing the high half of `gran`, whose low half is
-- masked out, into it is a sum.
unfoldable pub gdt_set_gate : ℕ → ℕ → ℕ → ℕ → ℕ → Segments → Segments
gdt_set_gate num base limit access gran s = record s {
  gdt = update s.gdt num (record {
    base_low = base % 2 ^ 16;
    base_middle = base / 2 ^ 16 % 2 ^ 8;
    base_high = base / 2 ^ 24 % 2 ^ 8;
    limit_low = limit % 2 ^ 16;
    granularity = limit / 2 ^ 16 % 2 ^ 4 + gran / 2 ^ 4 % 2 ^ 4 * 2 ^ 4;
    access = access;
  });
}

-- sizeof(struct gdt_entry) and sizeof(struct idt_entry)
abbrev pub entry_size : ℕ
entry_size = 8

unfoldable pub gdt_install : ℕ → Segments → Segments
gdt_install gdt_address s =
    let s0 : Segments = record s {
      gp = record { limit = entry_size * 3 - 1; base = gdt_address };
    } in
    gdt_set_gate 2 0 0xFFFFFFFF 0x92 0xCF
      (gdt_set_gate 1 0 0xFFFFFFFF 0x9A 0xCF (gdt_set_gate 0 0 0 0 0 s0))

pub record IdtEntry : Type 0 where
  pub base_low : ℕ
  pub sel : ℕ
  pub always0 : ℕ
  pub flags : ℕ
  pub base_high : ℕ

pub record Gates : Type 0 where
  pub idt : Array IdtEntry
  pub idtp : TablePtr

unfoldable pub idt_set_gate : ℕ → ℕ → ℕ → ℕ → Gates → Gates
idt_set_gate num base sel flags g = record g {
  idt = update g.idt num (record {
    base_low = base % 2 ^ 16;
    base_high = base / 2 ^ 16 % 2 ^ 16;
    sel = sel;
    always0 = 0;
    flags = flags;
  });
}

-- `idt_set_gate(i, handler, 0x08, 0x8E)` for `n` gates from `i` on, where the handler of a gate is
-- given by its number.
unfoldable pub gate_loop : ℕ → ℕ → (ℕ → ℕ) → Gates → Gates
gate_loop zero i handler g = g
gate_loop (suc n) i handler g = gate_loop n (i + 1) handler (idt_set_gate i (handler i) 0x08 0x8E g)

unfoldable pub idt_install : ℕ → ℕ → Gates → Gates
idt_install isr_stub idt_address g = record (gate_loop 32 0 (λ i. isr_stub) g) {
  idtp = record { limit = entry_size * 256 - 1; base = idt_address };
}
