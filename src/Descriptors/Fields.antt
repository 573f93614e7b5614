-- ===== src/Descriptors/Fields.antt =====
-- The fields of a descriptor, as the processor puts them together, are those that were asked for.
use apna_os.Prelude.{
  ℕ, zero, suc, ◌+◌, ◌*◌, ◌/◌, ◌%◌, ◌^◌, ◌≤◌, ◌<◌, ◌≡◌, refl, ◌≢◌, arith, update_self, update_ne,
  ◌∙◌, ℕ_discrete,
}
use apna_os.Descriptors.{
  GdtEntry, Segments, gdt_set_gate, IdtEntry, Gates, idt_set_gate, gate_loop, idt_install,
}

abbrev pub segment_base : GdtEntry → ℕ
segment_base e = e.base_low + e.base_middle * 2 ^ 16 + e.base_high * 2 ^ 24

abbrev pub segment_limit : GdtEntry → ℕ
segment_limit e = e.limit_low + e.granularity % 2 ^ 4 * 2 ^ 16

-- A segment as it was asked for.
pub record Segment (base limit access gran : ℕ) (e : GdtEntry) : Type 0 where
  pub has_base : segment_base e ≡ base
  pub has_limit : segment_limit e ≡ limit % 2 ^ 20
  pub has_flags : e.granularity / 2 ^ 4 ≡ gran / 2 ^ 4
  pub has_access : e.access ≡ access

-- For a base of 32 bits and flags of 8 the entry that `gdt_set_gate` writes gives the base, the low
-- 20 bits of the limit, the high half of the flags and the access byte back, and the other entries
-- are as before.
pub gdt_set_gate_lem :
    (num base limit access gran : ℕ) (s : Segments)
    → base < 2 ^ 32
    → gran < 2 ^ 8
    → Segment base limit access gran ((gdt_set_gate num base limit access gran s).gdt num)
      × ((k : ℕ) → num ≢ k → (gdt_set_gate num base limit access gran s).gdt k ≡ s.gdt k)
unfolding gdt_set_gate
gdt_set_gate_lem num base limit access gran s a b =
    let e = update_self s.gdt num (record {
      base_low = base % 2 ^ 16;
      base_middle = base / 2 ^ 16 % 2 ^ 8;
      base_high = base / 2 ^ 24 % 2 ^ 8;
      limit_low = limit % 2 ^ 16;
      granularity = limit / 2 ^ 16 % 2 ^ 4 + gran / 2 ^ 4 % 2 ^ 4 * 2 ^ 4;
      access = access;
    }) in
    (
      rw e (record {
        has_base = omega (arith, a);
        has_limit = omega arith;
        has_flags = omega (arith, b);
        has_access = refl;
      }),
      λ k ne. update_ne s.gdt num k _ ne,
    )

abbrev pub gate_base : IdtEntry → ℕ
gate_base e = e.base_low + e.base_high * 2 ^ 16

-- A gate as it was asked for.
pub record Gate (base sel flags : ℕ) (e : IdtEntry) : Type 0 where
  pub has_base : gate_base e ≡ base
  pub has_sel : e.sel ≡ sel
  pub reserved : e.always0 ≡ 0
  pub has_flags : e.flags ≡ flags

idt_set_gate-Gate :
    (num base sel flags : ℕ) (g : Gates)
    → base < 2 ^ 32
    → Gate base sel flags ((idt_set_gate num base sel flags g).idt num)
unfolding idt_set_gate
idt_set_gate-Gate num base sel flags g a =
    let e = update_self g.idt num (record {
      base_low = base % 2 ^ 16;
      base_high = base / 2 ^ 16 % 2 ^ 16;
      sel = sel;
      always0 = 0;
      flags = flags;
    }) in
    rw e (record { has_base = omega (arith, a); has_sel = refl; reserved = refl; has_flags = refl })

idt_set_gate-other :
    (num base sel flags : ℕ) (g : Gates) (k : ℕ)
    → num ≢ k
    → (idt_set_gate num base sel flags g).idt k ≡ g.idt k
unfolding idt_set_gate
idt_set_gate-other num base sel flags g k ne = update_ne g.idt num k _ ne

-- The loop sets its own gates and no other.
pub record Installed (n i : ℕ) (handler : ℕ → ℕ) (g g' : Gates) : Type 0 where
  pub inside : (k : ℕ) → i ≤ k → k < i + n → Gate (handler k) 0x08 0x8E (g'.idt k)
  pub before : (k : ℕ) → k < i → g'.idt k ≡ g.idt k
  pub behind : (k : ℕ) → i + n ≤ k → g'.idt k ≡ g.idt k

pub gate_loop-Installed :
    (n i : ℕ) (handler : ℕ → ℕ) (g : Gates)
    → ((k : ℕ) → handler k < 2 ^ 32)
    → Installed n i handler g (gate_loop n i handler g)
unfolding gate_loop
gate_loop-Installed zero i handler g small = record {
  inside = λ k a b. absurd (omega (arith, a, b));
  before = λ k a. refl;
  behind = λ k a. refl;
}
gate_loop-Installed (suc n) i handler g small =
    let g1 = idt_set_gate i (handler i) 0x08 0x8E g in
    let ih = gate_loop-Installed n (i + 1) handler g1 small in
    let other = idt_set_gate-other i (handler i) 0x08 0x8E g in
    record {
      inside = λ k a b. elim (ℕ_discrete i k) [
        | yes e ↦
            rw (← e, ih.before i (omega arith))
              (idt_set_gate-Gate i (handler i) 0x08 0x8E g (small i))
        | no ne ↦ ih.inside k (omega (arith, a, ne)) (omega (arith, b))
      ];
      before = λ k a. ih.before k (omega (arith, a)) ∙ other k (λ e. omega (arith, e, a));
      behind = λ k a. ih.behind k (omega (arith, a)) ∙ other k (λ e. omega (arith, e, a));
    }

-- For a handler at an address of 32 bits, `idt_install` makes the first 32 gates, those of the
-- processor's exceptions, lead to it through the code segment, and leaves the other gates alone. The
-- limit of the table is that of its 256 entries.
pub idt_install_lem :
    (isr_stub idt_address : ℕ) (g : Gates)
    → isr_stub < 2 ^ 32
    → ((k : ℕ) → k < 32 → Gate isr_stub 0x08 0x8E ((idt_install isr_stub idt_address g).idt k))
      × ((k : ℕ) → 32 ≤ k → (idt_install isr_stub idt_address g).idt k ≡ g.idt k)
      × ((idt_install isr_stub idt_address g).idtp.limit + 1 ≡ 256 * 8)
unfolding idt_install
idt_install_lem isr_stub idt_address g a =
    let r = gate_loop-Installed 32 0 (λ i. isr_stub) g (λ k. a) in
    (λ k l. r.inside k (omega arith) (omega (arith, l)), λ k l. r.behind k (omega (arith, l)), refl)
