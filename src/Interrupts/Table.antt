-- ===== src/Interrupts/Table.antt =====
-- The gates of the exceptions and of the hardware's interrupts together.
use apna_os.Prelude.{ℕ, ◌+◌, ◌-◌, ◌^◌, ◌≤◌, ◌<◌, ◌≡◌, arith, ◌∙◌, subst}
use apna_os.Descriptors.{Gates, idt_install}
use apna_os.Descriptors.Fields.{Gate, gate_loop-Installed, idt_install_lem}
use apna_os.Interrupts.{irq_install}

-- For handlers at addresses of 32 bits: once `idt_install` and then `irq_install` have run, the gates
-- 0 to 31 lead to the handler of the exceptions, gate 32 + i leads to the stub of interrupt i for the
-- sixteen interrupts, and the gates from 48 on are as before.
pub irq_install-idt_install :
    (isr_stub idt_address : ℕ) (stubs : ℕ → ℕ) (g : Gates)
    → isr_stub < 2 ^ 32
    → ((i : ℕ) → stubs i < 2 ^ 32)
    → ((k : ℕ)
        → k < 32
        → Gate isr_stub 0x08 0x8E ((irq_install stubs (idt_install isr_stub idt_address g)).idt k))
      × ((i : ℕ)
          → i < 16
          → Gate
              (stubs i)
              0x08
              0x8E
              ((irq_install stubs (idt_install isr_stub idt_address g)).idt (32 + i)))
      × ((k : ℕ)
          → 48 ≤ k
          → (irq_install stubs (idt_install isr_stub idt_address g)).idt k ≡ g.idt k)
unfolding irq_install
irq_install-idt_install isr_stub idt_address stubs g a small =
    let g1 = idt_install isr_stub idt_address g in
    let first = idt_install_lem isr_stub idt_address g a in
    let r = gate_loop-Installed 16 32 (λ i. stubs (i - 32)) g1 (λ i. small (i - 32)) in
    (
      λ k l. rw (r.before k (omega (arith, l))) (first.0 k l),
      λ i l.
          let e : 32 + i - 32 ≡ i = omega arith in
          subst (λ j. Gate (stubs j) 0x08 0x8E ((irq_install stubs g1).idt (32 + i))) e
            (r.inside (32 + i) (omega arith) (omega (arith, l))),
      λ k l. r.behind k (omega (arith, l)) ∙ first.1 k (omega (arith, l)),
    )
