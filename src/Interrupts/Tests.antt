-- ===== src/Interrupts/Tests.antt =====
-- Interrupts on concrete machines.
use apna_os.Prelude.{ℕ, ◌+◌, ◌≤◌, ◌<◌, ◌≡◌, arith, List, [], ◌∷◌, none, length}
use apna_os.Prelude.Run.{Returns, ◌>>◌}
use apna_os.Descriptors.{Gates, idt_install}
use apna_os.Descriptors.Fields.{Gate}
use apna_os.Keyboard.Handler.{blank}
use apna_os.Interrupts.{init_keyboard, irq_install}
use apna_os.Interrupts.Dispatch.{Typed, installed, key_interrupts, key_interrupts-edit}
use apna_os.Interrupts.Table.{irq_install-idt_install}

-- "a", shift, "b", and Enter.
abbrev codes : List ℕ
codes = 0x1E ∷ 0x2A ∷ 0x30 ∷ 0x1C ∷ []

key_interrupts-edit_example :
    Returns
      (λ _ m'. Typed codes blank [] m')
      ((init_keyboard >> key_interrupts (length codes)) (installed (λ n. none) codes))
key_interrupts-edit_example = key_interrupts-edit codes (λ n. none)

abbrev no_gates : Gates
no_gates = record {
  idt = λ k. record { base_low = 0; sel = 0; always0 = 0; flags = 0; base_high = 0 };
  idtp = record { limit = 0; base = 0 };
}

abbrev stubs : ℕ → ℕ
stubs i = 0x101000

irq_install-idt_install_example :
    ((k : ℕ)
      → k < 32
      → Gate 0x100200 0x08 0x8E
          ((irq_install stubs (idt_install 0x100200 0x110000 no_gates)).idt k))
    × ((i : ℕ)
        → i < 16
        → Gate
            (stubs i)
            0x08
            0x8E
            ((irq_install stubs (idt_install 0x100200 0x110000 no_gates)).idt (32 + i)))
    × ((k : ℕ)
        → 48 ≤ k
        → (irq_install stubs (idt_install 0x100200 0x110000 no_gates)).idt k ≡ no_gates.idt k)
irq_install-idt_install_example =
    irq_install-idt_install 0x100200 0x110000 stubs no_gates (omega arith) (λ i. omega arith)
