-- ===== src/Interrupts.antt =====
-- interrupts/interrupts.c and interrupts/pic.c: the handlers of the hardware's interrupts and the
-- set-up of the two interrupt controllers; and `init_keyboard`. What is written to the ports is a
-- list, the last write first; a value that is read from a port is an argument.
pub mod Dispatch
pub mod Table
mod Tests
use apna_os.Prelude.{
  ℕ, zero, suc, ◌+◌, ◌-◌, ◌*◌, ◌/◌, ◌%◌, ◌^◌, List, [], ◌∷◌, Option, none, some, Array, update, ltb,
  leb, if◌then◌else◌,
}
use apna_os.Prelude.Run.{Run, Cmd, done, fault, out_of_fuel, pure, get, put, guard, ◌>>=◌, ◌>>◌}
use apna_os.Descriptors.{Gates, gate_loop}
use apna_os.Keyboard.{Keyboard, keyboard_handler}

abbrev pub idt_entries : ℕ
idt_entries = 256

-- The state on which the handlers work, the table of handlers, which may be null, and the ports.
pub record Machine (S : Type 0) : Type 0 where
  pub state : S
  pub interrupt_handlers : Array (Option (Cmd S (Unit {0})))
  pub ports : List (ℕ × ℕ)

module _ {S : Type 0} where
  unfoldable pub outb : ℕ → ℕ → Cmd (Machine S) (Unit {0})
  outb port val m = done tt (record m { ports = (port, val) ∷ m.ports })

  unfoldable pub register_interrupt_handler : ℕ → Cmd S (Unit {0}) → Cmd (Machine S) (Unit {0})
  register_interrupt_handler n handler m =
      done tt (record m { interrupt_handlers = update m.interrupt_handlers n (some handler) })

  -- A call of a handler, on its part of the state.
  unfoldable pub call_handler : Machine S → Run S (Unit {0}) → Run (Machine S) (Unit {0})
  call_handler m (done _ s) = done tt (record m { state = s })
  call_handler m fault = fault
  call_handler m out_of_fuel = out_of_fuel

  unfoldable pub run_handler : Option (Cmd S (Unit {0})) → Cmd (Machine S) (Unit {0})
  run_handler none m = done tt m
  run_handler (some handler) m = call_handler m (handler m.state)

  unfoldable pub irq_handler : ℕ → Cmd (Machine S) (Unit {0})
  irq_handler irq = do
    guard (ltb (irq + 32) idt_entries)
    m ← get
    run_handler (m.interrupt_handlers (irq + 32))

  unfoldable pub common_irq_handler : ℕ → Cmd (Machine S) (Unit {0})
  common_irq_handler irq_num =
      let irq : ℕ = irq_num % 2 ^ 8 in
      do irq_handler irq; if leb 8 irq then outb 0xA0 0x20 else pure tt; outb 0x20 0x20

-- The sixteen gates behind those of the exceptions; `stubs` gives the address of `irq0_stub` and so
-- on.
unfoldable pub irq_install : (ℕ → ℕ) → Gates → Gates
irq_install stubs g = gate_loop 16 32 (λ i. stubs (i - 32)) g

-- The writes of `pic_remap`, the first one first; `a1` and `a2` are the masks that it reads.
unfoldable pub pic_remap : ℕ → ℕ → List (ℕ × ℕ)
pic_remap a1 a2 =
    (0x20, 0x11)
    ∷ (0xA0, 0x11)
    ∷ (0x21, 0x20)
    ∷ (0xA0, 0x28)
    ∷ (0x21, 0x04)
    ∷ (0xA0, 0x02)
    ∷ (0x21, 0x01)
    ∷ (0xA0, 0x01)
    ∷ (0x21, a1 - a1 / 2 % 2 * 2)
    ∷ (0xA0, a2)
    ∷ []

-- The keyboard and the scan codes that its port will give.
pub record Console : Type 0 where
  pub keyboard : Keyboard
  pub port : List ℕ

unfoldable pub keyboard_done : List ℕ → Run Keyboard (List ℕ) → Run Console (Unit {0})
keyboard_done codes (done _ kb) = done tt (record { keyboard = kb; port = codes })
keyboard_done codes fault = fault
keyboard_done codes out_of_fuel = out_of_fuel

-- `keyboard_handler` on the scan code that it reads; a port with none left gives 0.
unfoldable pub read_key : List ℕ → Keyboard → Run Console (Unit {0})
read_key [] kb = keyboard_done [] (keyboard_handler 0 kb)
read_key (scancode ∷ codes) kb = keyboard_done codes (keyboard_handler scancode kb)

unfoldable pub console_handler : Cmd Console (Unit {0})
console_handler c = read_key c.port c.keyboard

unfoldable pub init_keyboard : Cmd (Machine Console) (Unit {0})
init_keyboard = register_interrupt_handler 33 console_handler
