-- ===== src/Interrupts/Dispatch.antt =====
-- An interrupt runs its handler, and then the controllers are told that it is over.
use apna_os.Prelude.{
  ℕ, zero, suc, ◌+◌, ◌%◌, ◌^◌, ◌<◌, ◌≡◌, refl, arith, List, [], ◌∷◌, Option, some, leb,
  if◌then◌else◌, lt→ltb, Bool-cases, inl, inr, length, update_self, ap, ◌∙◌, Array,
}
use apna_os.Prelude.Run
use apna_os.Prelude.Run.{Run, Cmd, done, fault, out_of_fuel, Returns, returns, pure, ◌>>◌}
use apna_os.Keyboard.{Keyboard}
use apna_os.Keyboard.Editor.{Editor, press, Shows}
use apna_os.Keyboard.Handler.{keyboard_handler-Shows, press_all, power_on, blank, initial-Shows}
use apna_os.Interrupts.{
  idt_entries, Machine, outb, call_handler, run_handler, irq_handler, common_irq_handler, Console,
  keyboard_done, read_key, console_handler, init_keyboard, register_interrupt_handler,
}

-- The writes that end an interrupt: to the second controller too, if it came through it.
abbrev pub acknowledge : ℕ → List (ℕ × ℕ) → List (ℕ × ℕ)
acknowledge irq ports =
    if leb 8 irq then (0x20, 0x20) ∷ (0xA0, 0x20) ∷ ports else (0x20, 0x20) ∷ ports

-- What an interrupt leaves, `P` being what its handler does.
pub record Handled {S : Type 0} (irq : ℕ) (P : S → Type 0) (m m' : Machine S) : Type 0 where
  pub state : P m'.state
  pub handlers : m'.interrupt_handlers ≡ m.interrupt_handlers
  pub ports : m'.ports ≡ acknowledge irq m.ports

module _ {S : Type 0} where
  call_handler-Returns :
      (m : Machine S) {P : S → Type 0} {r : Run S (Unit {0})}
      → Returns (λ _ s. P s) r
      → Returns
          (λ _ m'.
            P m'.state × (m'.interrupt_handlers ≡ m.interrupt_handlers) × (m'.ports ≡ m.ports))
          (call_handler m r)
  unfolding call_handler
  call_handler-Returns m (returns p) = returns (p, refl, refl)

  -- For one of the 224 interrupts that the table has room for, and a handler that ends in a state
  -- with a property: `common_irq_handler` ends, the state has the property, the table is as before,
  -- and the end of the interrupt is written to the ports, once for each controller that it came
  -- through.
  pub common_irq_handler-Handled :
      (irq_num : ℕ) (handler : Cmd S (Unit {0})) (m : Machine S) {P : S → Type 0}
      → irq_num % 2 ^ 8 + 32 < idt_entries
      → m.interrupt_handlers (irq_num % 2 ^ 8 + 32) ≡ some handler
      → Returns (λ _ s. P s) (handler m.state)
      → Returns (λ _ m'. Handled (irq_num % 2 ^ 8) P m m') (common_irq_handler irq_num m)
  unfolding common_irq_handler irq_handler run_handler outb
  common_irq_handler-Handled irq_num handler m small registered ends =
      let irq : ℕ = irq_num % 2 ^ 8 in
      let ran = call_handler-Returns m ends in
      elim (Bool-cases (leb 8 irq)) [
        | inl t ↦
            rw (lt→ltb (irq + 32) idt_entries small, registered, t)
              (Run.bind ran
                λ _ m' (p, h, o). returns (record { state = p; handlers = h; ports = rw (o, t) }))
        | inr f ↦
            rw (lt→ltb (irq + 32) idt_entries small, registered, f)
              (Run.bind ran
                λ _ m' (p, h, o). returns (record { state = p; handlers = h; ports = rw (o, f) }))
      ]

-- The interrupts of the keyboard, one for each of the scan codes that wait at its port.
unfoldable pub key_interrupts : ℕ → Cmd (Machine Console) (Unit {0})
key_interrupts zero = pure tt
key_interrupts (suc n) = common_irq_handler 1 >> key_interrupts n

-- The editor takes the scan codes, and 0 where none is left.
abbrev pub next_code : List ℕ → ℕ
next_code [] = 0
next_code (scancode ∷ codes) = scancode

abbrev pub codes_left : List ℕ → List ℕ
codes_left [] = []
codes_left (scancode ∷ codes) = codes

done-Shows :
    (codes : List ℕ) {e : Editor} {r : Run Keyboard (List ℕ)}
    → Returns (λ _ kb. Shows e kb) r
    → Returns (λ _ c. Shows e c.keyboard × (c.port ≡ codes)) (keyboard_done codes r)
unfolding keyboard_done
done-Shows codes (returns s) = returns (s, refl)

read_key-Shows :
    (codes : List ℕ) (e : Editor) (kb : Keyboard)
    → Shows e kb
    → Returns
        (λ _ c. Shows (press (next_code codes) e) c.keyboard × (c.port ≡ codes_left codes))
        (read_key codes kb)
unfolding read_key keyboard_done
read_key-Shows [] e kb s = done-Shows [] (keyboard_handler-Shows s 0)
read_key-Shows (scancode ∷ codes) e kb s = done-Shows codes (keyboard_handler-Shows s scancode)

-- What the controllers are told after `n` interrupts of the keyboard.
abbrev pub acknowledged : ℕ → List (ℕ × ℕ) → List (ℕ × ℕ)
acknowledged zero ports = ports
acknowledged (suc n) ports = acknowledged n ((0x20, 0x20) ∷ ports)

-- What the interrupts of the keyboard leave when it gives these scan codes.
pub record Typed (codes : List ℕ) (e : Editor) (told : List (ℕ × ℕ)) (m : Machine Console)
    : Type 0 where
  pub shows : Shows (press_all codes e) m.state.keyboard
  pub read : m.state.port ≡ []
  pub ports : m.ports ≡ acknowledged (length codes) told

-- A machine whose keyboard shows `e` and has these scan codes to give.
record Ready (codes : List ℕ) (e : Editor) (m : Machine Console) : Type 0 where
  shows : Shows e m.state.keyboard
  port : m.state.port ≡ codes
  handler : m.interrupt_handlers 33 ≡ some console_handler

one_interrupt-Handled :
    (scancode : ℕ) (codes : List ℕ) (e : Editor) (m : Machine Console)
    → Ready (scancode ∷ codes) e m
    → Returns
        (λ _ m'. Ready codes (press scancode e) m' × (m'.ports ≡ (0x20, 0x20) ∷ m.ports))
        (common_irq_handler 1 m)
unfolding console_handler
one_interrupt-Handled scancode codes e m r =
    let ends : Returns (λ _ c. Shows (press scancode e) c.keyboard × (c.port ≡ codes))
        (console_handler m.state) =
      rw (r.port) (read_key-Shows (scancode ∷ codes) e m.state.keyboard (r.shows)) in
    Run.mono (common_irq_handler-Handled 1 console_handler m (omega arith) (r.handler) ends)
      λ _ m' h. (
        record {
          shows = h.state.0;
          port = h.state.1;
          handler = ap (λ t. t 33) (h.handlers) ∙ r.handler;
        },
        h.ports,
      )

key_interrupts-Typed :
    (codes : List ℕ) (e : Editor) (m : Machine Console)
    → Ready codes e m
    → Returns (λ _ m'. Typed codes e m.ports m') (key_interrupts (length codes) m)
unfolding key_interrupts
key_interrupts-Typed [] e m r = returns (record { shows = r.shows; read = r.port; ports = refl })
key_interrupts-Typed (scancode ∷ codes) e m r =
    let l : length codes + 1 ≡ suc (length codes) = omega arith in
    rw l (
      Run.bind (one_interrupt-Handled scancode codes e m r) λ _ m' (r', o).
        Run.mono (key_interrupts-Typed codes (press scancode e) m' r') λ _ m'' t. record {
          shows = t.shows;
          read = t.read;
          ports = rw l (t.ports ∙ ap (acknowledged (length codes)) o);
        })

-- The machine when the keyboard is installed and has these scan codes to give.
abbrev pub installed : Array (Option (Cmd Console (Unit {0}))) → List ℕ → Machine Console
installed handlers codes = record {
  state = record { keyboard = power_on; port = codes };
  interrupt_handlers = handlers;
  ports = [];
}

-- After `init_keyboard`, with any other handlers installed, as many interrupts of the keyboard as
-- its port has scan codes to give all end; the keyboard has then done with these codes what the line
-- editor does, the port has none left, and the first controller, and only that one, was told of the
-- end of each interrupt.
pub key_interrupts-edit :
    (codes : List ℕ) (handlers : Array (Option (Cmd Console (Unit {0}))))
    → Returns
        (λ _ m'. Typed codes blank [] m')
        ((init_keyboard >> key_interrupts (length codes)) (installed handlers codes))
unfolding init_keyboard register_interrupt_handler
key_interrupts-edit codes handlers = key_interrupts-Typed codes blank _ (record {
  shows = initial-Shows;
  port = refl;
  handler = update_self handlers 33 (some console_handler);
})
