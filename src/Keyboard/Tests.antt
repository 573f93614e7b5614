-- ===== src/Keyboard/Tests.antt =====
-- The keyboard on concrete scan codes.
use apna_os.Prelude.{ℕ, List, [], ◌∷◌}
use apna_os.Prelude.Run.{Returns}
use apna_os.Keyboard.Editor.{Shows}
use apna_os.Keyboard.Handler.{keys, press_all, power_on, blank, keys-edit}

-- "aB", a key that is erased again, and Enter.
abbrev codes : List ℕ
codes = 0x1E ∷ 0x2A ∷ 0x30 ∷ 0xAA ∷ 0x10 ∷ 0x0E ∷ 0x1C ∷ []

keys-edit_example : Returns (λ _ kb. Shows (press_all codes blank) kb) (keys codes power_on)
keys-edit_example = keys-edit codes
