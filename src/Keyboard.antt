-- ===== src/Keyboard.antt =====
-- keyboard/keyboard.c: the interrupt handler of the keyboard, which edits a line of input. A call
-- gives the text that it prints.
pub mod Editor
pub mod Handler
pub mod Capitals
mod Tests
use apna_os.Prelude.{
  ℕ, zero, suc, ◌+◌, ◌-◌, ◌/◌, ◌%◌, ◌^◌, ◌&&◌, ◌||◌, Bool, true, false, not, List, [], ◌∷◌, ltb,
  leb, ◌==◌, if◌then◌else◌, Bytes, update, of_list,
}
use apna_os.Prelude.Run.{Cmd, pure, get, put, guard, ◌>>=◌, ◌>>◌}

abbrev pub buffer_size : ℕ
buffer_size = 256

abbrev pub scancode_to_ascii : Bytes
scancode_to_ascii = of_list 0 (
    0 ∷ 27 ∷ b'1' ∷ b'2' ∷ b'3' ∷ b'4' ∷ b'5' ∷ b'6' ∷ b'7' ∷ b'8' ∷ b'9' ∷ b'0' ∷ b'-' ∷ b'=' ∷ 8
    ∷ 9 ∷ b'q' ∷ b'w' ∷ b'e' ∷ b'r' ∷ b't' ∷ b'y' ∷ b'u' ∷ b'i' ∷ b'o' ∷ b'p' ∷ b'[' ∷ b']' ∷ 10 ∷ 0
    ∷ b'a' ∷ b's' ∷ b'd' ∷ b'f' ∷ b'g' ∷ b'h' ∷ b'j' ∷ b'k' ∷ b'l' ∷ b';' ∷ 39 ∷ b'`' ∷ 0 ∷ 92
    ∷ b'z' ∷ b'x' ∷ b'c' ∷ b'v' ∷ b'b' ∷ b'n' ∷ b'm' ∷ b',' ∷ b'.' ∷ b'/' ∷ 0 ∷ b'*' ∷ 0 ∷ b' '
    ∷ [])

-- The places of the second table that are written out; the rest of its 128 are 0.
abbrev pub shifted : List ℕ
shifted =
    0 ∷ 27 ∷ b'!' ∷ b'@' ∷ b'#' ∷ b'$' ∷ b'%' ∷ b'^' ∷ b'&' ∷ b'*' ∷ b'(' ∷ b')' ∷ b'_' ∷ b'+' ∷ 8
    ∷ 9 ∷ b'Q' ∷ b'W' ∷ b'E' ∷ b'R' ∷ b'T' ∷ b'Y' ∷ b'U' ∷ b'I' ∷ b'O' ∷ b'P' ∷ b'{' ∷ b'}' ∷ 10 ∷ 0
    ∷ b'A' ∷ b'S' ∷ b'D' ∷ b'F' ∷ b'G' ∷ b'H' ∷ b'J' ∷ b'K' ∷ b'L' ∷ b':' ∷ 34 ∷ b'~' ∷ 0 ∷ b'|'
    ∷ b'Z' ∷ b'X' ∷ b'C' ∷ b'V' ∷ b'B' ∷ b'N' ∷ b'M' ∷ b'<' ∷ b'>' ∷ b'?' ∷ 0 ∷ b'*' ∷ 0 ∷ b' ' ∷ []

abbrev pub scancode_to_ascii_shift : Bytes
scancode_to_ascii_shift = of_list 0 shifted

-- The statics of the file. `shift_pressed`, `caps_lock_on` and `input_ready` are 0 or 1 in the code.
pub record Keyboard : Type 0 where
  pub input_buffer : Bytes
  pub input_ready : Bool
  pub input_line : Bytes
  pub buffer_index : ℕ
  pub shift_pressed : Bool
  pub caps_lock_on : Bool

abbrev differ : Bool → Bool → Bool
differ a b = if a then not b else b

-- The character of a key that goes down, 0 for none.
unfoldable pub key_of : ℕ → Bool → Bool → ℕ
key_of scancode shift caps =
    let key : ℕ = if shift then scancode_to_ascii_shift scancode else scancode_to_ascii scancode in
    if (leb (b'a') key && leb key (b'z')) && differ caps shift then key - 32 else key

-- while (input_buffer[i] != '\0' && i < BUFFER_SIZE) ..., with `n` rounds left: where it stops, and
-- `input_line` then.
unfoldable pub copy_line : ℕ → ℕ → Bytes → Bytes → ℕ × Bytes
copy_line zero i buffer line = (i, line)
copy_line (suc n) i buffer line =
    let rest = copy_line n (i + 1) buffer (update line i (buffer i)) in
    if buffer i == 0 then (i, line) else rest

-- The key '\n': the line is handed over.
unfoldable pub enter_line : Cmd Keyboard (List ℕ)
enter_line = do
  kb ← get
  guard (ltb kb.buffer_index buffer_size)
  let buffer : Bytes = update kb.input_buffer kb.buffer_index 0
  let (i, line) = copy_line buffer_size 0 buffer kb.input_line
  guard (ltb i buffer_size)
  put (record kb {
    input_buffer = buffer;
    input_line = update line i 0;
    input_ready = true;
    buffer_index = 0;
  })
  pure (10 ∷ [])

unfoldable pub erase_key : Cmd Keyboard (List ℕ)
erase_key = do
  kb ← get
  if ltb 0 kb.buffer_index
      then (do put (record kb { buffer_index = kb.buffer_index - 1 }); pure (8 ∷ 32 ∷ 8 ∷ []))
      else pure []

unfoldable pub store_key : ℕ → Cmd Keyboard (List ℕ)
store_key key = do
  kb ← get
  if ltb kb.buffer_index (buffer_size - 1)
      then (do
        put (record kb {
          input_buffer = update kb.input_buffer kb.buffer_index key;
          buffer_index = kb.buffer_index + 1;
        })
        pure (key ∷ []))
      else pure []

unfoldable pub take_key : ℕ → Cmd Keyboard (List ℕ)
take_key key =
    if key == 0
    then pure []
    else if key == 10
    then enter_line
    else if key == 8
    then erase_key
    else store_key key

-- `scancode` is what the port gives, a byte.
unfoldable pub keyboard_handler : ℕ → Cmd Keyboard (List ℕ)
keyboard_handler scancode = do
  kb ← get
  if scancode == 0x2A || scancode == 0x36
      then (do put (record kb { shift_pressed = true }); pure [])
      else if scancode == 0xAA || scancode == 0xB6
      then (do put (record kb { shift_pressed = false }); pure [])
      else if scancode == 0x3A
      then (do put (record kb { caps_lock_on = not kb.caps_lock_on }); pure [])
      else if scancode / 2 ^ 7 % 2 == 0
      then take_key (key_of scancode kb.shift_pressed kb.caps_lock_on)
      else pure []
