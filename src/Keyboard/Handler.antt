-- ===== src/Keyboard/Handler.antt =====
-- The handler of the keyboard does to its buffer what the editor does to its line.
use apna_os.Prelude.{
  ℕ, ◌%◌, ◌/◌, ◌^◌, ◌<◌, ◌≡◌, refl, ◌≢◌, arith, ◌||◌, false, not, List, [], ◌∷◌, ltb, ◌==◌,
  if◌then◌else◌, Bytes, update, update_self, update_ne, ◌∙◌, Bool-cases, inl, inr, ne→==, eq→==,
  dec_lt, ℕ_discrete, lt→ltb, ge→ltb, sym, ap, subst,
}
use apna_os.Prelude.Run
use apna_os.Prelude.Run.{Cmd, done, pure, Returns, returns, ◌>>=◌, ◌>>◌}
use apna_os.Text.{HasLength}
use apna_os.Keyboard.{
  buffer_size, Keyboard, key_of, copy_line, enter_line, erase_key, store_key, take_key,
  keyboard_handler,
}
use apna_os.Keyboard.Editor.{
  Editor, count, drop_last, edit, press, Holds, Shows, Holds-update, Holds-nonzero, Holds-same,
  copy_line-Handed,
}

module _ {e : Editor} {kb : Keyboard} (s : Shows e kb) where
  -- The buffer, once the handler has put the end behind the line.
  ended : Bytes
  ended = update kb.input_buffer kb.buffer_index 0

  ended-Holds : Holds ended e.typed
  unfolding ended
  ended-Holds =
      Holds-update kb.input_buffer e.typed kb.buffer_index 0 (omega (arith, s.index)) (s.holds)

  ended-HasLength : HasLength ended (count e.typed)
  unfolding ended
  ended-HasLength = record {
    ends = rw (← s.index) (update_self kb.input_buffer kb.buffer_index 0);
    before = λ j l. Holds-nonzero ended e.typed j l ended-Holds;
  }

  -- `input_line` after the loop and the end that is put behind it.
  line : Bytes
  line = let r = copy_line buffer_size 0 ended kb.input_line in update (r.1) (r.0) 0

  line-same : (j : ℕ) → j < count e.typed → line j ≡ ended j
  unfolding line
  line-same j l =
      let h =
        copy_line-Handed buffer_size 0 (count e.typed) ended kb.input_line ended-HasLength
          (omega arith) (s.short) in
      let r = copy_line buffer_size 0 ended kb.input_line in
      update_ne (r.1) (r.0) j 0 (λ same. omega (arith, same, l, h.stop))
      ∙ h.copied j (omega arith) l

  line-Holds : Holds line e.typed
  line-Holds = Holds-same ended line e.typed line-same ended-Holds

  line-HasLength : HasLength line (count e.typed)
  unfolding line
  line-HasLength =
      let h =
        copy_line-Handed buffer_size 0 (count e.typed) ended kb.input_line ended-HasLength
          (omega arith) (s.short) in
      let r = copy_line buffer_size 0 ended kb.input_line in
      record {
        ends = rw (← h.stop) (update_self (r.1) (r.0) 0);
        before = λ j l. Holds-nonzero line e.typed j l line-Holds;
      }

  enter_line-Shows :
      Returns
        (λ _ kb'. Shows (record e { typed = []; entered = e.typed ∷ e.entered }) kb')
        (enter_line kb)
  unfolding enter_line ended line
  enter_line-Shows =
      let h =
        copy_line-Handed buffer_size 0 (count e.typed) ended kb.input_line ended-HasLength
          (omega arith) (s.short) in
      let r = copy_line buffer_size 0 ended kb.input_line in
      rw
        (
          lt→ltb kb.buffer_index buffer_size (omega (arith, s.index, s.short)),
          lt→ltb (r.0) buffer_size (omega (arith, h.stop, s.short)),
        )
        (returns (record {
          index = refl;
          short = omega arith;
          holds = tt;
          shift = s.shift;
          caps = s.caps;
          waits = (refl, line-HasLength, line-Holds);
        }))

  erase_key-Shows :
      Returns (λ _ kb'. Shows (record e { typed = drop_last e.typed }) kb') (erase_key kb)
  unfolding erase_key
  erase_key-Shows = go e.typed (s.index) (s.short) (s.holds)
    where
      go :
          (typed : List ℕ)
          → kb.buffer_index ≡ count typed
          → count typed < buffer_size
          → Holds kb.input_buffer typed
          → Returns (λ _ kb'. Shows (record e { typed = drop_last typed }) kb') (erase_key kb)
      go [] index short holds = rw (ge→ltb 0 kb.buffer_index (omega (arith, index))) (
          returns (record {
            index = index;
            short = short;
            holds = tt;
            shift = s.shift;
            caps = s.caps;
            waits = s.waits;
          }))
      go (x ∷ xs) index short (_, _, holds) = rw (lt→ltb 0 kb.buffer_index (omega (arith, index))) (
          returns (record {
            index = omega (arith, index);
            short = omega (arith, short);
            holds = holds;
            shift = s.shift;
            caps = s.caps;
            waits = s.waits;
          }))

  store_key-Shows :
      (key : ℕ)
      → key ≢ 0
      → Returns
          (λ _ kb'.
            Shows (if ltb (count e.typed) 255 then record e { typed = key ∷ e.typed } else e) kb')
          (store_key key kb)
  unfolding store_key
  store_key-Shows key nz = elim (dec_lt (count e.typed) 255) [
    | yes a ↦
        rw (lt→ltb kb.buffer_index 255 (omega (arith, s.index, a)), lt→ltb (count e.typed) 255 a)
          (returns (record {
            index = omega (arith, s.index);
            short = omega (arith, a);
            holds = (
              rw (← s.index) (update_self kb.input_buffer kb.buffer_index key),
              nz,
              Holds-update kb.input_buffer e.typed kb.buffer_index key (omega (arith, s.index))
                  (s.holds),
            );
            shift = s.shift;
            caps = s.caps;
            waits = s.waits;
          }))
    | no a ↦
        rw
          (
            ge→ltb kb.buffer_index 255 (omega (arith, s.index, a)),
            ge→ltb (count e.typed) 255 (omega (arith, a)),
          )
          (returns s)
  ]

  take_key-Shows : (key : ℕ) → Returns (λ _ kb'. Shows (edit key e) kb') (take_key key kb)
  unfolding take_key edit
  take_key-Shows key = elim (ℕ_discrete key 0) [
    | yes a ↦ rw (eq→== key 0 a) (returns s)
    | no a ↦ elim (ℕ_discrete key 10) [
      | yes b ↦ rw (ne→== key 0 a, eq→== key 10 b) enter_line-Shows
      | no b ↦ elim (ℕ_discrete key 8) [
        | yes c ↦ rw (ne→== key 0 a, ne→== key 10 b, eq→== key 8 c) erase_key-Shows
        | no c ↦ rw (ne→== key 0 a, ne→== key 10 b, ne→== key 8 c) (store_key-Shows key a)
      ]
    ]
  ]

  pub keyboard_handler-Shows :
      (scancode : ℕ)
      → Returns (λ _ kb'. Shows (press scancode e) kb') (keyboard_handler scancode kb)
  unfolding keyboard_handler press
  keyboard_handler-Shows scancode = elim (Bool-cases (scancode == 0x2A || scancode == 0x36)) [
    | inl a ↦ rw a (
        returns (record {
          index = s.index;
          short = s.short;
          holds = s.holds;
          shift = refl;
          caps = s.caps;
          waits = s.waits;
        }))
    | inr a ↦ elim (Bool-cases (scancode == 0xAA || scancode == 0xB6)) [
      | inl b ↦
          rw (a, b)
            (returns (record {
              index = s.index;
              short = s.short;
              holds = s.holds;
              shift = refl;
              caps = s.caps;
              waits = s.waits;
            }))
      | inr b ↦ elim (Bool-cases (scancode == 0x3A)) [
        | inl c ↦
            rw (a, b, c)
              (returns (record {
                index = s.index;
                short = s.short;
                holds = s.holds;
                shift = s.shift;
                caps = ap not (s.caps);
                waits = s.waits;
              }))
        | inr c ↦ elim (Bool-cases (scancode / 2 ^ 7 % 2 == 0)) [
          | inl d ↦
              let shift = s.shift in
              let caps = s.caps in
              let same : key_of scancode e.shift e.caps
                  ≡ key_of scancode kb.shift_pressed kb.caps_lock_on =
                cc in
              rw (a, b, c, d)
                (subst
                  (λ key.
                    Returns (λ _ kb'. Shows (edit key e) kb')
                      (take_key (key_of scancode kb.shift_pressed kb.caps_lock_on) kb))
                  (sym same) (take_key-Shows (key_of scancode kb.shift_pressed kb.caps_lock_on)))
          | inr d ↦ rw (a, b, c, d) (returns s)
        ]
      ]
    ]
  ]

-- The interrupts of a sequence of scan codes.
unfoldable pub keys : List ℕ → Cmd Keyboard (Unit {0})
keys [] = pure tt
keys (scancode ∷ codes) = keyboard_handler scancode >> keys codes

abbrev pub press_all : List ℕ → Editor → Editor
press_all [] e = e
press_all (scancode ∷ codes) e = press_all codes (press scancode e)

keys-Shows :
    (codes : List ℕ) {e : Editor} {kb : Keyboard}
    → Shows e kb
    → Returns (λ _ kb'. Shows (press_all codes e) kb') (keys codes kb)
unfolding keys
keys-Shows [] s = returns s
keys-Shows (scancode ∷ codes) s =
    Run.bind (keyboard_handler-Shows s scancode) λ _ kb' s'. keys-Shows codes s'

abbrev pub power_on : Keyboard
power_on = record {
  input_buffer = λ p. 0;
  input_ready = false;
  input_line = λ p. 0;
  buffer_index = 0;
  shift_pressed = false;
  caps_lock_on = false;
}

abbrev pub blank : Editor
blank = record { typed = []; shift = false; caps = false; entered = [] }

pub initial-Shows : Shows blank power_on
initial-Shows = record {
  index = refl;
  short = omega arith;
  holds = tt;
  shift = refl;
  caps = refl;
  waits = refl;
}

-- From the keyboard's first state on, the handler takes any sequence of scan codes to its end,
-- inside the bounds of its buffers, and does what a line editor does to a list of characters: shift
-- and caps lock are as there, `input_buffer` holds the characters of the editor's line, of which
-- there are at most 255, and `input_line` is the string of the last line that was handed over.
pub keys-edit :
    (codes : List ℕ) → Returns (λ _ kb. Shows (press_all codes blank) kb) (keys codes power_on)
keys-edit codes = keys-Shows codes initial-Shows
