-- ===== src/Keyboard/Editor.antt =====
-- The line editor that the keyboard's handler implements.
use apna_os.Prelude.{
  ℕ, zero, suc, ◌+◌, ◌%◌, ◌/◌, ◌^◌, ◌≤◌, ◌<◌, ◌≡◌, refl, ◌≢◌, arith, ◌||◌, Bool, true, false, not,
  List, [], ◌∷◌, ltb, ◌==◌, if◌then◌else◌, Bytes, update, update_self, update_ne, ◌∙◌, ne→==, eq→==,
  ℕ_discrete,
}
use apna_os.Text.{HasLength}
use apna_os.Keyboard.{buffer_size, Keyboard, key_of, copy_line}

-- The characters that stand in the line, the last one first; the state of the two keys; and the
-- lines handed over, the last one first.
pub record Editor : Type 0 where
  pub typed : List ℕ
  pub shift : Bool
  pub caps : Bool
  pub entered : List (List ℕ)

abbrev pub count : List ℕ → ℕ
count [] = 0
count (x ∷ xs) = count xs + 1

abbrev pub drop_last : List ℕ → List ℕ
drop_last [] = []
drop_last (x ∷ xs) = xs

-- A line has at most 255 characters; what is typed beyond that is dropped.
unfoldable pub edit : ℕ → Editor → Editor
edit key e =
    if key == 0
    then e
    else if key == 10
    then record e { typed = []; entered = e.typed ∷ e.entered }
    else if key == 8
    then record e { typed = drop_last e.typed }
    else if ltb (count e.typed) 255
    then record e { typed = key ∷ e.typed }
    else e

unfoldable pub press : ℕ → Editor → Editor
press scancode e =
    if scancode == 0x2A || scancode == 0x36
    then record e { shift = true }
    else if scancode == 0xAA || scancode == 0xB6
    then record e { shift = false }
    else if scancode == 0x3A
    then record e { caps = not e.caps }
    else if scancode / 2 ^ 7 % 2 == 0
    then edit (key_of scancode e.shift e.caps) e
    else e

-- The bytes at the start of `b` are the characters of a line, none of them zero.
abbrev pub Holds : Bytes → List ℕ → Type 0
Holds b [] = Unit
Holds b (x ∷ xs) = (b (count xs) ≡ x) × (x ≢ 0) × Holds b xs

-- The line that waits to be read is the last one handed over.
abbrev pub Waits : Bool → Bytes → List (List ℕ) → Type 0
Waits ready line [] = ready ≡ false
Waits ready line (xs ∷ lines) = (ready ≡ true) × HasLength line (count xs) × Holds line xs

pub record Shows (e : Editor) (kb : Keyboard) : Type 0 where
  pub index : kb.buffer_index ≡ count e.typed
  pub short : count e.typed < buffer_size
  pub holds : Holds kb.input_buffer e.typed
  pub shift : kb.shift_pressed ≡ e.shift
  pub caps : kb.caps_lock_on ≡ e.caps
  pub waits : Waits kb.input_ready kb.input_line e.entered

-- A write behind the line does not change it.
pub Holds-update :
    (b : Bytes) (xs : List ℕ) (i x : ℕ) → count xs ≤ i → Holds b xs → Holds (update b i x) xs
Holds-update b [] i x l h = tt
Holds-update b (y ∷ xs) i x l (e, nz, h) = (
  update_ne b i (count xs) x (λ same. omega (arith, same, l)) ∙ e,
  nz,
  Holds-update b xs i x (omega (arith, l)) h,
)

pub Holds-nonzero : (b : Bytes) (xs : List ℕ) (j : ℕ) → j < count xs → Holds b xs → b j ≢ 0
Holds-nonzero b [] j l h = absurd (omega (arith, l))
Holds-nonzero b (x ∷ xs) j l (e, nz, h) = elim (ℕ_discrete j (count xs)) [
  | yes same ↦ rw (same, e) nz
  | no ne ↦ Holds-nonzero b xs j (omega (arith, l, ne)) h
]

-- The same bytes hold the same line.
pub Holds-same :
    (a b : Bytes) (xs : List ℕ) → ((j : ℕ) → j < count xs → b j ≡ a j) → Holds a xs → Holds b xs
Holds-same a b [] same h = tt
Holds-same a b (x ∷ xs) same (e, nz, h) =
    (same (count xs) (omega arith) ∙ e, nz, Holds-same a b xs (λ j l. same j (omega (arith, l))) h)

-- The loop that hands a line of `k` characters over stops at its end.
pub record Handed (i k : ℕ) (buffer line : Bytes) (r : ℕ × Bytes) : Type 0 where
  pub stop : r.0 ≡ k
  pub copied : (j : ℕ) → i ≤ j → j < k → r.1 j ≡ buffer j
  before : (j : ℕ) → j < i → r.1 j ≡ line j

pub copy_line-Handed :
    (n i k : ℕ) (buffer line : Bytes)
    → HasLength buffer k
    → i ≤ k
    → k < i + n
    → Handed i k buffer line (copy_line n i buffer line)
unfolding copy_line
copy_line-Handed zero i k buffer line h a b = absurd (omega (arith, a, b))
copy_line-Handed (suc n) i k buffer line h a b = elim (ℕ_discrete i k) [
  | yes e ↦
      rw (eq→== (buffer i) 0 (rw e (h.ends))) (record {
        stop = e;
        copied = λ j c d. absurd (omega (arith, c, d, e));
        before = λ j c. refl;
      })
  | no ne ↦
      let ih =
        copy_line-Handed n (i + 1) k buffer (update line i (buffer i)) h (omega (arith, a, ne))
          (omega (arith, b)) in
      rw (ne→== (buffer i) 0 (h.before i (omega (arith, a, ne)))) (record {
        stop = ih.stop;
        copied = λ j c d. elim (ℕ_discrete i j) [
          | yes same ↦ rw (← same) (ih.before i (omega arith) ∙ update_self line i (buffer i))
          | no other ↦ ih.copied j (omega (arith, c, other)) d
        ];
        before = λ j c.
            ih.before j (omega (arith, c))
            ∙ update_ne line i j (buffer i) (λ same. omega (arith, same, c));
      })
]
