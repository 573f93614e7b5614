-- ===== src/Keyboard/Capitals.antt =====
-- What shift and caps lock do to a letter.
use apna_os.Prelude.{
  ℕ, zero, suc, ◌≡◌, refl, arith, ◌&&◌, Bool, true, false, not, List, [], ◌∷◌, leb, of_list,
}
use apna_os.Keyboard.{key_of, shifted, scancode_to_ascii_shift}

abbrev small_letter : ℕ → Bool
small_letter c = leb (b'a') c && leb c (b'z')

abbrev no_small : List ℕ → Bool
no_small [] = true
no_small (x ∷ xs) = not (small_letter x) && no_small xs

of_list-no_small :
    (xs : List ℕ) (i : ℕ) → no_small xs ≡ true → small_letter (of_list 0 xs i) ≡ false
of_list-no_small [] i h = refl
of_list-no_small (x ∷ xs) zero h = ground arith
of_list-no_small (x ∷ xs) (suc i) h = of_list-no_small xs i (ground arith)

shift-no_small : (scancode : ℕ) → small_letter (scancode_to_ascii_shift scancode) ≡ false
shift-no_small scancode = of_list-no_small shifted scancode refl

-- While shift is held caps lock has no effect: a letter is a capital with it as without it.
pub key_of-shift : (scancode : ℕ) → key_of scancode true true ≡ key_of scancode true false
unfolding key_of
key_of-shift scancode = rw (shift-no_small scancode)
