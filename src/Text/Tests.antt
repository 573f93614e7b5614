-- ===== src/Text/Tests.antt =====
-- The theorems on strings at small inputs.
use apna_os.Prelude.{
  ℕ, ◌+◌, ◌≤◌, ◌<◌, ◌≡◌, refl, ◌≢◌, zero, suc, ◌↔◌, arith, [], ◌∷◌, some, of_list, none, ltb,
  if◌then◌else◌, Bytes,
}
use apna_os.Prelude.Int.{ℤ, pos}
use apna_os.Text.{HasLength, strcmp, strncmp, strncpy, strncpy_extent, size_max}
use apna_os.Prelude.Run.{Returns}
use apna_os.Text.Tokens.{Tokens, strtok}
use apna_os.Text.Words.{Taken, drop_delims, strtok-Taken}
use apna_os.Text.Copy.{strncpy-pads, strncpy-overruns}
use apna_os.Text.Compare.{SameName, strncmp-SameName, strcmp-eq_zero}

abbrev word : Bytes
word = of_list 0 (b'l' ∷ b's' ∷ [])

abbrev other : Bytes
other = of_list 0 (b'l' ∷ b'x' ∷ [])

-- Memory with no zero in it.
abbrev ones : Bytes
ones = λ i. 1

word-HasLength : HasLength word 2
word-HasLength = record { ends = refl; before = word_before }
  where
    word_before : (j : ℕ) → j < 2 → word j ≢ 0
    word_before zero l = ground arith
    word_before (suc zero) l = ground arith
    word_before (suc (suc j)) l = absurd (omega arith)

strcmp-eq_zero_example :
    (r : ℤ) × (strcmp 5 word other 0 ≡ some r)
    × ((r ≡ pos 0) ↔ ((j : ℕ) → j ≤ 2 → word j ≡ other j))
strcmp-eq_zero_example = strcmp-eq_zero 5 word other 2 word-HasLength (omega arith)

strncmp-SameName_example : (strncmp word other 3 ≡ pos 0) ↔ SameName 3 word other
strncmp-SameName_example = strncmp-SameName word other 3

strncpy-pads_example :
    (strncpy_extent ones word 4 ≡ 4)
    × ((p : ℕ) → strncpy ones word 4 p ≡ (if ltb p 2 then word p else if ltb p 4 then 0 else 1))
strncpy-pads_example = strncpy-pads ones word 4 2 word-HasLength (omega arith)

strncpy-overruns_example :
    (strncpy_extent word ones 2 ≡ 2 + size_max)
    × ((p : ℕ) → 2 ≤ p → p < 2 + size_max → strncpy word ones 2 p ≡ 0)
strncpy-overruns_example = strncpy-overruns word ones 2 (λ j l. ground arith)

abbrev blank_delim : Bytes
blank_delim = of_list 0 (32 ∷ [])

-- " ls a"
abbrev two_words : Tokens
two_words = record { line = of_list 0 (32 ∷ b'l' ∷ b's' ∷ 32 ∷ b'a' ∷ []); static_str = some 0 }

strtok-Taken_example :
    Returns
      (Taken
        (32 ∷ [])
        2
        blank_delim
        (refl, ((λ e. omega (arith, e)), refl))
        (omega arith)
        0
        two_words.line
        (b'l' ∷ b's' ∷ 32 ∷ b'a' ∷ []))
      (strtok 6 2 none blank_delim two_words)
unfolding drop_delims
strtok-Taken_example =
    strtok-Taken (32 ∷ []) 2 blank_delim (refl, ((λ e. omega (arith, e)), refl)) (omega arith) 6 0
      none (32 ∷ b'l' ∷ b's' ∷ 32 ∷ b'a' ∷ []) two_words refl
      (
        refl,
        (
          (λ e. omega (arith, e)),
          (
            refl,
            (
              (λ e. omega (arith, e)),
              (
                refl,
                (
                  (λ e. omega (arith, e)),
                  (refl, ((λ e. omega (arith, e)), (refl, ((λ e. omega (arith, e)), refl)))),
                ),
              ),
            ),
          ),
        ),
      )
      (omega arith)
