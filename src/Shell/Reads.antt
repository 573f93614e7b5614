-- ===== src/Shell/Reads.antt =====
-- What the shell of kernel.c reads of the words of its line: tests and numbers.
use apna_os.Prelude.{
  ℕ, zero, suc, ◌+◌, ◌-◌, ◌*◌, ◌&&◌, leb, true-ne-false, ◌≤◌, ◌<◌, ◌≡◌, refl, inl, inr, arith, Bool,
  some, length, ◌==◌, Bytes, Bool-cases, ne→==, eq→==, ◌∙◌, sym, ap, ℕ_discrete,
}
use apna_os.Prelude.Int.{ℤ}
use apna_os.Prelude.Run.{done}
use apna_os.Text.{HasLength}
use apna_os.Text.Compare.{strcmp-eq_zero, strlen_lem}
use apna_os.Text.Tokens.{Tokens}
use apna_os.Text.Words.{Spells-HasLength}
use apna_os.Numbers.{atoi_loop, atoi, wrap, neg, to_int}
use apna_os.Shell.{is_zero, Shell, max_input_length, is_word, number_at, length_at, token_at}
use apna_os.Shell.Line.{IsToken}

-- The string at a word.
pub IsToken-HasLength :
    (t : Tokens) (q : ℕ)
    → IsToken t q
    → (k : ℕ) × ((k < max_input_length) × HasLength (λ i. t.line (q + i)) k)
IsToken-HasLength t q k =
    (length k.word.text, (k.word.short, Spells-HasLength t.line q k.word.text k.word.spells))

-- The tests and conversions of a word end and change nothing.
pub is_word-same :
    (q : ℕ) (w : Bytes) (s : Shell) → IsToken s.tokens q → (b : Bool) × (is_word q w s ≡ done b s)
unfolding is_word
is_word-same q w s k =
    let (n, (short, len)) = IsToken-HasLength s.tokens q k in
    let (r, e, _) = strcmp-eq_zero max_input_length (token_at s q) w n len short in
    (is_zero r, rw e refl)

pub length_at-same : (q : ℕ) (s : Shell) → IsToken s.tokens q → (n : ℕ) × (length_at q s ≡ done n s)
unfolding length_at
length_at-same q s k =
    let (n, (short, len)) = IsToken-HasLength s.tokens q k in
    (n, rw (strlen_lem max_input_length (token_at s q) n len short) refl)

-- `atoi` ends at the end of the string at the latest.
atoi_loop-ends :
    (fuel i num k : ℕ) (s : Bytes)
    → HasLength s k
    → i ≤ k
    → k < i + fuel
    → (n : ℕ) × (atoi_loop fuel s i num ≡ some n)
unfolding atoi_loop
atoi_loop-ends zero i num k s h a b = absurd (omega (arith, a, b))
atoi_loop-ends (suc fuel) i num k s h a b = elim (ℕ_discrete (s i) 0) [
  | yes z ↦ (num, rw (eq→== (s i) 0 z) refl)
  | no nz ↦ elim (Bool-cases (leb (b'0') (s i) && leb (s i) (b'9'))) [
    | inl t ↦
        let next : i + 1 ≤ k = elim (ℕ_discrete i k) [
          | yes e ↦ absurd (nz (ap s e ∙ h.ends))
          | no ne ↦ omega (arith, a, ne)
        ] in
        let (n, e) =
          atoi_loop-ends fuel (i + 1) (wrap (num * 10 + (s i - b'0'))) k s h next
            (omega (arith, b)) in
        (n, rw (ne→== (s i) 0 nz, t) e)
    | inr f ↦ (num, rw (ne→== (s i) 0 nz, f) refl)
  ]
]

atoi-ends : (fuel k : ℕ) (s : Bytes) → HasLength s k → k < fuel → (n : ℤ) × (atoi fuel s ≡ some n)
unfolding atoi
atoi-ends fuel k s h l = elim (Bool-cases (s 0 == b'-')) [
  | inl t ↦
      let some_byte : 1 ≤ k = elim (ℕ_discrete k 0) [
        | yes z ↦ absurd (true-ne-false t (rw (ap s (sym z) ∙ h.ends) refl))
        | no ne ↦ omega (arith, ne)
      ] in
      let (n, e) = atoi_loop-ends fuel 1 0 k s h some_byte (omega (arith, l)) in
      (to_int (neg n), rw (t, e) refl)
  | inr f ↦
      let (n, e) = atoi_loop-ends fuel 0 0 k s h (omega arith) (omega (arith, l)) in
      (to_int n, rw (f, e) refl)
]

pub number_at-same : (q : ℕ) (s : Shell) → IsToken s.tokens q → (n : ℤ) × (number_at q s ≡ done n s)
unfolding number_at
number_at-same q s k =
    let (n, (short, len)) = IsToken-HasLength s.tokens q k in
    let (r, e) = atoi-ends max_input_length n (token_at s q) len short in (r, rw e refl)
