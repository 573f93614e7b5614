-- ===== src/Text/Words.antt =====
-- `strtok` takes the words of a line one after the other.
use apna_os.Prelude.{
  ℕ, zero, suc, ◌+◌, ◌-◌, ◌≤◌, ◌<◌, ◌≡◌, refl, ◌≢◌, ◌⊎◌, inl, inr, arith, Bool, true, false, Option,
  none, some, List, [], ◌∷◌, length, ◌==◌, if◌then◌else◌, Bytes, update, update_self, update_ne,
  Bool-cases, ℕ_discrete, ne→==, eq→==, ◌∙◌, sym, ap,
}
use apna_os.Prelude.Run.{Returns, returns}
use apna_os.Text.{HasLength, strchr_loop}
use apna_os.Text.Tokens.{
  Tokens, is_some, in_delim, skip_loop, word_loop, end_token, take_token, start, tokens_from,
  strtok,
}

-- From `p` on the memory holds the string `xs`.
abbrev pub Spells : Bytes → ℕ → List ℕ → Type 0
Spells s p [] = s p ≡ 0
Spells s p (x ∷ xs) = (s p ≡ x) × ((x ≢ 0) × Spells s (p + 1) xs)

abbrev pub elem : ℕ → List ℕ → Bool
elem c [] = false
elem c (d ∷ ds) = if d == c then true else elem c ds

-- A text without the delimiters in front, its first word, and what follows the delimiter behind it.
unfoldable pub drop_delims : List ℕ → List ℕ → List ℕ
drop_delims ds [] = []
drop_delims ds (x ∷ xs) = let rest = drop_delims ds xs in if elem x ds then rest else x ∷ xs

unfoldable pub first_word : List ℕ → List ℕ → List ℕ
first_word ds [] = []
first_word ds (x ∷ xs) = let rest = first_word ds xs in if elem x ds then [] else x ∷ rest

unfoldable pub after_word : List ℕ → List ℕ → List ℕ
after_word ds [] = []
after_word ds (x ∷ xs) = let rest = after_word ds xs in if elem x ds then xs else rest

Spells-frame :
    (s s' : Bytes) (p : ℕ) (xs : List ℕ)
    → ((j : ℕ) → p ≤ j → s' j ≡ s j)
    → Spells s p xs
    → Spells s' p xs
Spells-frame s s' p [] same z = same p (omega arith) ∙ z
Spells-frame s s' p (x ∷ xs) same (e, (nz, r)) = (
  same p (omega arith) ∙ e,
  (nz, Spells-frame s s' (p + 1) xs (λ j l. same j (omega (arith, l))) r),
)

strchr_loop-elem :
    (ds : List ℕ) (m : ℕ) (delim : Bytes) (i c : ℕ)
    → Spells delim i ds
    → length ds < m
    → is_some (strchr_loop m delim c i) ≡ elem c ds
unfolding strchr_loop
strchr_loop-elem ds zero delim i c s l = absurd (omega (arith, l))
strchr_loop-elem [] (suc m) delim i c s l = rw (eq→== (delim i) 0 s) refl
strchr_loop-elem (d ∷ ds) (suc m) delim i c (e, (nz, s)) l = elim (Bool-cases (d == c)) [
  | inl t ↦ rw (e, ne→== d 0 nz, t) refl
  | inr f ↦ rw (e, ne→== d 0 nz, f) (strchr_loop-elem ds m delim (i + 1) c s (omega (arith, l)))
]

module _ (ds : List ℕ) (m : ℕ) (delim : Bytes) (spells : Spells delim 0 ds)
    (enough : length ds < m) where
  in_delim-elem : (c : ℕ) → in_delim m delim c ≡ elem c ds
  unfolding in_delim
  in_delim-elem c = strchr_loop-elem ds m delim 0 c spells enough

  -- Where the first loop stops.
  skip_loop-drop :
      (fuel p : ℕ) (line : Bytes) (xs : List ℕ)
      → Spells line p xs
      → length xs < fuel
      → (q : ℕ) × ((skip_loop fuel m delim line p ≡ some q)
          × ((p ≤ q) × Spells line q (drop_delims ds xs)))
  unfolding skip_loop drop_delims
  skip_loop-drop zero p line xs s l = absurd (omega (arith, l))
  skip_loop-drop (suc fuel) p line [] s l = (p, (rw (eq→== (line p) 0 s) refl, (omega arith, s)))
  skip_loop-drop (suc fuel) p line (x ∷ xs) (e, (nz, s)) l =
      let b = in_delim-elem x in
      elim (Bool-cases (elem x ds)) [
        | inl t ↦
            let (q, (stop, (le, rest))) =
              skip_loop-drop fuel (p + 1) line xs s (omega (arith, l)) in
            (q, (rw (e, ne→== x 0 nz, b, t) stop, (omega (arith, le), rw t rest)))
        | inr f ↦ (p, (rw (e, ne→== x 0 nz, b, f) refl, (omega arith, rw f (e, (nz, s)))))
      ]

  -- Where the second loop stops, what stands there, and what is left.
  record Word (line : Bytes) (p q : ℕ) (xs : List ℕ) : Type 0 where
    stop : q ≡ p + length (first_word ds xs)
    word :
        (line' : Bytes)
        → ((j : ℕ) → j < q → line' j ≡ line j)
        → line' q ≡ 0
        → Spells line' p (first_word ds xs)
    rest :
        ((line q ≡ 0) × (after_word ds xs ≡ []))
        ⊎ ((line q ≢ 0) × Spells line (q + 1) (after_word ds xs))

  word_loop-Word :
      (fuel p : ℕ) (line : Bytes) (xs : List ℕ)
      → Spells line p xs
      → length xs < fuel
      → (q : ℕ) × ((word_loop fuel m delim line p ≡ some q) × Word line p q xs)
  unfolding word_loop first_word after_word
  word_loop-Word zero p line xs s l = absurd (omega (arith, l))
  word_loop-Word (suc fuel) p line [] s l = (
    p,
    (
      rw (eq→== (line p) 0 s) refl,
      record { stop = omega arith; word = λ line' same z. z; rest = inl (s, refl) },
    ),
  )
  word_loop-Word (suc fuel) p line (x ∷ xs) (e, (nz, s)) l =
      let b = in_delim-elem x in
      elim (Bool-cases (elem x ds)) [
        | inl t ↦ (
          p,
          (
            rw (e, ne→== x 0 nz, b, t) refl,
            record {
              stop = rw t (omega arith);
              word = λ line' same z. rw t z;
              rest = inr ((λ z. nz (sym e ∙ z)), rw t s);
            },
          ),
        )
        | inr f ↦
            let (q, (stop, w)) = word_loop-Word fuel (p + 1) line xs s (omega (arith, l)) in
            let here = w.stop in
            (
              q,
              (
                rw (e, ne→== x 0 nz, b, f) stop,
                record {
                  stop = rw f (omega (arith, here));
                  word = λ line' same z.
                      rw f (same p (omega (arith, here)) ∙ e, (nz, w.word line' same z));
                  rest = rw f (w.rest);
                },
              ),
            )
      ]

  -- What `strtok` gives of the text at its static pointer, without the delimiters in front.
  pub data Taken (p : ℕ) (line : Bytes) : List ℕ → Option ℕ → Tokens → Type 0 where
    no_token :
        {q : ℕ}
        → p ≤ q
        → Spells line q []
        → Taken p line [] none (record { line = line; static_str = some q })
    token :
        {x q q' : ℕ} {xs : List ℕ} {line' : Bytes}
        → p ≤ q
        → Spells line' q (first_word ds (x ∷ xs))
        → q + length (first_word ds (x ∷ xs)) ≤ q'
        → Spells line' q' (after_word ds (x ∷ xs))
        → ((j : ℕ) → (j < p) ⊎ (line j ≡ 0) → line' j ≡ line j)
        → Taken p line (x ∷ xs) (some q) (record { line = line'; static_str = some q' })

  end_token-Taken :
      (p q x : ℕ) (xs : List ℕ) (t : Tokens) (low : ℕ)
      → low ≤ p
      → Word t.line p q (x ∷ xs)
      → Returns (Taken low t.line (x ∷ xs)) (end_token p (some q) t)
  unfolding end_token
  end_token-Taken p q x xs t low le w =
      let stop = w.stop in
      elim w.rest [
        | inl (z, e) ↦ rw (eq→== (t.line q) 0 z) (
            returns (
              token le (w.word t.line (λ j l. refl) z) (omega (arith, stop)) (rw e z)
                (λ j o. refl)))
        | inr (nz, s) ↦
            let line' = update t.line q 0 in
            let other = λ (j : ℕ) (ne : q ≢ j). update_ne t.line q j 0 ne in
            rw (ne→== (t.line q) 0 nz) (
              returns (
                token le
                  (w.word line' (λ j l. other j (λ e. omega (arith, e, l)))
                    (update_self t.line q 0))
                  (omega (arith, stop))
                  (Spells-frame t.line line' (q + 1) (after_word ds (x ∷ xs))
                    (λ j l. other j (λ e. omega (arith, e, l))) s)
                  λ j o. other j (apart j stop o nz)))
      ]
    where
      apart :
          (j : ℕ)
          → q ≡ p + length (first_word ds (x ∷ xs))
          → (j < low) ⊎ (t.line j ≡ 0)
          → t.line q ≢ 0
          → q ≢ j
      apart j stop (inl l) nz e = omega (arith, le, stop, l, e)
      apart j stop (inr z) nz e = nz (ap t.line e ∙ z)

  take_token-Taken :
      (fuel p low : ℕ) (xs : List ℕ) (t : Tokens)
      → low ≤ p
      → Spells t.line p xs
      → length xs < fuel
      → Returns (Taken low t.line xs) (take_token fuel m delim (some p) t)
  unfolding take_token
  take_token-Taken fuel p low [] t le s l = rw (eq→== (t.line p) 0 s) (returns (no_token le s))
  take_token-Taken fuel p low (x ∷ xs) t le (e, (nz, s)) l =
      let (q, (stop, w)) = word_loop-Word fuel p t.line (x ∷ xs) (e, (nz, s)) l in
      rw (e, ne→== x 0 nz, stop) (end_token-Taken p q x xs t low le w)

  pub length-first_word : (xs : List ℕ) → length (first_word ds xs) ≤ length xs
  unfolding first_word
  length-first_word [] = omega arith
  length-first_word (x ∷ xs) = elim (Bool-cases (elem x ds)) [
    | inl t ↦ rw t (omega arith)
    | inr f ↦ rw f (omega (arith, length-first_word xs))
  ]

  pub length-after_word : (xs : List ℕ) → length (after_word ds xs) ≤ length xs
  unfolding after_word
  length-after_word [] = omega arith
  length-after_word (x ∷ xs) = elim (Bool-cases (elem x ds)) [
    | inl t ↦ rw t (omega arith)
    | inr f ↦ rw f (omega (arith, length-after_word xs))
  ]

  pub length-drop_delims : (xs : List ℕ) → length (drop_delims ds xs) ≤ length xs
  unfolding drop_delims
  length-drop_delims [] = omega arith
  length-drop_delims (x ∷ xs) = elim (Bool-cases (elem x ds)) [
    | inl t ↦ rw t (omega (arith, length-drop_delims xs))
    | inr f ↦ rw f (omega arith)
  ]

  -- `strtok` at a text, which is the argument or, for the null pointer, what the last call left, with
  -- more rounds than the text has bytes and than there are delimiters, ends. If the text has nothing
  -- but delimiters it returns the null pointer and writes nothing; else it returns a pointer into the
  -- text, at which the first word stands now, and keeps the text behind the one delimiter that follows
  -- it for the next call. No byte in front of the text changes, and no zero.
  pub strtok-Taken :
      (fuel p : ℕ) (str : Option ℕ) (xs : List ℕ) (t : Tokens)
      → start str t.static_str ≡ some p
      → Spells t.line p xs
      → length xs < fuel
      → Returns (Taken p t.line (drop_delims ds xs)) (strtok fuel m str delim t)
  unfolding strtok tokens_from
  strtok-Taken fuel p str xs t e s l =
      let (q, (stop, (le, rest))) = skip_loop-drop fuel p t.line xs s l in
      let few = length-drop_delims xs in
      rw (e, stop) (take_token-Taken fuel q p (drop_delims ds xs) t le rest (omega (arith, l, few)))

-- A word that was taken stays as the next ones are taken.
pub Spells-kept :
    (s s' : Bytes) (q p : ℕ) (xs : List ℕ)
    → q + length xs ≤ p
    → ((j : ℕ) → (j < p) ⊎ (s j ≡ 0) → s' j ≡ s j)
    → Spells s q xs
    → Spells s' q xs
Spells-kept s s' q p [] l same z = same q (inr z) ∙ z
Spells-kept s s' q p (x ∷ xs) l same (e, (nz, r)) = (
  same q (inl (omega (arith, l))) ∙ e,
  (nz, Spells-kept s s' (q + 1) p xs (omega (arith, l)) same r),
)

-- The string that starts at `p`.
pub Spells-HasLength :
    (s : Bytes) (p : ℕ) (xs : List ℕ) → Spells s p xs → HasLength (λ i. s (p + i)) (length xs)
Spells-HasLength s p [] z = record {
  ends = ap s (omega arith) ∙ z;
  before = λ j l. absurd (omega (arith, l));
}
Spells-HasLength s p (x ∷ xs) (e, (nz, r)) =
    let h = Spells-HasLength s (p + 1) xs r in
    record {
      ends = ap s (omega arith) ∙ h.ends;
      before = λ j l z. elim (ℕ_discrete j 0) [
        | yes at_0 ↦ nz (sym e ∙ ap s (omega (arith, at_0)) ∙ z)
        | no ne ↦ h.before (j - 1) (omega (arith, ne, l)) (ap s (omega (arith, ne)) ∙ z)
      ];
    }
