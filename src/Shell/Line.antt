-- ===== src/Shell/Line.antt =====
-- The shell's line as `strtok` works through it: it always ends within its 128 bytes, and so do the
-- words that were taken.
use apna_os.Prelude.{
  ℕ, zero, suc, ◌+◌, ◌-◌, ◌≤◌, ◌<◌, ◌≡◌, refl, ◌⊎◌, arith, Option, none, some, List, [], ◌∷◌,
  length, Bytes, update, update_self, update_ne, ne→==, eq→==, ◌∙◌, sym, subst, ℕ_discrete,
  none-some,
}
use apna_os.Prelude.Run
use apna_os.Prelude.Run.{Run, done, Returns, returns}
use apna_os.Text.Tokens.{Tokens, start, strtok}
use apna_os.Text.Words.{
  Spells, drop_delims, first_word, after_word, Taken, no_token, token, strtok-Taken, Spells-kept,
  length-drop_delims, length-first_word, length-after_word,
}
use apna_os.Shell.{Shell, line_loop, read_line, max_input_length, blanks, line_end}

-- The text at a place of the line, which ends within the shell's buffer.
pub record Text (t : Tokens) (p : ℕ) : Type 0 where
  pub text : List ℕ
  pub spells : Spells t.line p text
  pub short : length text < max_input_length

-- What `strtok` has to work on, if anything.
abbrev pub IsLine : Tokens → Type 0
IsLine t = (p : ℕ) × ((t.static_str ≡ some p) × Text t p)

-- A word in front of what is left.
pub record IsToken (t : Tokens) (q : ℕ) : Type 0 where
  pub word : Text t q
  pub place : ℕ
  pub at : t.static_str ≡ some place
  pub before : q + length word.text ≤ place

-- `strtok` of a line, and what it leaves: the words that it took before stay.
pub record Cut (str : Option ℕ) (t : Tokens) (r : Option ℕ) (t' : Tokens) : Type 0 where
  pub line : IsLine t'
  pub taken : (q : ℕ) → r ≡ some q → IsToken t' q
  pub kept : str ≡ none → (q : ℕ) → IsToken t q → IsToken t' q

same-some : {a b : ℕ} → ◌≡◌ {A = Option ℕ} (some a) (some b) → a ≡ b
same-some e = cc

module _ (ds : List ℕ) (delim : Bytes) (spells : Spells delim 0 ds) (few : length ds < 3) where
  IsToken-kept :
      (str : Option ℕ) (t t' : Tokens) (p q' q : ℕ)
      → start str t.static_str ≡ some p
      → p ≤ q'
      → t'.static_str ≡ some q'
      → ((j : ℕ) → (j < p) ⊎ (t.line j ≡ 0) → t'.line j ≡ t.line j)
      → str ≡ none
      → IsToken t q
      → IsToken t' q
  IsToken-kept str t t' p q' q from le at same e k =
      let here : k.place ≡ p =
        same-some (sym k.at ∙ (subst (λ s. start s t.static_str ≡ some p) e from)) in
      let before = k.before in
      record {
        word = record {
          text = k.word.text;
          spells =
              Spells-kept t.line t'.line q p k.word.text (omega (arith, before, here)) same
                k.word.spells;
          short = k.word.short;
        };
        place = q';
        at = at;
        before = omega (arith, before, here, le);
      }

  Taken-Cut :
      (str : Option ℕ) (t : Tokens) (p : ℕ) (xs : List ℕ) (r : Option ℕ) (t' : Tokens)
      → start str t.static_str ≡ some p
      → length xs < max_input_length
      → Taken ds 3 delim spells few p t.line xs r t'
      → Cut str t r t'
  Taken-Cut str t p _ _ _ from l (no_token {q = q} le s) = record {
    line = (q, (refl, record { text = []; spells = s; short = l }));
    taken = λ q e. absurd (none-some q e);
    kept = λ e a k.
        IsToken-kept str t (record { line = t.line; static_str = some q }) p q a from le refl
          (λ j o. refl) e k;
  }
  Taken-Cut str t p _ _ _ from l
        (token {x = x} {q = q} {q' = q'} {xs = xs} {line' = line'} le s behind s' same) =
      let first = length-first_word ds 3 delim spells few (x ∷ xs) in
      let after = length-after_word ds 3 delim spells few (x ∷ xs) in
      record {
        line = (
          q',
          (
            refl,
            record { text = after_word ds (x ∷ xs); spells = s'; short = omega (arith, after, l) },
          ),
        );
        taken = λ a e.
            subst (λ a. IsToken (record { line = line'; static_str = some q' }) a) (same-some e)
              (record {
                word = record {
                  text = first_word ds (x ∷ xs);
                  spells = s;
                  short = omega (arith, first, l);
                };
                place = q';
                at = refl;
                before = behind;
              });
        kept = λ e a k.
            IsToken-kept str t (record { line = line'; static_str = some q' }) p q' a from
              (omega (arith, le, behind)) refl same e k;
      }

  pub strtok-Cut :
      (str : Option ℕ) (t : Tokens) (p : ℕ)
      → start str t.static_str ≡ some p
      → Text t p
      → Returns (Cut str t) (strtok max_input_length 3 str delim t)
  strtok-Cut str t p from text =
      let few' = length-drop_delims ds 3 delim spells few text.text in
      let short = text.short in
      Run.mono
        (strtok-Taken ds 3 delim spells few max_input_length p str text.text t from text.spells
          text.short)
        λ r t' k.
          Taken-Cut str t p (drop_delims ds text.text) r t' from (omega (arith, few', short)) k

-- The two delimiters of the shell.
pub blanks-spells : Spells blanks 0 (32 ∷ 9 ∷ [])
blanks-spells = (refl, ((λ e. omega (arith, e)), (refl, ((λ e. omega (arith, e)), refl))))

pub line_end-spells : Spells line_end 0 (10 ∷ [])
line_end-spells = (refl, ((λ e. omega (arith, e)), refl))

-- What the loop of `read_line` leaves: a text, once its end is marked.
record Read (n i : ℕ) (buffer : Bytes) (r : ℕ × Bytes) : Type 0 where
  text : List ℕ
  few : length text ≤ n
  stop : i ≤ r.0
  before : (j : ℕ) → j < i → r.1 j ≡ buffer j
  spells : Spells (update (r.1) (r.0) 0) i text

line_loop-Read : (n i : ℕ) (line buffer : Bytes) → Read n i buffer (line_loop n i line buffer)
unfolding line_loop
line_loop-Read zero i line buffer = record {
  text = [];
  few = omega arith;
  stop = omega arith;
  before = λ j l. refl;
  spells = update_self buffer i 0;
}
line_loop-Read (suc n) i line buffer = elim (ℕ_discrete (line i) 0) [
  | yes z ↦ rw (eq→== (line i) 0 z) (record {
    text = [];
    few = omega arith;
    stop = omega arith;
    before = λ j l. refl;
    spells = update_self buffer i 0;
  })
  | no nz ↦
      let r = line_loop-Read n (i + 1) line (update buffer i (line i)) in
      let c = line_loop n (i + 1) line (update buffer i (line i)) in
      let stop = r.stop in
      let few = r.few in
      rw (ne→== (line i) 0 nz) (record {
        text = line i ∷ r.text;
        few = omega (arith, few);
        stop = omega (arith, stop);
        before = λ j l.
            r.before j (omega (arith, l))
            ∙ update_ne buffer i j (line i) (λ e. omega (arith, e, l));
        spells = (
          update_ne (c.1) (c.0) i 0 (λ e. omega (arith, e, stop))
              ∙ r.before i (omega arith)
              ∙ update_self buffer i (line i),
          (nz, r.spells),
        );
      })
]

-- The line that `read_line` leaves in the shell's buffer, and the rest of the shell as it was.
pub record ReadLine (s s' : Shell) : Type 0 where
  pub text : Text s'.tokens 0
  pub fs : s'.fs ≡ s.fs
  pub kernel : s'.kernel ≡ s.kernel

pub read_line-ReadLine : (s : Shell) → Returns (λ _ s'. ReadLine s s') (read_line s)
unfolding read_line
read_line-ReadLine s =
    let r = line_loop-Read (max_input_length - 1) 0 s.keyboard.input_line s.tokens.line in
    let few = r.few in
    returns (record {
      text = record { text = r.text; spells = r.spells; short = omega (arith, few) };
      fs = refl;
      kernel = refl;
    })
