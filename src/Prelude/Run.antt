-- ===== src/Prelude/Run.antt =====
-- Stateful C code: a command takes the state and ends with a value and the new state, or in an
-- access outside an array (`fault`), or, as a loop on fuel, without an end (`out_of_fuel`).
use mathlib.Core.Bool.{Bool}
use mathlib.Core.Path.{◌≡◌, refl}
use apna_os.Prelude.Tests.{if◌then◌else◌}

pub data Run (S A : Type 0) : Type 0 where
  done : A → S → Run S A
  fault : Run S A
  out_of_fuel : Run S A

abbrev pub Cmd : Type 0 → Type 0 → Type 0
Cmd S A = S → Run S A

module _ {S : Type 0} where
  abbrev pub pure : {A : Type 0} → A → Cmd S A
  pure = done

  abbrev pub get : Cmd S S
  get s = done s s

  abbrev pub put : S → Cmd S (Unit {0})
  put s' s = done tt s'

  -- An access at a computed index: undefined behaviour outside the bounds.
  abbrev pub guard : Bool → Cmd S (Unit {0})
  guard b s = if b then done tt s else fault

module _ {S A B : Type 0} where
  abbrev pub and_then : Run S A → (A → Cmd S B) → Run S B
  and_then (done a s) k = k a s
  and_then fault k = fault
  and_then out_of_fuel k = out_of_fuel

  infixl 5 ◌>>=◌ ◌>>◌
  abbrev pub ◌>>=◌ : Cmd S A → (A → Cmd S B) → Cmd S B
  m >>= k = λ s. and_then (m s) k

  abbrev pub ◌>>◌ : Cmd S A → Cmd S B → Cmd S B
  m >> n = m >>= λ _. n

-- Total correctness: the run ends, inside the bounds, in a value and a state that satisfy `P`.
pub data Returns {S A : Type 0} (P : A → S → Type 0) : Run S A → Type 0 where
  returns : {a : A} {s : S} → P a s → Returns P (done a s)

module _ {S A : Type 0} {P : A → S → Type 0} where
  pub bind :
      {B : Type 0} {Q : B → S → Type 0} {r : Run S A} {k : A → Cmd S B}
      → Returns P r
      → ((a : A) (s : S) → P a s → Returns Q (k a s))
      → Returns Q (and_then r k)
  bind (returns p) next = next _ _ p

  pub mono :
      {Q : A → S → Type 0} {r : Run S A}
      → Returns P r
      → ((a : A) (s : S) → P a s → Q a s)
      → Returns Q r
  mono (returns p) weaken = returns (weaken _ _ p)

-- The run ends in a value and a state that satisfy `P`, or an access leaves an array, for the reason
-- `F`.
pub data Ends {S A : Type 0} (F : Type 0) (P : A → S → Type 0) : Run S A → Type 0 where
  ends : {a : A} {s : S} → P a s → Ends F P (done a s)
  stops : F → Ends F P fault

module _ {S A : Type 0} {F : Type 0} {P : A → S → Type 0} where
  pub Returns-Ends : {r : Run S A} → Returns P r → Ends F P r
  Returns-Ends (returns p) = ends p

  pub mono-Ends :
      {G : Type 0} {Q : A → S → Type 0} {r : Run S A}
      → Ends F P r
      → (F → G)
      → ((a : A) (s : S) → P a s → Q a s)
      → Ends G Q r
  mono-Ends (ends p) f g = ends (g _ _ p)
  mono-Ends (stops q) f g = stops (f q)

  pub bind-Ends :
      {B : Type 0} {Q : B → S → Type 0} {r : Run S A} {k : A → Cmd S B}
      → Ends F P r
      → ((a : A) (s : S) → r ≡ done a s → P a s → Ends F Q (k a s))
      → Ends F Q (and_then r k)
  bind-Ends (ends p) next = next _ _ refl p
  bind-Ends (stops q) next = stops q
