-- ===== src/Numbers/Decimal.antt =====
-- `int_to_dec` writes the decimal digits of a number, and `atoi` reads them back.
use apna_os.Prelude.{
  ℕ, zero, suc, ◌+◌, ◌-◌, ◌*◌, ◌/◌, ◌%◌, ◌^◌, ◌≤◌, ◌<◌, ◌≡◌, refl, arith, leb, ◌==◌, Bytes, update,
  ◌∙◌, update_self, update_ne, ℕ_discrete, dec_lt, some, true, false, ◌&&◌, lt→ltb, ge→ltb, ne→==,
  eq→==, sym,
}
use apna_os.Prelude.Int.{pos}
use apna_os.Numbers.{wrap, atoi_loop, atoi, dec_loop, reverse_loop, int_to_dec}

abbrev IsDigit : ℕ → Type 0
IsDigit c = (b'0' ≤ c) × (c ≤ b'9')

-- The number that `k` digits from `p` on stand for, the lowest first.
low : Bytes → ℕ → ℕ → ℕ
low s p zero = 0
low s p (suc k) = s p - b'0' + 10 * low s (p + 1) k

-- The number that the first `k` digits stand for, the highest first.
high : Bytes → ℕ → ℕ
high s zero = 0
high s (suc k) = high s k * 10 + (s k - b'0')

tens : ℕ → ℕ
tens zero = 1
tens (suc n) = 10 * tens n

-- What the loop of `int_to_dec` leaves in `temp`: `k` digits.
record Digits (num place n : ℕ) (temp : Bytes) (r : ℕ × Bytes) : Type 0 where
  k : ℕ
  at_most : k ≤ n
  some_digit : 0 < num → 0 < k
  stop : r.0 ≡ place + k
  value : low (r.1) place k ≡ num
  digit : (j : ℕ) → place ≤ j → j < place + k → IsDigit (r.1 j)
  before : (j : ℕ) → j < place → r.1 j ≡ temp j

dec_loop-Digits :
    (n num place : ℕ) (temp : Bytes)
    → num < tens n
    → Digits num place n temp (dec_loop n num place temp)
unfolding dec_loop low tens
dec_loop-Digits zero num place temp l = record {
  k = 0;
  at_most = omega arith;
  some_digit = λ h. omega (arith, h, l);
  stop = omega arith;
  value = omega (arith, l);
  digit = λ j a b. absurd (omega (arith, a, b));
  before = λ j a. refl;
}
dec_loop-Digits (suc n) num place temp l = elim (dec_lt 0 num) [
  | no z ↦ rw (ge→ltb 0 num (omega (arith, z))) (record {
    k = 0;
    at_most = omega arith;
    some_digit = λ h. absurd (z h);
    stop = omega arith;
    value = omega (arith, z);
    digit = λ j a b. absurd (omega (arith, a, b));
    before = λ j a. refl;
  })
  | yes s ↦
      let temp' = update temp place (b'0' + num % 10) in
      let ih = dec_loop-Digits n (num / 10) (place + 1) temp' (omega (arith, l)) in
      let r = dec_loop n (num / 10) (place + 1) temp' in
      let here : r.1 place ≡ b'0' + num % 10 =
        ih.before place (omega arith) ∙ update_self temp place (b'0' + num % 10) in
      rw (lt→ltb 0 num s) (record {
        k = suc ih.k;
        at_most = omega (arith, ih.at_most);
        some_digit = λ h. omega arith;
        stop = omega (arith, ih.stop);
        value = omega (arith, here, ih.value);
        digit = λ j a b. elim (ℕ_discrete place j) [
          | yes e ↦ rw (← e, here) (omega arith, omega arith)
          | no ne ↦ ih.digit j (omega (arith, a, ne)) (omega (arith, b))
        ];
        before = λ j a.
            ih.before j (omega (arith, a)) ∙ update_ne temp place j _ (λ e. omega (arith, e, a));
      })
]

-- The loop that copies the digits in the other order.
record Reversed (n i place : ℕ) (temp buffer out : Bytes) : Type 0 where
  inside : (j : ℕ) → i ≤ j → j < i + n → out j ≡ temp (place - j - 1)
  before : (j : ℕ) → j < i → out j ≡ buffer j

reverse_loop-Reversed :
    (n i place : ℕ) (temp buffer : Bytes)
    → Reversed n i place temp buffer (reverse_loop n i place temp buffer)
unfolding reverse_loop
reverse_loop-Reversed zero i place temp buffer = record {
  inside = λ j a b. absurd (omega (arith, a, b));
  before = λ j a. refl;
}
reverse_loop-Reversed (suc n) i place temp buffer =
    let buffer' = update buffer i (temp (place - i - 1)) in
    let ih = reverse_loop-Reversed n (i + 1) place temp buffer' in
    record {
      inside = λ j a b. elim (ℕ_discrete i j) [
        | yes e ↦ rw (← e) (ih.before i (omega arith) ∙ update_self buffer i _)
        | no ne ↦ ih.inside j (omega (arith, a, ne)) (omega (arith, b))
      ];
      before =
          λ j a. ih.before j (omega (arith, a)) ∙ update_ne buffer i j _ (λ e. omega (arith, e, a));
    }

-- Digits in the other order stand for the same number, read the other way.
high-low :
    (n place : ℕ) (s t : Bytes)
    → n ≤ place
    → ((j : ℕ) → j < n → s j ≡ t (place - j - 1))
    → high s n ≡ low t (place - n) n
unfolding high low
high-low zero place s t l same = refl
high-low (suc n) place s t l same =
    let ih = high-low n place s t (omega (arith, l)) (λ j a. same j (omega (arith, a))) in
    let at : place - suc n + 1 ≡ place - n = omega (arith, l) in
    let at' : place - n - 1 ≡ place - suc n = omega arith in
    let last : s n ≡ t (place - suc n) = rw (← at') (same n (omega arith)) in
    rw at (omega (arith, ih, last))

high_step : (s : Bytes) (k : ℕ) → high s (suc k) ≡ high s k * 10 + (s k - b'0')
unfolding high
high_step s k = refl

-- A prefix of a number has no larger value than the whole.
high-le : (s : Bytes) (i n : ℕ) → high s i ≤ high s (i + n)
unfolding high
high-le s i zero = let e : i + 0 ≡ i = omega arith in rw e (omega arith)
high-le s i (suc n) =
    let e : i + suc n ≡ suc (i + n) = omega arith in rw e (omega (arith, high-le s i n))

-- A string of `k` digits and its end.
record IsNumeral (s : Bytes) (k : ℕ) : Type 0 where
  digit : (j : ℕ) → j < k → IsDigit (s j)
  ends : s k ≡ 0

atoi_loop-high :
    (fuel n i k : ℕ) (s : Bytes)
    → i + n ≡ k
    → n < fuel
    → IsNumeral s k
    → high s k < 2 ^ 32
    → atoi_loop fuel s i (high s i) ≡ some (high s k)
unfolding atoi_loop
atoi_loop-high zero n i k s e l d small = absurd (omega (arith, l))
atoi_loop-high (suc fuel) zero i k s e l d small =
    let here : i ≡ k = omega (arith, e) in rw (here, eq→== (s k) 0 (d.ends)) refl
atoi_loop-high (suc fuel) (suc n) i k s e l d small =
    let (lo, hi) = d.digit i (omega (arith, e)) in
    let next : i + 1 ≡ suc i = omega arith in
    let whole : suc i + n ≡ k = omega (arith, e) in
    let le : high s (suc i) ≤ high s k = rw (← whole) (high-le s (suc i) n) in
    let step : wrap (high s i * 10 + (s i - b'0')) ≡ high s (suc i) =
      omega (arith, high_step s i, le, small) in
    let not_end : (s i == 0) ≡ false = ne→== (s i) 0 (λ z. omega (arith, z, lo)) in
    let digit : (leb (b'0') (s i) && leb (s i) (b'9')) ≡ true = ground (arith, lo, hi) in
    rw (not_end, digit, step, next)
      (atoi_loop-high fuel n (suc i) k s (omega (arith, e)) (omega (arith, l)) d small)

-- A string that is the decimal numeral of `num`, with `k` digits.
record Prints (num k : ℕ) (s : Bytes) : Type 0 where
  numeral : IsNumeral s k
  value : high s k ≡ num
  some_digit : 0 < k
  few : k ≤ 15

int_to_dec-Prints :
    (num : ℕ) (temp buffer : Bytes)
    → num < 2 ^ 32
    → (k : ℕ) × Prints num k (int_to_dec num temp buffer)
unfolding int_to_dec tens high
int_to_dec-Prints num temp buffer l = elim (ℕ_discrete num 0) [
  | yes z ↦ rw (eq→== num 0 z) (
    1,
    record {
      numeral = record {
        digit = λ j a. let first : j ≡ 0 = omega (arith, a) in rw first (omega arith, omega arith);
        ends = refl;
      };
      value = sym z;
      some_digit = omega arith;
      few = omega arith;
    },
  )
  | no nz ↦
      let d = dec_loop-Digits 15 num 0 temp (omega (arith, l)) in
      let r = dec_loop 15 num 0 temp in
      let v = reverse_loop-Reversed (r.0) 0 (r.0) (r.1) buffer in
      let copied = reverse_loop (r.0) 0 (r.0) (r.1) buffer in
      let out = update copied (r.0) 0 in
      let inside : (j : ℕ) → j < r.0 → out j ≡ r.1 (r.0 - j - 1) = λ j a.
        update_ne copied (r.0) j 0 (λ e. omega (arith, e, a))
        ∙ v.inside j (omega arith) (omega (arith, a)) in
      let all : r.0 - r.0 ≡ 0 = omega arith in
      let stop : r.0 ≡ d.k = omega (arith, d.stop) in
      rw (ne→== num 0 nz) (
        r.0,
        record {
          numeral = record {
            digit = λ j a.
                rw (inside j a) (d.digit (r.0 - j - 1) (omega arith) (omega (arith, a, d.stop)));
            ends = update_self copied (r.0) 0;
          };
          value = high-low (r.0) (r.0) out (r.1) (omega arith) inside ∙ rw (all, stop) (d.value);
          some_digit = omega (arith, d.stop, d.some_digit (omega (arith, nz)));
          few = omega (arith, d.stop, d.at_most);
        },
      )
]

-- Every number below 2^31 is read back by `atoi` from the string that `int_to_dec` writes, whatever
-- its buffers held before; seventeen rounds are enough.
pub atoi-int_to_dec :
    (fuel num : ℕ) (temp buffer : Bytes)
    → 16 < fuel
    → num < 2 ^ 31
    → atoi fuel (int_to_dec num temp buffer) ≡ some (pos num)
unfolding atoi high
atoi-int_to_dec fuel num temp buffer enough small =
    let (k, p) = int_to_dec-Prints num temp buffer (omega (arith, small)) in
    let s = int_to_dec num temp buffer in
    let (lo, hi) = p.numeral.digit 0 (p.some_digit) in
    let not_minus : (s 0 == b'-') ≡ false = ne→== (s 0) (b'-') (λ e. omega (arith, e, lo)) in
    let read =
      atoi_loop-high fuel k 0 k s (omega arith) (omega (arith, p.few, enough)) (p.numeral)
        (omega (arith, p.value, small)) in
    rw (not_minus, read, p.value, lt→ltb num (2 ^ 31) small) refl
