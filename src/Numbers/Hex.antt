-- ===== src/Numbers/Hex.antt =====
-- `int_to_hex` writes the eight digits of a number.
use apna_os.Prelude.{
  ℕ, zero, suc, ◌+◌, ◌-◌, ◌*◌, ◌/◌, ◌%◌, ◌^◌, ◌≤◌, ◌<◌, ◌≡◌, refl, arith, leb, if◌then◌else◌, Bytes,
  update, ◌∙◌, update_self, update_ne, ℕ_discrete, ◌==◌, all_below, all_below-at, ap,
}
use apna_os.Numbers.{hex_chars, hex_loop, int_to_hex}

-- What a hexadecimal digit stands for.
abbrev pub hex_value : ℕ → ℕ
hex_value c = if leb (b'A') c then c - b'A' + 10 else c - b'0'

-- The number that `n` hexadecimal digits from offset `i` on stand for.
abbrev pub read_hex : ℕ → ℕ → Bytes → ℕ
read_hex zero i s = 0
read_hex (suc n) i s = hex_value (s i) * 16 ^ n + read_hex n (i + 1) s

hex_value-hex_chars : (d : ℕ) → d < 16 → hex_value (hex_chars d) ≡ d
unfolding all_below
hex_value-hex_chars d l =
    ground (arith, all_below-at (λ d. hex_value (hex_chars d) == d) 16 d refl l)

-- The digit at place `j`, the highest first.
abbrev digit_at : ℕ → ℕ → ℕ
digit_at num j = num / 2 ^ ((7 - j) * 4) % 2 ^ 4

-- The loop writes its own digits and nothing else.
record Written (n i num : ℕ) (buffer out : Bytes) : Type 0 where
  inside : (j : ℕ) → i ≤ j → j < i + n → out (j + 2) ≡ hex_chars (digit_at num j)
  before : (p : ℕ) → p < i + 2 → out p ≡ buffer p
  behind : (p : ℕ) → i + n + 2 ≤ p → out p ≡ buffer p

hex_loop-Written : (n i num : ℕ) (buffer : Bytes) → Written n i num buffer (hex_loop n i num buffer)
unfolding hex_loop
hex_loop-Written zero i num buffer = record {
  inside = λ j a b. absurd (omega (arith, a, b));
  before = λ p a. refl;
  behind = λ p a. refl;
}
hex_loop-Written (suc n) i num buffer =
    let c = hex_chars (digit_at num i) in
    let ih = hex_loop-Written n (i + 1) num (update buffer (i + 2) c) in
    record {
      inside = λ j a b. elim (ℕ_discrete i j) [
        | yes e ↦ rw (← e) (ih.before (i + 2) (omega arith) ∙ update_self buffer (i + 2) c)
        | no ne ↦ ih.inside j (omega (arith, a, ne)) (omega (arith, b))
      ];
      before = λ p a.
          ih.before p (omega (arith, a)) ∙ update_ne buffer (i + 2) p c (λ e. omega (arith, e, a));
      behind = λ p a.
          ih.behind p (omega (arith, a)) ∙ update_ne buffer (i + 2) p c (λ e. omega (arith, e, a));
    }

-- For a number of 32 bits `int_to_hex` writes "0x", eight digits that stand for the number and the
-- end of the string, and no byte behind these eleven.
pub int_to_hex_lem :
    (num : ℕ) (buffer : Bytes)
    → num < 2 ^ 32
    → (int_to_hex num buffer 0 ≡ b'0')
      × (int_to_hex num buffer 1 ≡ b'x')
      × (read_hex 8 2 (int_to_hex num buffer) ≡ num)
      × (int_to_hex num buffer 10 ≡ 0)
      × ((p : ℕ) → 11 ≤ p → int_to_hex num buffer p ≡ buffer p)
unfolding int_to_hex
int_to_hex_lem num buffer l =
    let start = update (update buffer 0 (b'0')) 1 (b'x') in
    let r = hex_loop-Written 8 0 num start in
    let digit = λ (j : ℕ) (a : j < 8).
      ap hex_value (r.inside j (omega arith) (omega (arith, a)))
      ∙ hex_value-hex_chars (digit_at num j) (omega arith) in
    (
      r.before 0 (omega arith),
      r.before 1 (omega arith),
      rw
          (
            digit 0 (omega arith),
            digit 1 (omega arith),
            digit 2 (omega arith),
            digit 3 (omega arith),
            digit 4 (omega arith),
            digit 5 (omega arith),
            digit 6 (omega arith),
            digit 7 (omega arith),
          )
          (omega (arith, l)),
      refl,
      λ p a. let far : 8 + 2 ≤ p = omega (arith, a) in ground (arith, r.behind p far, a),
    )
