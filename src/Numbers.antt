-- ===== src/Numbers.antt =====
-- The conversions of numbers of kernel.c. A buffer is the memory from its pointer on.
pub mod Hex
pub mod Decimal
mod Tests
use apna_os.Prelude.{
  ℕ, zero, suc, ◌+◌, ◌-◌, ◌*◌, ◌/◌, ◌%◌, ◌^◌, ◌&&◌, List, [], ◌∷◌, Option, none, some, ltb, leb,
  ◌==◌, if◌then◌else◌, Bytes, update, of_list,
}
use apna_os.Prelude.Int.{ℤ, pos, negsuc}

-- An `int` of 32 bits: the value that is left of an integer after wrapping round.
abbrev pub wrap : ℕ → ℕ
wrap n = n % 2 ^ 32

-- The loop of `atoi`, with `num` and the place `i` in the string. `num * 10 + digit` is computed in
-- 32 bits, and kept as the number from 0 to 2^32 - 1 that has its bits.
unfoldable pub atoi_loop : ℕ → Bytes → ℕ → ℕ → Option ℕ
atoi_loop zero s i num = none
atoi_loop (suc fuel) s i num =
    let rest = atoi_loop fuel s (i + 1) (wrap (num * 10 + (s i - b'0'))) in
    if s i == 0 then some num else if leb (b'0') (s i) && leb (s i) (b'9') then rest else some num

-- The `int` with these 32 bits.
abbrev pub to_int : ℕ → ℤ
to_int n = if ltb n (2 ^ 31) then pos n else negsuc (2 ^ 32 - n - 1)

abbrev pub neg : ℕ → ℕ
neg n = wrap (2 ^ 32 - n)

abbrev pub map_some : (ℕ → ℤ) → Option ℕ → Option ℤ
map_some f none = none
map_some f (some n) = some (f n)

unfoldable pub atoi : ℕ → Bytes → Option ℤ
atoi fuel s =
    if s 0 == b'-'
    then map_some (λ n. to_int (neg n)) (atoi_loop fuel s 1 0)
    else map_some to_int (atoi_loop fuel s 0 0)

abbrev pub hex_chars : Bytes
hex_chars = of_list 0 (
    b'0' ∷ b'1' ∷ b'2' ∷ b'3' ∷ b'4' ∷ b'5' ∷ b'6' ∷ b'7' ∷ b'8' ∷ b'9' ∷ b'A' ∷ b'B' ∷ b'C' ∷ b'D'
    ∷ b'E' ∷ b'F' ∷ [])

-- for (int i = 0; i < 8; i++) buffer[i + 2] = hex_chars[(num >> ((7 - i) * 4)) & 0xF];
unfoldable pub hex_loop : ℕ → ℕ → ℕ → Bytes → Bytes
hex_loop zero i num buffer = buffer
hex_loop (suc n) i num buffer =
    hex_loop n (i + 1) num (update buffer (i + 2) (hex_chars (num / 2 ^ ((7 - i) * 4) % 2 ^ 4)))

unfoldable pub int_to_hex : ℕ → Bytes → Bytes
int_to_hex num buffer = update (hex_loop 8 0 num (update (update buffer 0 (b'0')) 1 (b'x'))) 10 0

-- while (num > 0 && pos < 15) { temp[pos++] = '0' + (num % 10); num /= 10; }  with `n` rounds left:
-- `pos` and `temp` at the end.
unfoldable pub dec_loop : ℕ → ℕ → ℕ → Bytes → ℕ × Bytes
dec_loop zero num place temp = (place, temp)
dec_loop (suc n) num place temp =
    let rest = dec_loop n (num / 10) (place + 1) (update temp place (b'0' + num % 10)) in
    if ltb 0 num then rest else (place, temp)

-- for(i = 0; i < pos; i++) buffer[i] = temp[pos - i - 1];  with `n` rounds left.
unfoldable pub reverse_loop : ℕ → ℕ → ℕ → Bytes → Bytes → Bytes
reverse_loop zero i place temp buffer = buffer
reverse_loop (suc n) i place temp buffer =
    reverse_loop n (i + 1) place temp (update buffer i (temp (place - i - 1)))

unfoldable pub int_to_dec : ℕ → Bytes → Bytes → Bytes
int_to_dec num temp buffer =
    let (place, temp') = dec_loop 15 num 0 temp in
    let buffer' = update (reverse_loop place 0 place temp' buffer) place 0 in
    if num == 0 then update (update buffer 0 (b'0')) 1 0 else buffer'
