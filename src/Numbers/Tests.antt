-- ===== src/Numbers/Tests.antt =====
-- The conversions on concrete numbers.
use apna_os.Prelude.{ℕ, ◌≤◌, ◌≡◌, arith, some, Bytes}
use apna_os.Prelude.Int.{pos}
use apna_os.Numbers.{atoi, int_to_dec, int_to_hex}
use apna_os.Numbers.Hex.{read_hex, int_to_hex_lem}
use apna_os.Numbers.Decimal.{atoi-int_to_dec}

abbrev ones : Bytes
ones p = 1

int_to_hex_lem_example :
    (int_to_hex 0xB8000 ones 0 ≡ b'0')
    × (int_to_hex 0xB8000 ones 1 ≡ b'x')
    × (read_hex 8 2 (int_to_hex 0xB8000 ones) ≡ 0xB8000)
    × (int_to_hex 0xB8000 ones 10 ≡ 0)
    × ((p : ℕ) → 11 ≤ p → int_to_hex 0xB8000 ones p ≡ ones p)
int_to_hex_lem_example = int_to_hex_lem 0xB8000 ones (omega arith)

atoi-int_to_dec_example : atoi 20 (int_to_dec 1024 ones ones) ≡ some (pos 1024)
atoi-int_to_dec_example = atoi-int_to_dec 20 1024 ones ones (omega arith) (omega arith)
