-- ===== src/Text/Tokens.antt =====
-- `strtok` of keyboard/string.c, which cuts a line into words.
use apna_os.Prelude.{
  ℕ, zero, suc, ◌+◌, Bool, true, false, ◌&&◌, not, Option, none, some, ◌==◌, if◌then◌else◌, Bytes,
  update,
}
use apna_os.Prelude.Run.{Cmd, done, out_of_fuel}
use apna_os.Text.{strchr_loop}

-- The line that `strtok` was given, and its static pointer, an offset in the line.
pub record Tokens : Type 0 where
  pub line : Bytes
  pub static_str : Option ℕ

abbrev pub is_some : Option ℕ → Bool
is_some none = false
is_some (some p) = true

-- strchr(delim, c), as a test; `m` rounds for the string `delim`.
unfoldable pub in_delim : ℕ → Bytes → ℕ → Bool
in_delim m delim c = is_some (strchr_loop m delim c 0)

-- while (*static_str && strchr(delim, *static_str)) static_str++;
unfoldable pub skip_loop : ℕ → ℕ → Bytes → Bytes → ℕ → Option ℕ
skip_loop zero m delim line p = none
skip_loop (suc fuel) m delim line p =
    let rest = skip_loop fuel m delim line (p + 1) in
    if not (line p == 0) && in_delim m delim (line p) then rest else some p

-- while (*static_str && !strchr(delim, *static_str)) static_str++;
unfoldable pub word_loop : ℕ → ℕ → Bytes → Bytes → ℕ → Option ℕ
word_loop zero m delim line p = none
word_loop (suc fuel) m delim line p =
    let rest = word_loop fuel m delim line (p + 1) in
    if not (line p == 0) && not (in_delim m delim (line p)) then rest else some p

-- The end of the word is marked, at the place where the second loop stops.
unfoldable pub end_token : ℕ → Option ℕ → Cmd Tokens (Option ℕ)
end_token token none t = out_of_fuel
end_token token (some p) t = done (some token) (
    if t.line p == 0
    then record { line = t.line; static_str = some p }
    else record { line = update t.line p 0; static_str = some (p + 1) })

-- What follows the first loop, which stops at a place.
unfoldable pub take_token : ℕ → ℕ → Bytes → Option ℕ → Cmd Tokens (Option ℕ)
take_token fuel m delim none t = out_of_fuel
take_token fuel m delim (some p) t =
    if t.line p == 0
    then done none (record t { static_str = some p })
    else end_token p (word_loop fuel m delim t.line p) t

-- if (str) static_str = str;
abbrev pub start : Option ℕ → Option ℕ → Option ℕ
start none static_str = static_str
start (some p) static_str = some p

unfoldable pub tokens_from : ℕ → ℕ → Bytes → Option ℕ → Cmd Tokens (Option ℕ)
tokens_from fuel m delim none t = done none t
tokens_from fuel m delim (some p) t = take_token fuel m delim (skip_loop fuel m delim t.line p) t

-- `fuel` bounds the rounds of each loop.
unfoldable pub strtok : ℕ → ℕ → Option ℕ → Bytes → Cmd Tokens (Option ℕ)
strtok fuel m str delim t = tokens_from fuel m delim (start str t.static_str) t
