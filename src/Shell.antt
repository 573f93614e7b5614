-- ===== src/Shell.antt =====
-- The shell of kernel.c: `read_line` and one round of `cli_loop` on the state of the kernel's parts.
-- What is printed is collected in the order of the calls. The entry points of the programs, the stack
-- pointer that `schedule` saves and what the stack's buffers hold before are arguments. `fuel` is
-- that of the ready queue; the other loops run over a line of at most 127 bytes.
pub mod Files
pub mod Commands
pub mod Line
pub mod Reads
pub mod Sound
pub mod Requests
pub mod Rounds
mod Tests
use Prim.Native.String.{String}
use apna_os.Prelude.{
  ℕ, zero, suc, ◌+◌, ◌-◌, ◌%◌, ◌^◌, Bool, true, false, ◌&&◌, Option, none, some, List, [], ◌∷◌,
  ◌++◌, ◌==◌, ltb, if◌then◌else◌, Bytes, update, of_list,
}
use apna_os.Prelude.Int.{ℤ, pos, negsuc}
use apna_os.Prelude.Run.{Run, Cmd, done, fault, out_of_fuel, pure, get, put, guard, ◌>>=◌, ◌>>◌}
use apna_os.Text.{strlen, strcmp}
use apna_os.Text.Tokens.{Tokens, strtok}
use apna_os.Disk.State.{Fs}
use apna_os.Keyboard.{Keyboard}
use apna_os.Numbers.{atoi}
use apna_os.Scheduler.{Kernel, Switch}

abbrev pub max_input_length : ℕ
max_input_length = 128

-- A call of `print_to_screen` or of `list_files`.
pub data Output : Type 0 where
  message : String → Output
  content : Bytes → Output
  names : List Bytes → Output

-- The parts that the shell calls. `tokens` has the shell's `input` and the static of `strtok`.
pub record Shell : Type 0 where
  pub keyboard : Keyboard
  pub tokens : Tokens
  pub fs : Fs
  pub kernel : Kernel
  pub printed : List Output

module _ {S A : Type 0} where
  -- The run of one part, with the others as they are.
  abbrev pub within_shell : (S → Shell) → Run S A → Run Shell A
  within_shell put_back (done a s) = done a (put_back s)
  within_shell put_back fault = fault
  within_shell put_back out_of_fuel = out_of_fuel

module _ {A : Type 0} where
  abbrev pub on_tokens : Cmd Tokens A → Cmd Shell A
  on_tokens c s = within_shell (λ t. record s { tokens = t }) (c s.tokens)

  abbrev pub on_disk : Cmd Fs A → Cmd Shell A
  on_disk c s = within_shell (λ fs. record s { fs = fs }) (c s.fs)

  abbrev pub on_kernel : Cmd Kernel A → Cmd Shell A
  on_kernel c s = within_shell (λ k. record s { kernel = k }) (c s.kernel)

abbrev pub print : Output → Cmd Shell (Unit {0})
print o s = done tt (record s { printed = s.printed ++ o ∷ [] })

abbrev pub say : String → Cmd Shell (Unit {0})
say m = print (message m)

-- while(input_line[i] != '\0' && i < max_length-1) ..., with `n` rounds left: where it stops, and the
-- buffer then.
unfoldable pub line_loop : ℕ → ℕ → Bytes → Bytes → ℕ × Bytes
line_loop zero i line buffer = (i, buffer)
line_loop (suc n) i line buffer =
    let rest = line_loop n (i + 1) line (update buffer i (line i)) in
    if line i == 0 then (i, buffer) else rest

-- `read_line(input, MAX_INPUT_LENGTH)` from the end of the loop on that waits for a line.
unfoldable pub read_line : Cmd Shell (Unit {0})
read_line s =
    let (i, buffer) = line_loop (max_input_length - 1) 0 s.keyboard.input_line s.tokens.line in
    done tt (record s {
      tokens = record { line = update buffer i 0; static_str = s.tokens.static_str };
      keyboard = record (s.keyboard) { input_ready = false };
    })

-- " \t", "\n"
abbrev pub blanks : Bytes
blanks = of_list 0 (32 ∷ 9 ∷ [])

abbrev pub line_end : Bytes
line_end = of_list 0 (10 ∷ [])

-- strtok(NULL, delim)
unfoldable pub next_token : Bytes → Cmd Shell (Option ℕ)
next_token delim = on_tokens (strtok max_input_length 3 none delim)

-- The string at a token.
abbrev pub token_at : Shell → ℕ → Bytes
token_at s token i = s.tokens.line (token + i)

abbrev is_zero : ℤ → Bool
is_zero (pos n) = n == 0
is_zero (negsuc n) = false

module _ {A B : Type 0} where
  abbrev pub or_no_fuel : (A → B) → Option A → Cmd Shell B
  or_no_fuel f none s = out_of_fuel
  or_no_fuel f (some a) s = done (f a) s

-- strcmp(token, word) == 0
unfoldable pub is_word : ℕ → Bytes → Cmd Shell Bool
is_word token word s = or_no_fuel is_zero (strcmp max_input_length (token_at s token) word 0) s

unfoldable pub number_at : ℕ → Cmd Shell ℤ
number_at token s = or_no_fuel (λ n. n) (atoi max_input_length (token_at s token)) s

unfoldable pub length_at : ℕ → Cmd Shell ℕ
length_at token s = or_no_fuel (λ n. n) (strlen max_input_length (token_at s token)) s

-- What a round comes to: the next one, the end of the shell, or where `schedule` leaves to.
pub data Outcome : Type 0 where
  continues exits : Outcome
  leaves : Switch → Outcome

-- print_to_screen(...); continue;
abbrev pub tell : String → Cmd Shell Outcome
tell m = say m >> pure continues
