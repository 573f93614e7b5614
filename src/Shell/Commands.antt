-- ===== src/Shell/Commands.antt =====
-- The rounds of `cli_loop` in kernel.c: the `process` commands and the first word of a line.
use apna_os.Prelude.{
  ℕ, ◌&&◌, Option, none, some, List, [], ◌∷◌, if◌then◌else◌, Bytes, of_list, Bool, false,
}
use apna_os.Prelude.Int.{ℤ, pos}
use apna_os.Prelude.Run.{Cmd, pure, ◌>>=◌, ◌>>◌}
use apna_os.Text.Tokens.{strtok}
use apna_os.Scheduler.{get_new_pid, create_process, schedule}
use apna_os.Shell.{
  Shell, on_tokens, on_kernel, say, tell, blanks, next_token, is_word, number_at, max_input_length,
  read_line, Outcome, continues, exits, leaves,
}
use apna_os.Shell.Files.{file_command, list_all, ls_word}

-- The addresses of the programs.
pub record Programs : Type 0 where
  pub syscall_test : ℕ
  pub process_test : ℕ
  pub dummy_process_1 : ℕ
  pub dummy_process_2 : ℕ
  pub dummy_process_3 : ℕ

abbrev dummy1_word : Bytes
dummy1_word = of_list 0 (b'd' ∷ b'u' ∷ b'm' ∷ b'm' ∷ b'y' ∷ b'1' ∷ [])

abbrev dummy2_word : Bytes
dummy2_word = of_list 0 (b'd' ∷ b'u' ∷ b'm' ∷ b'm' ∷ b'y' ∷ b'2' ∷ [])

abbrev dummy3_word : Bytes
dummy3_word = of_list 0 (b'd' ∷ b'u' ∷ b'm' ∷ b'm' ∷ b'y' ∷ b'3' ∷ [])

-- `process_commands`
abbrev pub process_commands : Programs → List (Bytes × ℕ)
process_commands programs =
    (dummy1_word, programs.dummy_process_1)
    ∷ (dummy2_word, programs.dummy_process_2)
    ∷ (dummy3_word, programs.dummy_process_3)
    ∷ []

abbrev pub exit_word : Bytes
exit_word = of_list 0 (b'e' ∷ b'x' ∷ b'i' ∷ b't' ∷ [])

abbrev pub process_word : Bytes
process_word = of_list 0 (b'p' ∷ b'r' ∷ b'o' ∷ b'c' ∷ b'e' ∷ b's' ∷ b's' ∷ [])

abbrev pub start_word : Bytes
start_word = of_list 0 (b's' ∷ b't' ∷ b'a' ∷ b'r' ∷ b't' ∷ [])

abbrev pub syscall_word : Bytes
syscall_word = of_list 0 (b's' ∷ b'y' ∷ b's' ∷ b'c' ∷ b'a' ∷ b'l' ∷ b'l' ∷ [])

abbrev pub test_word : Bytes
test_word = of_list 0 (b't' ∷ b'e' ∷ b's' ∷ b't' ∷ [])

abbrev pub file_word : Bytes
file_word = of_list 0 (b'f' ∷ b'i' ∷ b'l' ∷ b'e' ∷ [])

-- if (token) priority = atoi(token);  where it was 1
unfoldable pub priority_from : Option ℕ → Cmd Shell ℤ
priority_from none = pure (pos 1)
priority_from (some token) = number_at token

unfoldable pub queue_process : ℕ → ℕ → ℤ → Cmd Shell (Option ℕ)
queue_process fuel entry_point priority = do
  pid ← on_kernel get_new_pid
  on_kernel (create_process fuel pid entry_point priority (pos 1) (pos 2))

-- The loop over `process_commands`.
unfoldable pub queue_named : ℕ → ℕ → ℤ → List (Bytes × ℕ) → Cmd Shell Outcome
queue_named fuel token priority [] = tell "Error: Unknown process name.\n"
queue_named fuel token priority ((name, func) ∷ commands) = do
  let rest = queue_named fuel token priority commands
  found ← is_word token name
  if found
      then (do say "Queueing process...\n"; queue_process fuel func priority; pure continues)
      else rest

-- strcmp(token2, first) == 0 && token3 && strcmp(token3, "test") == 0
unfoldable pub is_test : ℕ → Bytes → Option ℕ → Cmd Shell Bool
is_test token2 first none = is_word token2 first >>= λ b. pure false
is_test token2 first (some token3) = do
  a ← is_word token2 first
  b ← is_word token3 test_word
  pure (a && b)

-- From the third and the fourth word on.
unfoldable pub queue_tokens : ℕ → Programs → ℕ → Option ℕ → Option ℕ → Cmd Shell Outcome
queue_tokens fuel programs token2 token3 token4 = do
  is_syscall ← is_test token2 syscall_word token3
  is_process ← is_test token2 process_word token3
  if is_syscall
      then (do
        priority ← priority_from token4
        say "Queueing syscall_test process...\n"
        queue_process fuel programs.syscall_test priority
        pure continues)
      else if is_process
      then (do
        priority ← priority_from token4
        say "Queueing process_test process...\n"
        queue_process fuel programs.process_test priority
        pure continues)
      else (do
        priority ← priority_from token3
        queue_named fuel token2 priority (process_commands programs))

unfoldable pub start_processes : ℕ → ℕ → Cmd Shell Outcome
start_processes fuel esp = do
  say "Starting scheduled processes...\n"
  next ← on_kernel (schedule fuel esp)
  pure (leaves next)

unfoldable pub process_command : ℕ → ℕ → Programs → Option ℕ → Cmd Shell Outcome
process_command fuel esp programs none =
    tell "Usage: process <dummy1|dummy2|dummy3|syscall test|process test|start> [priority]\n"
process_command fuel esp programs (some token2) = do
  is_start ← is_word token2 start_word
  if is_start then start_processes fuel esp else (do
    token3 ← next_token blanks
    token4 ← next_token blanks
    queue_tokens fuel programs token2 token3 token4)

-- The first word of a line. The tests change nothing.
unfoldable pub dispatch : ℕ → ℕ → Programs → Bytes → Option ℕ → Cmd Shell Outcome
dispatch fuel esp programs buffer none = pure continues
dispatch fuel esp programs buffer (some token1) = do
  is_exit ← is_word token1 exit_word
  is_process ← is_word token1 process_word
  is_file ← is_word token1 file_word
  is_ls ← is_word token1 ls_word
  if is_exit
      then (do say "Exiting kernel CLI...\n"; pure exits)
      else if is_process
      then next_token blanks >>= process_command fuel esp programs
      else if is_file
      then next_token blanks >>= file_command buffer
      else if is_ls
      then list_all
      else tell "Unknown command. Use 'process', 'file', 'ls', or 'exit'.\n"

-- One round of `cli_loop`.
unfoldable pub cli_round : ℕ → ℕ → Programs → Bytes → Cmd Shell Outcome
cli_round fuel esp programs buffer = do
  say "CLI> "
  read_line
  token1 ← on_tokens (strtok max_input_length 3 (some 0) blanks)
  dispatch fuel esp programs buffer token1
