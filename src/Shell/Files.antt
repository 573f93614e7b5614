-- ===== src/Shell/Files.antt =====
-- The `file` commands of `cli_loop` in kernel.c.
use Prim.Native.String.{String}
use apna_os.Prelude.{
  ℕ, ◌-◌, ◌%◌, ◌^◌, Option, none, some, [], ◌∷◌, ltb, if◌then◌else◌, Bytes, update, of_list, Bool,
  true, false,
}
use apna_os.Prelude.Int.{ℤ, pos, negsuc}
use apna_os.Prelude.Run.{Cmd, pure, get, guard, ◌>>=◌, ◌>>◌}
use apna_os.Disk.Files.{create_file, delete_file, chmod_file, list_files}
use apna_os.Disk.Transfer.{read_file, write_file, append_to_file}
use apna_os.Shell.{
  Shell, content, names, on_disk, print, say, tell, blanks, line_end, next_token, token_at, is_word,
  number_at, length_at, Outcome, continues,
}

abbrev pub is_none : Option ℕ → Bool
is_none none = true
is_none (some n) = false

-- The message for a call that returns -1, and that for the others.
abbrev pub report : Option ℕ → String → String → Cmd Shell Outcome
report r bad good = if is_none r then tell bad else tell good

unfoldable pub make_named : Option ℕ → Cmd Shell Outcome
make_named none = tell "Usage: file make <filename>\n"
make_named (some filename) = do
  s ← get
  r ← on_disk (create_file (token_at s filename))
  report r "Error: Failed to create file.\n" "File created successfully.\n"

-- What follows `read_file` into `char buffer[128]`.
unfoldable pub show_content : Option ℕ × Bytes → Cmd Shell Outcome
show_content (none, buffer) = tell "Error: Failed to read file.\n"
show_content (some bytes_read, buffer) = do
  guard (ltb bytes_read 128)
  say "File content: "
  print (content (update buffer bytes_read 0))
  tell "\n"

-- `buffer` is what the array holds before.
unfoldable pub read_named : Bytes → Option ℕ → Cmd Shell Outcome
read_named buffer none = tell "Usage: file read <filename>\n"
read_named buffer (some filename) = do
  s ← get
  r ← on_disk (read_file (token_at s filename) buffer 128)
  show_content r

unfoldable pub write_named : Option ℕ → Option ℕ → Cmd Shell Outcome
write_named none data' = tell "Usage: file write <filename> <data>\n"
write_named (some filename) none = tell "Usage: file write <filename> <data>\n"
write_named (some filename) (some data') = do
  s ← get
  n ← length_at data'
  r ← on_disk (write_file (token_at s filename) (token_at s data') n)
  report r "Error: Failed to write to file.\n" "Data written to file successfully.\n"

unfoldable pub append_named : Option ℕ → Option ℕ → Cmd Shell Outcome
append_named none data' = tell "Usage: file append <filename> <data>\n"
append_named (some filename) none = tell "Usage: file append <filename> <data>\n"
append_named (some filename) (some data') = do
  s ← get
  n ← length_at data'
  r ← on_disk (append_to_file (token_at s filename) (token_at s data') n)
  report r "Error: Failed to append to file.\n" "Data appended to file successfully.\n"

unfoldable pub remove_named : Option ℕ → Cmd Shell Outcome
remove_named none = tell "Usage: file rm <filename>\n"
remove_named (some filename) = do
  s ← get
  r ← on_disk (delete_file (token_at s filename))
  report r "Error: Failed to delete file.\n" "File deleted successfully.\n"

-- (uint16_t)n
abbrev pub to_uint16 : ℤ → ℕ
to_uint16 (pos n) = n % 2 ^ 16
to_uint16 (negsuc n) = 2 ^ 16 - 1 - n % 2 ^ 16

unfoldable pub chmod_named : Option ℕ → Option ℕ → Cmd Shell Outcome
chmod_named none perm_str = tell "Usage: file chmod <filename> <permissions>\n"
chmod_named (some filename) none = tell "Usage: file chmod <filename> <permissions>\n"
chmod_named (some filename) (some perm_str) = do
  s ← get
  n ← number_at perm_str
  r ← on_disk (chmod_file (token_at s filename) (to_uint16 n))
  report r "Error: Failed to change file permissions.\n" "File permissions changed successfully.\n"

unfoldable pub list_all : Cmd Shell Outcome
list_all = do s ← get; print (names (list_files s.fs)); pure continues

abbrev pub make_word : Bytes
make_word = of_list 0 (b'm' ∷ b'a' ∷ b'k' ∷ b'e' ∷ [])

abbrev pub read_word : Bytes
read_word = of_list 0 (b'r' ∷ b'e' ∷ b'a' ∷ b'd' ∷ [])

abbrev pub write_word : Bytes
write_word = of_list 0 (b'w' ∷ b'r' ∷ b'i' ∷ b't' ∷ b'e' ∷ [])

abbrev pub append_word : Bytes
append_word = of_list 0 (b'a' ∷ b'p' ∷ b'p' ∷ b'e' ∷ b'n' ∷ b'd' ∷ [])

abbrev pub rm_word : Bytes
rm_word = of_list 0 (b'r' ∷ b'm' ∷ [])

abbrev pub ls_word : Bytes
ls_word = of_list 0 (b'l' ∷ b's' ∷ [])

abbrev pub chmod_word : Bytes
chmod_word = of_list 0 (b'c' ∷ b'h' ∷ b'm' ∷ b'o' ∷ b'd' ∷ [])

-- The name and the argument of an operation, the second up to the delimiter that is given.
abbrev pub two_tokens : Bytes → (Option ℕ → Option ℕ → Cmd Shell Outcome) → Cmd Shell Outcome
two_tokens delim f = do filename ← next_token blanks; second ← next_token delim; f filename second

-- The tests of the operation's name, which change nothing, and what they lead to, in the order of the
-- code.
unfoldable pub file_operation : Bytes → ℕ → Cmd Shell Outcome
file_operation buffer operation = do
  is_make ← is_word operation make_word
  is_read ← is_word operation read_word
  is_write ← is_word operation write_word
  is_append ← is_word operation append_word
  is_rm ← is_word operation rm_word
  is_ls ← is_word operation ls_word
  is_chmod ← is_word operation chmod_word
  if is_make
      then next_token blanks >>= make_named
      else if is_read
      then next_token blanks >>= read_named buffer
      else if is_write
      then two_tokens line_end write_named
      else if is_append
      then two_tokens line_end append_named
      else if is_rm
      then next_token blanks >>= remove_named
      else if is_ls
      then list_all
      else if is_chmod
      then two_tokens blanks chmod_named
      else tell "Unknown file operation. Use 'make', 'read', 'write', 'append', 'rm', or 'ls'.\n"

unfoldable pub file_command : Bytes → Option ℕ → Cmd Shell Outcome
file_command buffer none = tell "Usage: file <operation> <filename> [args]\n"
file_command buffer (some operation) = file_operation buffer operation
