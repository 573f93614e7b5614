-- ===== src/Shell/Rounds.antt =====
-- A round of the shell, whatever was typed, ends and keeps the kernel sound.
use Prim.Native.String.{String}
use apna_os.Prelude.{
  true, ap, ◌∙◌, ℕ, ◌+◌, ◌≤◌, ◌≡◌, refl, arith, Bool, false, ◌&&◌, Option, none, some, List, [],
  ◌∷◌, ◌++◌, sym, subst, Bytes,
}
use apna_os.Prelude.Int.{ℤ, pos}
use apna_os.Prelude.Run
use apna_os.Prelude.Run.{
  Run, Cmd, done, pure, and_then, Returns, returns, Ends, ends, stops, Returns-Ends, bind-Ends,
  mono-Ends, ◌>>=◌, ◌>>◌,
}
use apna_os.Disk.Valid.{IsValid}
use apna_os.Text.Tokens.{Tokens, strtok}
use apna_os.Syscalls.Session.{IsSound}
use apna_os.Scheduler.Create.{Overhangs}
use apna_os.Shell.{
  Shell, message, within_shell, on_tokens, say, blanks, max_input_length, Outcome, continues,
  leaves, read_line, is_word, next_token,
}
use apna_os.Shell.Files.{ls_word, read_word}
use apna_os.Shell.Commands.{
  Programs, process_commands, exit_word, process_word, start_word, syscall_word, test_word,
  file_word, priority_from, queue_process, queue_named, is_test, queue_tokens, start_processes,
  process_command, dispatch, cli_round,
}
use apna_os.Shell.Line.{IsToken, blanks-spells, Cut, strtok-Cut, read_line-ReadLine}
use apna_os.Shell.Reads.{is_word-same, number_at-same}
use apna_os.Shell.Sound.{
  Sound, Sound-mono, then-Ends, if-Ends, tell-Sound, next_token-Next, queue_process-Sound,
  schedule-Sound,
}
use apna_os.Shell.Requests.{AreTokens, Overrun, list_all-Sound, file_command-Ends}

is_test-same :
    (token2 : ℕ) (w : Bytes) (token3 : Option ℕ) (s : Shell)
    → IsToken s.tokens token2
    → AreTokens s token3
    → (b : Bool) × (is_test token2 w token3 s ≡ done b s)
unfolding is_test
is_test-same token2 w none s k h = let (b, e) = is_word-same token2 w s k in (false, rw e refl)
is_test-same token2 w (some q) s k h =
    let (a, e) = is_word-same token2 w s k in
    let (b, e') = is_word-same q test_word s (h q refl) in (a && b, rw (e, e') refl)

priority_from-same :
    (token : Option ℕ) (s : Shell)
    → AreTokens s token
    → (n : ℤ) × (priority_from token s ≡ done n s)
unfolding priority_from
priority_from-same none s h = (pos 1, refl)
priority_from-same (some q) s h = number_at-same q s (h q refl)

module _ {n : ℕ} (fuel : ℕ) (enough : n ≤ fuel + 1) where
  -- A message, and then a process.
  queued-Sound :
      (m : String) (entry_point : ℕ) (priority : ℤ) (s : Shell)
      → Sound n s
      → Ends
          (Overhangs s.kernel.memory)
          (λ _ s'. Sound (n + 1) s')
          ((say m >> (queue_process fuel entry_point priority >> pure continues)) s)
  queued-Sound m entry_point priority s v =
      let s1 : Shell = record s { printed = s.printed ++ message m ∷ [] } in
      let v1 : Sound n s1 = record { valid = v.valid; kernel = v.kernel; line = v.line } in
      bind-Ends (queue_process-Sound fuel entry_point priority s1 v1 enough)
        λ _ s2 _ v2. ends {a = continues} v2

  queue_named-Sound :
      (token : ℕ) (priority : ℤ) (commands : List (Bytes × ℕ)) (s : Shell)
      → Sound n s
      → IsToken s.tokens token
      → Ends
          (Overhangs s.kernel.memory)
          (λ _ s'. Sound (n + 1) s')
          (queue_named fuel token priority commands s)
  unfolding queue_named
  queue_named-Sound token priority [] s v k =
      Returns-Ends (tell-Sound "Error: Unknown process name.\n" s (Sound-mono (omega arith) v))
  queue_named-Sound token priority ((name, func) ∷ commands) s v k =
      let (b, e) = is_word-same token name s k in
      rw e (
        if-Ends b _ _ (λ _. queued-Sound "Queueing process...\n" func priority s v)
          (queue_named-Sound token priority commands s v k))

  queue_tokens-Sound :
      (programs : Programs) (token2 : ℕ) (token3 token4 : Option ℕ) (s : Shell)
      → Sound n s
      → IsToken s.tokens token2
      → AreTokens s token3
      → AreTokens s token4
      → Ends
          (Overhangs s.kernel.memory)
          (λ _ s'. Sound (n + 1) s')
          (queue_tokens fuel programs token2 token3 token4 s)
  unfolding queue_tokens
  queue_tokens-Sound programs token2 token3 token4 s v k h3 h4 =
      let (a, e1) = is_test-same token2 syscall_word token3 s k h3 in
      let (b, e2) = is_test-same token2 process_word token3 s k h3 in
      let (p4, e4) = priority_from-same token4 s h4 in
      let (p3, e3) = priority_from-same token3 s h3 in
      rw (e1, e2)
        (if-Ends a _ _
          (λ _.
            rw e4 (queued-Sound "Queueing syscall_test process...\n" programs.syscall_test p4 s v))
          (if-Ends b _ _
            (λ _.
              rw e4
                (queued-Sound "Queueing process_test process...\n" programs.process_test p4 s v))
            (rw e3 (queue_named-Sound token2 p3 (process_commands programs) s v k))))

  start_processes-Sound :
      (esp : ℕ) (s : Shell)
      → Sound n s
      → Returns (λ _ s'. Sound (n + 1) s') (start_processes fuel esp s)
  unfolding start_processes
  start_processes-Sound esp s v =
      let s1 : Shell = record s {
        printed = s.printed ++ message "Starting scheduled processes...\n" ∷ [];
      } in
      let v1 : Sound n s1 = record { valid = v.valid; kernel = v.kernel; line = v.line } in
      Run.bind (schedule-Sound fuel esp s1 v1 enough) λ next s2 v2. returns {a = leaves next} v2

  process_command-Sound :
      (esp : ℕ) (programs : Programs) (token2 : Option ℕ) (s : Shell)
      → Sound n s
      → AreTokens s token2
      → Ends
          (Overhangs s.kernel.memory)
          (λ _ s'. Sound (n + 1) s')
          (process_command fuel esp programs token2 s)
  unfolding process_command
  process_command-Sound esp programs none s v h = Returns-Ends (
      tell-Sound
        "Usage: process <dummy1|dummy2|dummy3|syscall test|process test|start> [priority]\n" s
        (Sound-mono (omega arith) v))
  process_command-Sound esp programs (some token2) s v h =
      let k = h token2 refl in
      let (b, e) = is_word-same token2 start_word s k in
      rw e (
        if-Ends b _ _ (λ _. Returns-Ends (start_processes-Sound esp s v))
          (then-Ends (next_token-Next (32 ∷ 9 ∷ []) blanks s blanks-spells (omega arith) v)
            λ token3 s1 _ r.
              then-Ends
                (next_token-Next (32 ∷ 9 ∷ []) blanks s1 blanks-spells (omega arith) r.sound)
                λ token4 s2 _ r'.
                  subst
                    (λ k.
                      Ends (Overhangs k.memory) (λ _ s'. Sound (n + 1) s')
                        (queue_tokens fuel programs token2 token3 token4 s2))
                    (r'.kernel ∙ r.kernel)
                    (queue_tokens-Sound programs token2 token3 token4 s2 r'.sound
                      (r'.kept token2 (r.kept token2 k)) (λ q e. r'.kept q (r.taken q e))
                      r'.taken)))

-- Why a round leaves an array, where its first word is at `token1`: it is `file`, the second is `read`,
-- and the file that the third names fills the buffer; or it is `process`, and the heap gives a stack
-- that reaches past the end of the memory.
pub data Trap (buffer : Bytes) (token1 : ℕ) (s : Shell) : Type 0 where
  file_read :
      (operation name : ℕ) (s1 s2 : Shell)
      → is_word token1 file_word s ≡ done true s
      → next_token blanks s ≡ done (some operation) s1
      → is_word operation read_word s1 ≡ done true s1
      → next_token blanks s1 ≡ done (some name) s2
      → Overrun buffer s2 name
      → Trap buffer token1 s
  queueing :
      is_word token1 process_word s ≡ done true s → Overhangs s.kernel.memory → Trap buffer token1 s

-- The round of a line that leads there.
pub record Trapped (buffer : Bytes) (s : Shell) : Type 0 where
  pub read : Shell
  pub started : Shell
  pub token1 : ℕ
  pub line : (say "CLI> " >> read_line) s ≡ done tt read
  pub first :
      on_tokens (strtok max_input_length 3 (some 0) blanks) read ≡ done (some token1) started
  pub fs : started.fs ≡ s.fs
  pub kernel : started.kernel ≡ s.kernel
  pub trap : Trap buffer token1 started

grown-Ends :
    {n : ℕ} {F : Type 0} {r : Run Shell Outcome}
    → Ends F (λ _ s'. Sound n s') r
    → Ends F (λ _ s'. Sound (n + 1) s') r
grown-Ends r = mono-Ends r (λ f. f) (λ _ _ v. Sound-mono (omega arith) v)

module _ {n : ℕ} (fuel esp : ℕ) (programs : Programs) (buffer : Bytes) (enough : n ≤ fuel + 1) where
  dispatch-Ends :
      {F : Type 0} (token1 : Option ℕ) (s : Shell)
      → Sound n s
      → AreTokens s token1
      → ((q : ℕ) → token1 ≡ some q → Trap buffer q s → F)
      → Ends F (λ _ s'. Sound (n + 1) s') (dispatch fuel esp programs buffer token1 s)
  unfolding dispatch
  dispatch-Ends none s v h why = ends (Sound-mono (omega arith) v)
  dispatch-Ends (some token1) s v h why =
      let k = h token1 refl in
      let (is_exit, e1) = is_word-same token1 exit_word s k in
      let (is_process, e2) = is_word-same token1 process_word s k in
      let (is_file, e3) = is_word-same token1 file_word s k in
      let (is_ls, e4) = is_word-same token1 ls_word s k in
      rw (e1, e2, e3, e4)
        (if-Ends is_exit _ _
          (λ _. ends (
            Sound-mono (omega arith)
              (record { valid = v.valid; kernel = v.kernel; line = v.line })))
          (if-Ends is_process _ _
            (λ t.
              then-Ends (next_token-Next (32 ∷ 9 ∷ []) blanks s blanks-spells (omega arith) v)
                λ token2 s1 _ r.
                  mono-Ends
                    (process_command-Sound fuel enough esp programs token2 s1 r.sound r.taken)
                    (λ over. why token1 refl (
                      queueing (subst (λ b. is_word token1 process_word s ≡ done b s) t e2)
                        (subst (λ k. Overhangs k.memory) r.kernel over)))
                    (λ _ _ v. v))
            (if-Ends is_file _ _
              (λ t.
                then-Ends (next_token-Next (32 ∷ 9 ∷ []) blanks s blanks-spells (omega arith) v)
                  λ operation s1 e r. grown-Ends (
                    file_command-Ends s1 r.sound buffer operation r.taken
                      λ op here is_read q s2 e' over. why token1 refl (
                        file_read op q s1 s2
                          (subst (λ b. is_word token1 file_word s ≡ done b s) t e3)
                          (e ∙ ap (λ o. done o s1) here) is_read e' over)))
              (if-Ends is_ls _ _ (λ _. Returns-Ends (list_all-Sound s (Sound-mono (omega arith) v)))
                (Returns-Ends (
                  tell-Sound "Unknown command. Use 'process', 'file', 'ls', or 'exit'.\n" s
                    (Sound-mono (omega arith) v)))))))

  -- The first word of a line.
  first-Ends :
      {F : Type 0} (s : Shell) (run : Run Tokens (Option ℕ))
      → IsValid s.fs
      → IsSound n s.kernel
      → Returns (Cut (some 0) s.tokens) run
      → ((q : ℕ) (s' : Shell)
          → within_shell (λ t. record s { tokens = t }) run ≡ done (some q) s'
          → s'.fs ≡ s.fs
          → s'.kernel ≡ s.kernel
          → Trap buffer q s'
          → F)
      → Ends F
          (λ _ s'. Sound (n + 1) s')
          (and_then
            (within_shell (λ t. record s { tokens = t }) run)
            (dispatch fuel esp programs buffer))
  first-Ends s _ valid kernel (returns {a = token1} {s = t} w) why =
      let s1 : Shell = record s { tokens = t } in
      dispatch-Ends token1 s1 (record { valid = valid; kernel = kernel; line = w.line }) w.taken
        λ q e trap. why q s1 (ap (λ o. done o s1) e) refl refl trap

  -- A round of the shell on a valid file system and a sound kernel, whatever line was typed, with as
  -- much fuel for the ready queue as processes can be ready, ends, be it in the next round, in the end
  -- of the shell or with `schedule` leaving it: the file system is valid then, the kernel is sound with
  -- at most one more process ready, and `strtok` has a line that ends within the shell's buffer. Or it
  -- writes behind an array, for one of two reasons. The first three words of the line are `file`,
  -- `read` and a name under which `read_file` gives the full 128 bytes of the buffer, the end of the
  -- string being stored behind them; or the first word is `process`, and the block that the heap gives
  -- for the stack of a new process reaches past the end of `kernel_memory`.
  pub cli_round-Ends :
      (s : Shell)
      → IsValid s.fs
      → IsSound n s.kernel
      → Ends (Trapped buffer s) (λ _ s'. Sound (n + 1) s') (cli_round fuel esp programs buffer s)
  unfolding cli_round
  cli_round-Ends s valid kernel =
      let s1 : Shell = record s { printed = s.printed ++ message "CLI> " ∷ [] } in
      then-Ends (read_line-ReadLine s1) λ _ s2 e r.
        first-Ends s2 (strtok max_input_length 3 (some 0) blanks s2.tokens)
          (subst IsValid (sym r.fs) valid) (subst (IsSound n) (sym r.kernel) kernel)
          (strtok-Cut (32 ∷ 9 ∷ []) blanks blanks-spells (omega arith) (some 0) s2.tokens 0 refl
            r.text)
          λ q s3 e' same_fs same_kernel trap. record {
            read = s2;
            started = s3;
            token1 = q;
            line = e;
            first = e';
            fs = same_fs ∙ r.fs;
            kernel = same_kernel ∙ r.kernel;
            trap = trap;
          }
