-- ===== src/Shell/Tests.antt =====
-- The shell on a typed line.
use apna_os.Prelude.{arith, [], ◌∷◌, none, true, of_list}
use apna_os.Disk.State.{format_disk}
use apna_os.Disk.Format.{format_disk-IsValid}
use apna_os.Disk.Tests.{blank}
use apna_os.Keyboard.Handler.{power_on}
use apna_os.Scheduler.Tests.{two_processes, two_processes-IsKernel}
use apna_os.Shell.{Shell}
use apna_os.Shell.Commands.{Programs, cli_round}
use apna_os.Shell.Sound.{Sound}
use apna_os.Prelude.Run.{Ends}
use apna_os.Shell.Rounds.{Trapped, cli_round-Ends}

-- The line "file read a" is typed.
abbrev typed : Shell
typed = record {
  keyboard = record power_on {
    input_line =
        of_list 0 (b'f' ∷ b'i' ∷ b'l' ∷ b'e' ∷ 32 ∷ b'r' ∷ b'e' ∷ b'a' ∷ b'd' ∷ 32 ∷ b'a' ∷ []);
    input_ready = true;
  };
  tokens = record { line = λ i. 0; static_str = none };
  fs = format_disk blank;
  kernel = two_processes;
  printed = [];
}

abbrev programs : Programs
programs = record {
  syscall_test = 65536;
  process_test = 65792;
  dummy_process_1 = 66048;
  dummy_process_2 = 66304;
  dummy_process_3 = 66560;
}

cli_round-Ends_example :
    Ends (Trapped (λ i. 7) typed) (λ _ s'. Sound 3 s') (cli_round 1 20000 programs (λ i. 7) typed)
cli_round-Ends_example =
    cli_round-Ends {n = 2} 1 20000 programs (λ i. 7) (omega arith) typed
      (format_disk-IsValid blank).0
      (record { ready = 8 ∷ []; kernel = two_processes-IsKernel; few = omega arith })
