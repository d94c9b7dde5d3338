-- ===== src/Tests/Ssh.antt =====
-- DialContext and ExecuteCommand on concrete runs.
use macos_exec_kubelet.Base.{◌&&◌, ◌||◌, not, string_eq}
use macos_exec_kubelet.Ssh.Terminal.{get_console_size}
use macos_exec_kubelet.Base.{
  Bool, true, false, String, none, some, List, [], ◌∷◌, ◌++◌, map, message, ok, ◌≡◌, ◌≢◌, ◌≤◌, ◌⊎◌,
  refl, nat_eq, ℕ_discrete,
}
use Prim.Native.Char.{Char}
use macos_exec_kubelet.Api.{EnvVar}
use macos_exec_kubelet.Ssh.Command.{build_exec_command_string}
use macos_exec_kubelet.Ssh.Command.Reading.{
  AllPlain, AllPlainVars, export_words, build_exec_command_string-read_lines,
}
use macos_exec_kubelet.Ssh.Shell.Text.{kind, read_lines}
use macos_exec_kubelet.Ssh.Shell.Words.{Each, IsOrdinary, IsRaw}
use macos_exec_kubelet.Ssh.Session.{
  MacOsSession, Replies, start, wait, setup_session_io, execute_command,
}
use macos_exec_kubelet.Ssh.Session.Stdin.{copies, session_lem}
use macos_exec_kubelet.Ssh.Quote.{quote}
use macos_exec_kubelet.Base.Dict.{is_some}
use macos_exec_kubelet.Ssh.Session.Wait.{begun, ended, follow, calls_of}
use macos_exec_kubelet.Ssh.Dial.{
  waiting, returned_client, in_handshake, gave_up, is_open, is_closed, Dial, context_ends,
  handshake_succeeds, closes_client, Reach, start, later,
}
use macos_exec_kubelet.Ssh.Dial.Leaks.{HasEnded, Reach-accounted}
use macos_exec_kubelet.Ssh.Dial.Progress.{CanReturn, IsFinished, HasStep, Reach-HasStep}

-- The context ends during the handshake, which succeeds afterwards; the goroutine closes its client
-- before the caller sees that the context is done.
abbrev closed : Dial
closed = record { caller = waiting; worker = gave_up; client = is_closed; done = true }

late_client : Reach 3 closed
late_client = later (later (later start context_ends) handshake_succeeds) closes_client

Reach-accounted_example :
    (closed.caller ≡ returned_client → closed.client ≡ is_open)
    × (HasEnded closed.worker → closed.client ≡ is_open → closed.caller ≡ returned_client)
    × (closed.caller ≡ waiting → closed.worker ≡ gave_up → closed.done ≡ true)
Reach-accounted_example = Reach-accounted late_client

Reach-HasStep_example :
    (3 ≤ 4)
    × (IsFinished closed ⊎ ((closed.worker ≡ in_handshake) ⊎ HasStep closed))
    × (closed.caller ≡ waiting → closed.done ≡ true → CanReturn closed)
Reach-HasStep_example = Reach-HasStep late_client

abbrev ascii : Char → Bool
ascii c = false

abbrev shell : String
shell = "sh"

abbrev script : String
script = "ls"

abbrev argument : String
argument = "a\""

abbrev variable : EnvVar
variable = record { name = "X"; value = "1 2" }

shell_lem : (shell ≢ "") × Each IsOrdinary shell × Each IsRaw script
unfolding kind nat_eq ℕ_discrete
shell_lem = (λ p. cc, (refl, (refl, tt)), ((λ p. cc, λ p. cc), ((λ p. cc, λ p. cc), tt)))

argument_lem : AllPlain ascii (argument ∷ [])
unfolding kind nat_eq ℕ_discrete
argument_lem = (((refl, λ p. cc, λ p. cc), ((refl, λ p. cc, λ p. cc), tt)), tt)

variable_lem : AllPlainVars ascii (variable ∷ [])
unfolding kind nat_eq ℕ_discrete
variable_lem = (
  (
    λ p. cc,
    (refl, tt),
    ((refl, λ p. cc, λ p. cc), ((refl, λ p. cc, λ p. cc), ((refl, λ p. cc, λ p. cc), tt))),
  ),
  tt,
)

abbrev list_files : List String
list_files = shell ∷ "-c" ∷ script ∷ argument ∷ []

build_exec_command_string-read_lines_example :
    (text : String) × (build_exec_command_string ascii list_files (variable ∷ []) ≡ ok text)
    × (read_lines text ≡ some (map (export_words ascii) (variable ∷ []) ++ (list_files ∷ [])))
build_exec_command_string-read_lines_example =
    build_exec_command_string-read_lines ascii shell script (argument ∷ []) (variable ∷ [])
      shell_lem.0 shell_lem.1 shell_lem.2 argument_lem variable_lem

abbrev replies : Replies
replies = record {
  is_printable = ascii;
  term = "";
  request_pty_reply = λ term size. none;
  start_reply = λ text. none;
  shell_reply = none;
  write_reply = λ text. none;
  copy_reply = some (message "read failed");
  wait_reply = none;
}

abbrev session : MacOsSession
session = record {
  attach = record { tty = false; stdin = some "in"; stdout = some "out"; stderr = none };
  session_stdout = some "out";
  session_stderr = none;
}

-- Two words that are no shell's: each is a line of the shell's input. Copying stdin fails.
session_lem_example :
    let plan =
      begun replies
        (variable ∷ [])
        ("ls" ∷ "-l" ∷ [])
        (build_exec_command_string ascii ("ls" ∷ "-l" ∷ []) (variable ∷ []))
      ++ ended replies false (some "in") in
    let (e, setup) = setup_session_io replies session none in
    (execute_command replies session (variable ∷ []) ("ls" ∷ "-l" ∷ []) ≡ follow plan)
    × (e ≡ none
        → copies (setup ++ calls_of plan) ≡ (
            is_some session.attach.stdin
            && (not false || is_some (get_console_size (some session.attach) none))))
session_lem_example = session_lem replies session none (variable ∷ []) ("ls" ∷ "-l" ∷ [])

-- A terminal without a size: stdin is there, and is not copied.
abbrev sizeless : MacOsSession
sizeless = record session { attach = record (session.attach) { tty = true } }

sizeless_lem :
    (setup_session_io replies sizeless (some (record { width = 0; height = 24 })) ≡ (none, []))
    × (execute_command replies sizeless [] list_files
        ≡ (none, start "sh -c $'ls' \"a\\\"\"" ∷ wait ∷ []))
unfolding setup_session_io get_console_size execute_command build_exec_command_string quote nat_eq
    ℕ_discrete string_eq
sizeless_lem = (refl, refl)
