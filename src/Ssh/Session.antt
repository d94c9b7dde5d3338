-- ===== src/Ssh/Session.antt =====
-- internal/ssh/macos.go: a command that is run in an SSH session. What the session and the streams
-- reply is a parameter; the calls are listed in their order.
pub mod Wait
pub mod Stdin
use macos_exec_kubelet.Base.{
  ℕ, Bool, true, false, String, ◌<>◌, Option, none, some, List, [], ◌∷◌, ◌++◌, map, Error, message,
  Result, ok, err, if◌then◌else◌,
}
use Prim.Native.Char.{Char}
use macos_exec_kubelet.Api.{EnvVar}
use macos_exec_kubelet.Ssh.Quote.{build_export_env_command}
use macos_exec_kubelet.Ssh.Command.{build_exec_command_string}
use macos_exec_kubelet.Ssh.Terminal.{
  ExecIo, TermSize, get_terminal_type, get_console_size, handle_terminal_resizing,
}

pub data Call : Type 0 where
  -- the methods of the session
  request_pty : String → ℕ × ℕ → List (String × ℕ) → Call
  window_change : ℕ → ℕ → Call
  start : String → Call
  shell wait close_session : Call
  -- a write to the pipe of stdin, io.Copy of stdin to it, and its end
  write_stdin : String → Call
  copy_stdin close_stdin : Call
  -- the goroutines for resize events and for stdin
  go_resize go_copy_stdin : Call

pub record Replies : Type 0 where
  pub is_printable : Char → Bool
  pub term : String
  pub request_pty_reply : String → ℕ × ℕ → Option Error
  pub start_reply : String → Option Error
  pub shell_reply : Option Error
  pub write_reply : String → Option Error
  pub copy_reply : Option Error
  pub wait_reply : Option Error

abbrev pub Run : Type 0
Run = Option Error × List Call

-- The session with its streams.
pub record MacOsSession : Type 0 where
  pub attach : ExecIo
  pub session_stdout : Option String
  pub session_stderr : Option String

unfoldable pub new_mac_os_session : ExecIo → MacOsSession
new_mac_os_session attach = record {
  attach = attach;
  session_stdout = attach.stdout;
  session_stderr = attach.stderr;
}

-- The next calls, unless there was an error.
abbrev pub then_run : Run → Run → Run
then_run (some e, calls) next = (some e, calls)
then_run (none, calls) (e, more) = (e, calls ++ more)

abbrev modes : List (String × ℕ)
modes = ("ECHO", 1) ∷ ("TTY_OP_ISPEED", 14400) ∷ ("TTY_OP_OSPEED", 14400) ∷ []

-- The goroutine that copies stdin: the session is closed whatever the copying says.
unfoldable pub copy_in_background : List Call
copy_in_background = copy_stdin ∷ close_session ∷ []

-- The goroutine for resize events, by the event that it receives.
unfoldable pub resize_in_background : Option TermSize → List Call
unfolding handle_terminal_resizing
resize_in_background event =
    map (λ size. window_change size.height size.width) (handle_terminal_resizing event)

abbrev go_copy : Option String → List Call
go_copy none = []
go_copy (some stdin) = go_copy_stdin ∷ []

module _ (replies : Replies) where
  after_request_pty : ExecIo → Option Error → Run
  after_request_pty attach (some e) = (some (message "request for pseudo terminal failed"), [])
  after_request_pty attach none = (none, go_resize ∷ go_copy attach.stdin)

  -- The error of RequestPty is in the message, not wrapped.
  unfoldable pub setup_tty_session : ExecIo → ℕ × ℕ → Run
  unfolding after_request_pty get_terminal_type
  setup_tty_session attach size =
      let term = get_terminal_type replies.term in
      let (e, calls) = after_request_pty attach (replies.request_pty_reply term size) in
      (e, request_pty term size modes ∷ calls)

  setup_sized : ExecIo → Option (ℕ × ℕ) → Run
  unfolding setup_tty_session
  setup_sized attach none = (none, [])
  setup_sized attach (some size) = if attach.tty then setup_tty_session attach size else (none, [])

  -- The argument is the event that GetConsoleSize receives.
  unfoldable pub setup_session_io : MacOsSession → Option TermSize → Run
  unfolding setup_sized get_console_size
  setup_session_io s event = setup_sized s.attach (get_console_size (some s.attach) event)

  -- An error of a write is logged.
  unfoldable pub write_env : List EnvVar → List Call
  write_env [] = []
  write_env (e ∷ env) =
      write_stdin (build_export_env_command replies.is_printable e) ∷ write_env env

  unfoldable pub write_commands : List String → Run
  write_commands [] = (none, [])
  write_commands (c ∷ cmd) =
      then_run (replies.write_reply (c <> "\n"), write_stdin (c <> "\n") ∷ []) (write_commands cmd)

  unfoldable pub run_in_shell : List EnvVar → List String → Run
  unfolding write_env write_commands
  run_in_shell env cmd =
      then_run (replies.shell_reply, shell ∷ [])
        (then_run (none, write_env env) (write_commands cmd))

  begin : List EnvVar → List String → Result String → Run
  unfolding run_in_shell
  begin env cmd (ok text) = (replies.start_reply text, start text ∷ [])
  begin env cmd (err e) = run_in_shell env cmd

  abbrev copy_all : Option String → Run
  copy_all none = (none, [])
  copy_all (some stdin) = (replies.copy_reply, copy_stdin ∷ [])

  -- An error of the close is logged.
  finish : ExecIo → Run
  finish attach =
      if attach.tty
      then (replies.wait_reply, wait ∷ [])
      else then_run (copy_all attach.stdin) (replies.wait_reply, close_stdin ∷ wait ∷ [])

  unfoldable pub execute_command : MacOsSession → List EnvVar → List String → Run
  unfolding begin finish
  execute_command s env cmd =
      then_run (begin env cmd (build_exec_command_string replies.is_printable cmd env))
        (finish s.attach)
