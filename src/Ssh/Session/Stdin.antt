-- ===== src/Ssh/Session/Stdin.antt =====
-- SetupSessionIO and ExecuteCommand together: whether stdin reaches the command.
use macos_exec_kubelet.Base.{
  ℕ, Bool, true, false, ◌&&◌, ◌||◌, not, String, Option, none, some, List, [], ◌∷◌, ◌++◌, Error,
  Result, ok, err, ◌≡◌, refl, ap, ◌∙◌, arith, Bool-cases, inl, inr,
}
use macos_exec_kubelet.Base.Dict.{is_some}
use macos_exec_kubelet.Api.{EnvVar}
use macos_exec_kubelet.Ssh.Command.{build_exec_command_string}
use macos_exec_kubelet.Ssh.Terminal.{ExecIo, TermSize, get_console_size, get_terminal_type}
use macos_exec_kubelet.Ssh.Session.{
  Call, request_pty, window_change, start, shell, wait, close_session, write_stdin, copy_stdin,
  close_stdin, go_resize, go_copy_stdin, Replies, MacOsSession, go_copy, after_request_pty,
  setup_tty_session, setup_sized, setup_session_io, execute_command,
}
use macos_exec_kubelet.Ssh.Session.Wait.{
  Plan, follow, calls_of, exports, commands, begun, ended, execute_command-follow,
}

-- Some call copies stdin, or starts the goroutine that does.
abbrev pub copies : List Call → Bool
copies [] = false
copies (copy_stdin ∷ calls) = true
copies (go_copy_stdin ∷ calls) = true
copies (_ ∷ calls) = copies calls

copies-append : (xs ys : List Call) → copies (xs ++ ys) ≡ (copies xs || copies ys)
copies-append [] ys = refl
copies-append (request_pty t s m ∷ xs) ys = copies-append xs ys
copies-append (window_change h w ∷ xs) ys = copies-append xs ys
copies-append (start t ∷ xs) ys = copies-append xs ys
copies-append (shell ∷ xs) ys = copies-append xs ys
copies-append (wait ∷ xs) ys = copies-append xs ys
copies-append (close_session ∷ xs) ys = copies-append xs ys
copies-append (write_stdin t ∷ xs) ys = copies-append xs ys
copies-append (copy_stdin ∷ xs) ys = refl
copies-append (close_stdin ∷ xs) ys = copies-append xs ys
copies-append (go_resize ∷ xs) ys = copies-append xs ys
copies-append (go_copy_stdin ∷ xs) ys = refl

module _ (replies : Replies) where
  copies-commands : (cmd : List String) → copies (calls_of (commands replies cmd)) ≡ false
  copies-commands [] = refl
  copies-commands (c ∷ cmd) = copies-commands cmd

  copies-exports :
      (env : List EnvVar) (cmd : List String)
      → copies (calls_of (exports replies env ++ commands replies cmd)) ≡ false
  copies-exports [] cmd = copies-commands cmd
  copies-exports (e ∷ env) cmd = copies-exports env cmd

  copies-ended :
      (tty : Bool) (stdin : Option String)
      → copies (calls_of (ended replies tty stdin)) ≡ (is_some stdin && not tty)
  copies-ended true none = refl
  copies-ended true (some stdin) = refl
  copies-ended false none = refl
  copies-ended false (some stdin) = refl

  copies-begun :
      (env : List EnvVar) (cmd : List String) (text : Result String)
      → copies (calls_of (begun replies env cmd text)) ≡ false
  copies-begun env cmd (ok text) = refl
  copies-begun env cmd (err e) = copies-exports env cmd

calls_of-append : (p q : Plan) → calls_of (p ++ q) ≡ calls_of p ++ calls_of q
calls_of-append [] q = refl
calls_of-append (c ∷ p) q = ap (λ (r : List Call). c.0 ∷ r) (calls_of-append p q)

copies-go_copy : (stdin : Option String) → copies (go_copy stdin) ≡ is_some stdin
copies-go_copy none = refl
copies-go_copy (some stdin) = refl

pty_lem :
    (replies : Replies) (attach : ExecIo) (reply : Option Error)
    → (after_request_pty replies attach reply).0 ≡ none
    → copies (after_request_pty replies attach reply).1 ≡ is_some attach.stdin
unfolding after_request_pty
pty_lem replies attach none h = copies-go_copy attach.stdin
pty_lem replies attach (some e) h = cc

setup_lem :
    (replies : Replies) (attach : ExecIo) (size : Option (ℕ × ℕ))
    → (setup_sized replies attach size).0 ≡ none
    → copies (setup_sized replies attach size).1
      ≡ (is_some attach.stdin && (attach.tty && is_some size))
unfolding setup_sized setup_tty_session
setup_lem replies attach none h = ground arith
setup_lem replies attach (some size) h = elim (Bool-cases attach.tty) [
  | inr p ↦ rw p (ground arith)
  | inl p ↦
      let reply = replies.request_pty_reply (get_terminal_type replies.term) size in
      let l : (after_request_pty replies attach reply).0 ≡ none = rw p at h in
      rw p (pty_lem replies attach reply l ∙ ground arith)
]

stdin_lem :
    (has_stdin tty has_size : Bool)
    → ((has_stdin && (tty && has_size)) || (false || (has_stdin && not tty)))
      ≡ (has_stdin && (not tty || has_size))
stdin_lem has_stdin tty has_size = ground arith

-- ExecuteCommand makes its calls in a fixed order, up to the first whose reply is an error, which it
-- returns: it starts the text of BuildExecCommandString, or a shell to which it writes the exports of
-- the variables and the command, a line for each word; without a terminal it then copies stdin, if
-- there is one, and closes the pipe; and then it waits. Only errors of the exports and of closing the
-- pipe are passed over. After a SetupSessionIO without an error, these calls, if all are made, and
-- those of SetupSessionIO copy stdin, or start a goroutine that does, exactly if there is one and
-- there is no terminal or the terminal has a size.
pub session_lem :
    (replies : Replies) (s : MacOsSession) (event : Option TermSize) (env : List EnvVar)
    (cmd : List String)
    → let text = build_exec_command_string replies.is_printable cmd env in
      let plan = begun replies env cmd text ++ ended replies s.attach.tty s.attach.stdin in
      let (e, setup) = setup_session_io replies s event in
      (execute_command replies s env cmd ≡ follow plan)
      × (e ≡ none
          → copies (setup ++ calls_of plan) ≡ (
              is_some s.attach.stdin
              && (not s.attach.tty || is_some (get_console_size (some s.attach) event))))
unfolding setup_session_io
session_lem replies s event env cmd =
    let text = build_exec_command_string replies.is_printable cmd env in
    let size = get_console_size (some s.attach) event in
    let sent = begun replies env cmd text in
    let rest = ended replies s.attach.tty s.attach.stdin in
    (
      execute_command-follow replies s env cmd,
      λ h.
          rw
            (
              copies-append (setup_sized replies s.attach size).1 (calls_of (sent ++ rest)),
              setup_lem replies s.attach size h,
              calls_of-append sent rest,
              copies-append (calls_of sent) (calls_of rest),
              copies-begun replies env cmd text,
              copies-ended replies s.attach.tty s.attach.stdin,
            )
            (stdin_lem (is_some s.attach.stdin) s.attach.tty (is_some size)),
    )
