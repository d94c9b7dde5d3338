-- ===== src/Ssh/Session/Wait.antt =====
-- Which calls ExecuteCommand makes, and where it stops.
use macos_exec_kubelet.Base.{
  Bool, true, false, String, ◌<>◌, Option, none, some, List, [], ◌∷◌, ◌++◌, map, Error, Result, ok,
  err, ◌≡◌, refl, ap, sym, ◌∙◌,
}
use mathlib.Core.List.{append_assoc}
use macos_exec_kubelet.Api.{EnvVar}
use macos_exec_kubelet.Ssh.Quote.{build_export_env_command}
use macos_exec_kubelet.Ssh.Command.{build_exec_command_string}
use macos_exec_kubelet.Ssh.Session.{
  Call, start, shell, wait, write_stdin, copy_stdin, close_stdin, Replies, Run, MacOsSession,
  then_run, write_env, write_commands, run_in_shell, execute_command, begin, finish,
}

-- Calls that are to be made one after the other, each with the error that stops them, if any.
abbrev pub Plan : Type 0
Plan = List (Call × Option Error)

-- They are made up to the first error, which is returned.
abbrev pub follow : Plan → Run
follow [] = (none, [])
follow ((c, some e) ∷ plan) = (some e, c ∷ [])
follow ((c, none) ∷ plan) = let (e, calls) = follow plan in (e, c ∷ calls)

abbrev pub calls_of : Plan → List Call
calls_of plan = map (λ (p : Call × Option Error). p.0) plan

follow-append : (p q : Plan) → follow (p ++ q) ≡ then_run (follow p) (follow q)
follow-append [] q = refl
follow-append ((c, some e) ∷ p) q = refl
follow-append ((c, none) ∷ p) q =
    ap (λ (r : Run). then_run (none, c ∷ []) r) (follow-append p q)
    ∙ then_run_assoc (none, c ∷ []) (follow p) (follow q)
  where
    then_run_assoc : (a b d : Run) → then_run a (then_run b d) ≡ then_run (then_run a b) d
    then_run_assoc (some e, calls) b d = refl
    then_run_assoc (none, calls) (some e, more) d = refl
    then_run_assoc (none, calls) (none, more) (e, rest) =
        ap (λ (r : List Call). (e, r)) (sym (append_assoc calls more rest))

-- One call that may fail.
call_lem : (c : Call) (reply : Option Error) → follow ((c, reply) ∷ []) ≡ (reply, c ∷ [])
call_lem c none = refl
call_lem c (some e) = refl

module _ (replies : Replies) where
  -- The exports, whose errors stop nothing, and the command, a line for each word.
  abbrev pub exports : List EnvVar → Plan
  exports env = map (λ e. (write_stdin (build_export_env_command replies.is_printable e), none)) env

  abbrev pub commands : List String → Plan
  commands cmd = map (λ c. (write_stdin (c <> "\n"), replies.write_reply (c <> "\n"))) cmd

  -- The calls up to the command: a start of its text, or a shell that reads it.
  abbrev pub begun : List EnvVar → List String → Result String → Plan
  begun env cmd (ok text) = (start text, replies.start_reply text) ∷ []
  begun env cmd (err e) = (shell, replies.shell_reply) ∷ (exports env ++ commands cmd)

  -- Without a terminal, stdin is copied and its pipe closed; then comes Wait.
  abbrev pub ended : Bool → Option String → Plan
  ended true stdin = (wait, replies.wait_reply) ∷ []
  ended false none = (close_stdin, none) ∷ (wait, replies.wait_reply) ∷ []
  ended false (some stdin) =
      (copy_stdin, replies.copy_reply) ∷ (close_stdin, none) ∷ (wait, replies.wait_reply) ∷ []

  write_env_lem : (env : List EnvVar) → (none, write_env replies env) ≡ follow (exports env)
  unfolding write_env
  write_env_lem [] = refl
  write_env_lem (e ∷ env) =
      ap
        (λ (r : Run).
          then_run (none, write_stdin (build_export_env_command replies.is_printable e) ∷ []) r)
        (write_env_lem env)

  write_commands_lem : (cmd : List String) → write_commands replies cmd ≡ follow (commands cmd)
  unfolding write_commands
  write_commands_lem [] = refl
  write_commands_lem (c ∷ cmd) = rw (write_commands_lem cmd) (
      sym (
        follow-append ((write_stdin (c <> "\n"), replies.write_reply (c <> "\n")) ∷ [])
          (commands cmd)
        ∙ ap (λ (r : Run). then_run r (follow (commands cmd))) (call_lem _ _)))

  begin_lem :
      (env : List EnvVar) (cmd : List String) (text : Result String)
      → begin replies env cmd text ≡ follow (begun env cmd text)
  unfolding begin run_in_shell
  begin_lem env cmd (ok text) = sym (call_lem _ _)
  begin_lem env cmd (err e) =
      ap
        (λ (r : Run).
          then_run (replies.shell_reply, shell ∷ []) (then_run r (write_commands replies cmd)))
        (write_env_lem env)
      ∙ ap
          (λ (r : Run).
            then_run (replies.shell_reply, shell ∷ []) (then_run (follow (exports env)) r))
          (write_commands_lem cmd)
      ∙ sym (
          follow-append ((shell, replies.shell_reply) ∷ []) (exports env ++ commands cmd)
          ∙ ap (λ (r : Run). then_run r (follow (exports env ++ commands cmd))) (call_lem _ _)
          ∙ ap (λ (r : Run). then_run (replies.shell_reply, shell ∷ []) r)
              (follow-append (exports env) (commands cmd)))

  copy_lem :
      (copied reply : Option Error)
      → then_run (copied, copy_stdin ∷ []) (reply, close_stdin ∷ wait ∷ [])
        ≡ follow ((copy_stdin, copied) ∷ (close_stdin, none) ∷ (wait, reply) ∷ [])
  copy_lem (some e) reply = refl
  copy_lem none none = refl
  copy_lem none (some e) = refl

  close_lem :
      (reply : Option Error)
      → then_run (none, []) (reply, close_stdin ∷ wait ∷ [])
        ≡ follow ((close_stdin, none) ∷ (wait, reply) ∷ [])
  close_lem none = refl
  close_lem (some e) = refl

  finish_lem :
      (tty : Bool) (stdin stdout stderr : Option String)
      → finish replies (record { tty = tty; stdin = stdin; stdout = stdout; stderr = stderr })
        ≡ follow (ended tty stdin)
  unfolding finish
  finish_lem true stdin stdout stderr = sym (call_lem _ _)
  finish_lem false none stdout stderr = close_lem _
  finish_lem false (some stdin) stdout stderr = copy_lem _ _

  pub execute_command-follow :
      (s : MacOsSession) (env : List EnvVar) (cmd : List String)
      → execute_command replies s env cmd
        ≡ follow (
            begun env cmd (build_exec_command_string replies.is_printable cmd env)
            ++ ended s.attach.tty s.attach.stdin)
  unfolding execute_command
  execute_command-follow s env cmd =
      let text = build_exec_command_string replies.is_printable cmd env in
      rw
        (
          follow-append (begun env cmd text) (ended s.attach.tty s.attach.stdin),
          ← begin_lem env cmd text,
        )
        (ap (λ (r : Run). then_run (begin replies env cmd text) r)
          (finish_lem s.attach.tty s.attach.stdin s.attach.stdout s.attach.stderr))
