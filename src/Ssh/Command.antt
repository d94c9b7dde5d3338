-- ===== src/Ssh/Command.antt =====
-- BuildExecCommandString of internal/utils/cmd.go: the text that a remote shell is sent.
pub mod Reading
use macos_exec_kubelet.Base.{
  Bool, String, if◌then◌else◌, ◌==◌, string_eq, ◌<>◌, List, [], ◌∷◌, Error, message, Result, ok,
  err,
}
use Prim.Native.Char.{Char}
use macos_exec_kubelet.Api.{EnvVar}
use macos_exec_kubelet.Ssh.Quote.{quote, build_export_env_command}

module _ (is_printable : Char → Bool) where
  unfoldable pub build_exports : List EnvVar → String
  build_exports [] = ""
  build_exports (e ∷ env) = build_export_env_command is_printable e <> build_exports env

  unfoldable pub build_arguments : List String → String
  build_arguments [] = ""
  build_arguments (a ∷ args) = " " <> (quote is_printable a <> build_arguments args)

  abbrev pub build_command : String → String → String → List String → String
  build_command shell flag script args =
      shell <> (" " <> (flag <> (" $'" <> (script <> ("'" <> build_arguments args)))))

  abbrev not_shell : Result String
  not_shell = err (message "command is not a shell exec command")

  unfoldable pub build_exec_command_string : List String → List EnvVar → Result String
  unfolding build_exports build_arguments
  build_exec_command_string (shell ∷ flag ∷ script ∷ args) env =
      if flag == "-c"
      then ok (build_exports env <> build_command shell flag script args)
      else not_shell
  build_exec_command_string _ env = not_shell
