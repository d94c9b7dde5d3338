-- ===== src/Ssh/Command/Reading.antt =====
-- What a shell reads of the text that BuildExecCommandString makes.
use macos_exec_kubelet.Base.{
  Bool, nat_eq, ℕ_discrete, string_eq, ◌<>◌, Option, none, some, List, [], ◌∷◌, ◌++◌, map, ok, ◌≡◌,
  ◌≢◌, refl, ap, ◌∙◌, ==_refl,
}
use mathlib.Core.Option as Option
use Prim.Native.String.{String}
use Prim.Native.String.append
use Prim.Native.Char.{Char}
use text.Mathlib.TextLemmas.{append-nil, append_assoc}
use macos_exec_kubelet.Api.{EnvVar}
use macos_exec_kubelet.Ssh.Quote.{quote, export_value, build_export_env_command}
use macos_exec_kubelet.Ssh.Quote.Reading.{IsPlain, read-quote, has_newline-IsPlain}
use macos_exec_kubelet.Ssh.Command.{
  build_exports, build_arguments, build_command, build_exec_command_string,
}
use macos_exec_kubelet.Ssh.Shell.{before, in_word, Reading, cut_word, cut_line, all_lines}
use macos_exec_kubelet.Ssh.Shell.Text.{kind, push, read, read_lines}
use macos_exec_kubelet.Ssh.Shell.Words.{
  Each, IsOrdinary, IsRaw, prefixed, prefixed-some, read_space, read_newline, read-ordinary,
  read_first, read_ansi,
}

module _ (is_printable : Char → Bool) where
  abbrev pub AllPlain : List String → Type 0
  AllPlain [] = Unit
  AllPlain (a ∷ args) = Each (IsPlain is_printable) a × AllPlain args

  read_arguments :
      (args : List String)
      → AllPlain args
      → read in_word (build_arguments is_printable args)
        ≡ some (record { word = ""; words = args; lines = [] })
  unfolding build_arguments read
  read_arguments [] v = refl
  read_arguments (a ∷ args) (p, v) =
      rw
        (
          read_space (quote is_printable a <> build_arguments is_printable args),
          (read-quote is_printable a (build_arguments is_printable args) p).0,
          read_arguments args v,
          prefixed-some a (record { word = ""; words = args; lines = [] }),
          append-nil a,
        )
        refl

  abbrev command_flag : String
  command_flag = "-c"

  flag_lem : (command_flag ≢ "") × Each IsOrdinary command_flag
  unfolding kind nat_eq ℕ_discrete
  flag_lem = (λ p. cc, (refl, (refl, tt)))

  -- The words that the shell is to be given: itself, its flag, the script, and the arguments.
  read_command :
      (shell script : String) (args : List String)
      → shell ≢ ""
      → Each IsOrdinary shell
      → Each IsRaw script
      → AllPlain args
      → read before (build_command is_printable shell "-c" script args)
        ≡ some (record { word = shell; words = "-c" ∷ script ∷ args; lines = [] })
  read_command shell script args n v w a =
      let tail = " $'" <> (script <> ("'" <> build_arguments is_printable args)) in
      rw
        (
          read_first shell (" " <> ("-c" <> tail)) n v,
          read_space ("-c" <> tail),
          read_first "-c" tail flag_lem.0 flag_lem.1,
          read_ansi script (build_arguments is_printable args) w,
          read_arguments args a,
          prefixed-some script (record { word = ""; words = args; lines = [] }),
          append-nil script,
        )
        (prefixed-some shell (record { word = ""; words = "-c" ∷ script ∷ args; lines = [] })
          ∙ rw (append-nil shell) refl)

  -- The name can stand in an assignment, and the value is plain.
  abbrev pub IsPlainVar : EnvVar → Type 0
  IsPlainVar e = (e.name ≢ "") × Each IsOrdinary e.name × Each (IsPlain is_printable) e.value

  abbrev pub export_words : EnvVar → List String
  export_words e = "export" ∷ (e.name <> ("=" <> e.value)) ∷ []

  build_export_lem :
      (e : EnvVar) (t : String)
      → Each (IsPlain is_printable) e.value
      → build_export_env_command is_printable e <> t
        ≡ "export" <> (" " <> (e.name <> ("=" <> (quote is_printable e.value <> ("\n" <> t)))))
  unfolding build_export_env_command export_value
  build_export_lem e t v =
      let q = quote is_printable e.value in
      rw
        (
          has_newline-IsPlain is_printable e.value v,
          append_assoc "export " (e.name <> ("=" <> (q <> "\n"))) t,
          append_assoc e.name ("=" <> (q <> "\n")) t,
          append_assoc "=" (q <> "\n") t,
          append_assoc q "\n" t,
        )
        (append_assoc "export" " " (e.name <> ("=" <> (q <> ("\n" <> t)))))

  abbrev command_word : String
  command_word = "export"

  abbrev assignment : String
  assignment = "="

  export_lem : (command_word ≢ "") × Each IsOrdinary command_word × Each IsOrdinary assignment
  unfolding kind nat_eq ℕ_discrete
  export_lem = (λ p. cc, (refl, (refl, (refl, (refl, (refl, (refl, tt)))))), (refl, tt))

  read_export :
      (e : EnvVar) (t : String) (r : Reading)
      → IsPlainVar e
      → read before t ≡ some r
      → read before (build_export_env_command is_printable e <> t)
        ≡ some (record {
          word = "export";
          words = (e.name <> ("=" <> e.value)) ∷ [];
          lines = all_lines r;
        })
  read_export e t r (n, o, v) h =
      let after = quote is_printable e.value <> ("\n" <> t) in
      rw
        (
          build_export_lem e t v,
          read_first "export" (" " <> (e.name <> ("=" <> after))) export_lem.0 export_lem.1,
          read_space (e.name <> ("=" <> after)),
          read_first e.name ("=" <> after) n o,
          read-ordinary "=" after export_lem.2,
          (read-quote is_printable e.value ("\n" <> t) v).1,
          read_newline t,
          h,
          prefixed-some e.value (cut_line r),
          append-nil e.value,
        )
        (ap (λ q. prefixed "export" (Option.map cut_word q))
            (prefixed-some e.name (push "=" (record (cut_line r) { word = e.value })))
          ∙ rw (append.cons "=" "" e.value, append.nil e.value) refl)

  abbrev pub AllPlainVars : List EnvVar → Type 0
  AllPlainVars [] = Unit
  AllPlainVars (e ∷ env) = IsPlainVar e × AllPlainVars env

  lines_of :
      (o : Option Reading) (ls : List (List String))
      → Option.map all_lines o ≡ some ls
      → (r : Reading) × (o ≡ some r) × (all_lines r ≡ ls)
  lines_of none ls h = cc
  lines_of (some r) ls h = (r, refl, cc)

  read_exports :
      (env : List EnvVar) (t : String) (ls : List (List String))
      → AllPlainVars env
      → read_lines t ≡ some ls
      → read_lines (build_exports is_printable env <> t) ≡ some (map export_words env ++ ls)
  unfolding build_exports
  read_exports [] t ls v h = rw (append.nil t) h
  read_exports (e ∷ env) t ls (v, vs) h =
      let rest = build_exports is_printable env <> t in
      let (r, p, q) = lines_of (read before rest) _ (read_exports env t ls vs h) in
      rw
        (
          append_assoc (build_export_env_command is_printable e) (build_exports is_printable env) t,
          read_export e rest r v p,
          q,
        )
        refl

-- A shell that is sent the text of BuildExecCommandString reads one export for each variable, of the
-- name and the value that it has, and then the command, word for word. The command is a shell, `-c`,
-- a script and its arguments; the name of the shell and those of the variables have only characters
-- that are not special to a shell, the script has no `\'` and no backslash, and the values and the
-- arguments are printable and have no `$` and no backquote.
pub build_exec_command_string-read_lines :
    (is_printable : Char → Bool) (shell script : String) (args : List String) (env : List EnvVar)
    → shell ≢ ""
    → Each IsOrdinary shell
    → Each IsRaw script
    → AllPlain is_printable args
    → AllPlainVars is_printable env
    → let cmd = shell ∷ "-c" ∷ script ∷ args in
      (text : String) × (build_exec_command_string is_printable cmd env ≡ ok text)
      × (read_lines text ≡ some (map (export_words is_printable) env ++ (cmd ∷ [])))
unfolding build_exec_command_string
build_exec_command_string-read_lines is_printable shell script args env n v w a e =
    let command = build_command is_printable shell "-c" script args in
    (
      build_exports is_printable env <> command,
      rw (==_refl {A = String} "-c") refl,
      read_exports is_printable env command _ e
          (ap (Option.map all_lines) (read_command is_printable shell script args n v w a)),
    )
