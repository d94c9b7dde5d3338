-- ===== src/Startup/Main.antt =====
-- main of cmd/virtual-kubelet/main.go. The host and the libraries are a parameter.
pub mod Ends
use macos_exec_kubelet.Base.{
  String, Bool, true, false, ◌||◌, not, Option, none, some, List, [], ◌∷◌, Error, message, wrap,
  joined, not_found, invalid_input, exit_error, external, api_not_found, Result, ok, err, ◌==◌,
  string_eq, if◌then◌else◌,
}
use macos_exec_kubelet.Startup.Run.{NodeCall}
use macos_exec_kubelet.Startup.Settings.{Settings, Env, CommandLine, initial, parse_flags}

-- The replies of homedir.Dir ("" when there is none), filepath.Join, ClientsetFromEnv, os.Hostname
-- in lower case, logrus.ParseLevel and the parser of the command line, which finds nothing to run
-- when help is asked for; and whether an invalid input unwraps to its error.
pub record Host : Type 0 where
  pub env : Env
  pub home_dir : String
  pub join : List String → String
  pub clientset_from_env : String → Option Error
  pub hostname : Result String
  pub parse_level : String → Option Error
  pub command_line : Result (Option CommandLine)
  pub invalid_input_unwraps : Bool

-- The program returns from main, or logs an error and exits with code 1.
pub data Exit : Type 0 where
  finished : Exit
  fatal : Error → Exit

abbrev pub canceled : Error
canceled = external "context canceled"

-- errors.Is(err, context.Canceled)
unfoldable pub is_canceled : Bool → Error → Bool
is_canceled u (external s) = s == "context canceled"
is_canceled u (wrap s e) = is_canceled u e
is_canceled u (joined e f) = let a = is_canceled u e in let b = is_canceled u f in a || b
is_canceled u (invalid_input e) = let a = is_canceled u e in if u then a else false
is_canceled u (message s) = false
is_canceled u (not_found s) = false
is_canceled u (exit_error z) = false
is_canceled u (api_not_found s) = false

-- A run of the node: the error that it returns, and the calls on the node.
abbrev pub Run : Type 0
Run = Settings → Option Error × List NodeCall

module _ (host : Host) (run : Run) where
  unfoldable pub exit_of : Option Error → Exit
  unfolding is_canceled
  exit_of none = finished
  exit_of (some e) = if not (is_canceled host.invalid_input_unwraps e) then fatal e else finished

  after_level : Settings → Option Error → Exit × List NodeCall
  unfolding exit_of
  after_level s (some e) = (fatal e, [])
  after_level s none = let (e, calls) = run s in (exit_of e, calls)

  execute : Settings → String → Result (Option CommandLine) → Exit × List NodeCall
  unfolding after_level exit_of parse_flags
  execute s name (err e) = (exit_of (some e), [])
  execute s name (ok none) = (finished, [])
  execute s name (ok (some args)) =
      let t = parse_flags host.env name args s in after_level t (host.parse_level t.log_level)

  after_hostname : Settings → Result String → Exit × List NodeCall
  unfolding execute
  after_hostname s (err e) = (fatal e, [])
  after_hostname s (ok name) = execute s name host.command_line

  after_clientset : Settings → Option Error → Exit × List NodeCall
  unfolding after_hostname
  after_clientset s (some e) = (fatal e, [])
  after_clientset s none = after_hostname s host.hostname

  kube_config : String → String
  kube_config path =
      if path == ""
      then (if not (host.home_dir == "")
          then host.join (host.home_dir ∷ ".kube" ∷ "config" ∷ [])
          else path)
      else path

  unfoldable pub main : Exit × List NodeCall
  unfolding after_clientset initial kube_config
  main =
      let s = initial host.env in
      let path = kube_config s.kube_config_path in
      after_clientset (record s { kube_config_path = path }) (host.clientset_from_env path)
