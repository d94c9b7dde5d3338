-- ===== src/Client/Create.antt =====
-- CreatePod of pkg/client/process.go, in the order of its steps; each step ends the call or goes on
-- with the next one. The token, the config maps and the registry credentials are arguments that
-- the method does not read.
pub mod Cleanup
pub mod Success
pub mod Willing
use macos_exec_kubelet.Base.{
  ℕ, suc, String, ◌<>◌, Bool, true, false, Option, none, some, List, [], ◌∷◌, ◌++◌, map, Error,
  message, wrap, Result, ok, err, pos, length, if◌then◌else◌, key_eq, ◌≡◌, refl,
}
use macos_exec_kubelet.Base.Dict
use macos_exec_kubelet.Base.Dict.{is_some}
use macos_exec_kubelet.Api.{Pod, pod_key, Container, EnvVar}
use macos_exec_kubelet.Client.Calls.{
  Os, Cmd, Credential, with_cancel, cancel, mkdir_all, chown, create, close, start,
}
use macos_exec_kubelet.Client.Process.{ProcessClient, ProcessState, PodProcess, note}

-- The local variables of a call that has passed the checks.
pub record Launch : Type 0 where
  pub pod : Pod
  pub container : Container
  pub command : String
  pub args : List String
  pub context : ℕ

abbrev pub env_entry : EnvVar → String
env_entry e = e.name <> "=" <> e.value

-- applyCredential
abbrev pub apply_credential : Option Credential → Cmd → Cmd
apply_credential none cmd = cmd
apply_credential (some cred) cmd = record cmd { credential = some cred }

module _ (os : Os) where
  abbrev log_dir : Launch → ProcessClient → String
  log_dir l c = os.join (c.logs_dir ∷ l.pod.namespace ∷ l.pod.name ∷ l.container.name ∷ [])

  -- The command with its environment, its user and its output files.
  abbrev pub command_of : Launch → ProcessClient → ℕ → ℕ → Cmd
  command_of l c out errs = apply_credential c.credential (record {
    path = l.command;
    args = l.args;
    env = os.environ c.calls ++ map env_entry l.container.env;
    credential = none;
    stdout = out;
    stderr = errs;
    context = l.context;
  })

  abbrev pub pod_process_of : Launch → ℕ → ℕ → PodProcess
  pod_process_of l pid time = record {
    namespace = l.pod.namespace;
    name = l.pod.name;
    pid = pid;
    command = l.command ∷ l.args;
    started_at = time;
    pod = some l.pod;
    exit_code = pos 0;
    exit_error = none;
  }

  abbrev pub state_of : Launch → ℕ → ℕ → ℕ → ℕ → ProcessState
  state_of l out errs pid time = record {
    context = l.context;
    exit_error = none;
    wait_done = false;
    pid = pid;
    started_at = time;
    pod_process = pod_process_of l pid time;
    stdout = out;
    stderr = errs;
  }

  -- The started process is stored; its goroutine begins to wait.
  unfoldable pub store : Launch → ℕ → ℕ → ℕ → ProcessClient → Option Error × ProcessClient
  store l out errs pid c = (
    none,
    record c {
      processes = Dict.insert (pod_key l.pod) (length c.states) c.processes;
      states = c.states ++ state_of l out errs pid (os.now c.calls) ∷ [];
    },
  )

  after_start : Launch → ℕ → ℕ → Result ℕ → ProcessClient → Option Error × ProcessClient
  unfolding store
  after_start l out errs (err e) c =
      (some e, note (close errs) (note (close out) (note (cancel l.context) c)))
  after_start l out errs (ok pid) c = store l out errs pid c

  start_step : Launch → ℕ → ℕ → ProcessClient → Option Error × ProcessClient
  unfolding after_start
  start_step l out errs c =
      let cmd = command_of l c out errs in
      let reply = os.start_reply c.calls cmd in
      after_start l out errs reply (note (start cmd reply) c)

  after_stderr : Launch → ℕ → Result ℕ → ProcessClient → Option Error × ProcessClient
  unfolding start_step
  after_stderr l out (err e) c = (some e, note (cancel l.context) (note (close out) c))
  after_stderr l out (ok errs) c = start_step l out errs c

  stderr_step : Launch → ℕ → ProcessClient → Option Error × ProcessClient
  unfolding after_stderr
  stderr_step l out c =
      let path = os.join (log_dir l c ∷ "stderr.log" ∷ []) in
      let reply = os.create_reply c.calls path in
      after_stderr l out reply (note (create path reply) c)

  after_stdout : Launch → Result ℕ → ProcessClient → Option Error × ProcessClient
  unfolding stderr_step
  after_stdout l (err e) c = (some e, note (cancel l.context) c)
  after_stdout l (ok out) c = stderr_step l out c

  stdout_step : Launch → ProcessClient → Option Error × ProcessClient
  unfolding after_stdout
  stdout_step l c =
      let path = os.join (log_dir l c ∷ "stdout.log" ∷ []) in
      let reply = os.create_reply c.calls path in after_stdout l reply (note (create path reply) c)

  after_chown : Launch → Option Error → ProcessClient → Option Error × ProcessClient
  unfolding stdout_step
  after_chown l (some e) c = (some (wrap "failed to chown log dir" e), note (cancel l.context) c)
  after_chown l none c = stdout_step l c

  -- chownLogDir, which does nothing without a credential
  chown_step : Launch → Option Credential → ProcessClient → Option Error × ProcessClient
  unfolding after_chown
  chown_step l none c = after_chown l none c
  chown_step l (some cred) c =
      after_chown l (os.chown_reply c.calls (log_dir l c) cred) (note (chown (log_dir l c) cred) c)

  after_mkdir : Launch → Option Error → ProcessClient → Option Error × ProcessClient
  unfolding chown_step
  after_mkdir l (some e) c = (some (wrap "failed to create log dir" e), note (cancel l.context) c)
  after_mkdir l none c = chown_step l c.credential c

  mkdir_step : Launch → ProcessClient → Option Error × ProcessClient
  unfolding after_mkdir
  mkdir_step l c =
      after_mkdir l (os.mkdir_all_reply c.calls (log_dir l c)) (note (mkdir_all (log_dir l c)) c)

  -- context.WithCancel, once there is a command to run
  unfoldable pub launch_parts :
      Pod → Container → List String → ProcessClient → Option Error × ProcessClient
  unfolding mkdir_step
  launch_parts pod container [] c =
      (some (message ("no command specified for container " <> container.name)), c)
  launch_parts pod container (command ∷ args) c =
      mkdir_step
        (record {
          pod = pod;
          container = container;
          command = command;
          args = args;
          context = c.contexts;
        })
        (note (with_cancel c.contexts) (record c { contexts = suc c.contexts }))

  launch : Pod → List Container → ProcessClient → Option Error × ProcessClient
  unfolding launch_parts
  launch pod [] c = (some (message "no containers in pod spec"), c)
  launch pod (container ∷ _) c =
      if is_some (Dict.lookup (pod_key pod) c.processes)
      then (some (message "pod process already exists"), c)
      else launch_parts pod container (container.command ++ container.args) c

  unfoldable pub create_pod : Pod → ProcessClient → Option Error × ProcessClient
  unfolding launch
  create_pod pod c = launch pod pod.spec.containers c
