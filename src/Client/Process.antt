-- ===== src/Client/Process.antt =====
-- The state of the process client (pkg/client/process.go, pkg/client/client_apis.go).
use macos_exec_kubelet.Base.{
  ℕ, String, Bool, true, false, Option, none, some, List, [], ◌∷◌, Error, ℤ, NamespacedName, key_eq,
  get_elem?, set,
}
use macos_exec_kubelet.Base.Dict.{Dict}
use macos_exec_kubelet.Api.{Pod, Time}
use macos_exec_kubelet.Client.Calls.{Call, Credential, close}

-- PodProcess
pub record PodProcess : Type 0 where
  pub namespace : String
  pub name : String
  pub pid : ℕ
  pub command : List String
  pub started_at : Time
  pub pod : Option Pod
  pub exit_code : ℤ
  pub exit_error : Option Error

abbrev pub process_key : PodProcess → NamespacedName
process_key p = record { namespace = p.namespace; name = p.name }

-- processState. `wait_done` says whether the channel is closed; the two files are those that the
-- goroutine which waits for the process has captured.
pub record ProcessState : Type 0 where
  pub context : ℕ
  pub exit_error : Option Error
  pub wait_done : Bool
  pub pid : ℕ
  pub started_at : Time
  pub pod_process : PodProcess
  pub stdout : ℕ
  pub stderr : ℕ

-- ProcessClient. The map holds pointers: an index into the states allocated so far, which the
-- goroutines share with the map. `contexts` counts the contexts made.
pub record ProcessClient : Type 0 where
  pub processes : Dict NamespacedName ℕ
  pub states : List ProcessState
  pub logs_dir : String
  pub credential : Option Credential
  pub contexts : ℕ
  pub calls : List Call

-- A client as NewProcessClient builds it.
abbrev pub new_client : String → Option Credential → ProcessClient
new_client dir cred = record {
  processes = [];
  states = [];
  logs_dir = dir;
  credential = cred;
  contexts = 0;
  calls = [];
}

abbrev pub note : Call → ProcessClient → ProcessClient
note call c = record c { calls = call ∷ c.calls }

-- The goroutine that waits for the process: when the process has exited it stores the error,
-- closes the files and closes the channel, once.
reap_state : ℕ → Option Error → ProcessClient → Bool → ProcessState → ProcessClient
reap_state h e c true s = c
reap_state h e c false s = record c {
  states = set c.states h (record s { exit_error = e; wait_done = true });
  calls = close s.stderr ∷ close s.stdout ∷ c.calls;
}

unfoldable pub reap : ℕ → Option Error → ProcessClient → ProcessClient
unfolding reap_state
reap h e c = elim (get_elem? c.states h) [ none ↦ c | some s ↦ reap_state h e c s.wait_done s ]
