-- ===== src/Client/Query.antt =====
-- GetPod, GetPodList, GetContainerLogs, ExecuteContainerCommand and GetPodStats of
-- pkg/client/process.go. What the methods return by pointer is given as it is when they return.
pub mod Views
use macos_exec_kubelet.Base.{
  ℕ, String, Bool, true, false, Option, none, some, List, [], ◌∷◌, Error, message, not_found,
  exit_error, Result, ok, err, ℤ, pos, minus_one, NamespacedName, key_eq, get_elem?, set,
}
use macos_exec_kubelet.Base.Dict
use macos_exec_kubelet.Base.Dict.{Dict}
use macos_exec_kubelet.Client.Calls.{Os, open_file}
use macos_exec_kubelet.Client.Process.{ProcessClient, ProcessState, PodProcess, note}

-- The exit code of an error of `cmd.Wait`.
unfoldable pub code_of : Option Error → ℤ
code_of none = pos 0
code_of (some (exit_error z)) = z
code_of (some _) = pos 1

-- What the `select` of GetPod finds: the final code and error, or -1 while the process runs.
unfoldable pub observed : Bool → Option Error → ℤ × Option Error
unfolding code_of
observed true e = (code_of e, e)
observed false e = (minus_one, none)

-- The process of a state, brought up to date.
unfoldable pub refresh : ProcessState → PodProcess
unfolding observed
refresh s =
    let (code, e) = observed s.wait_done s.exit_error in
    record (s.pod_process) { exit_code = code; exit_error = e }

unfoldable pub get_state :
    ℕ → Option ProcessState → ProcessClient → Result PodProcess × ProcessClient
get_state h none c = (err (not_found "pod process not found"), c)
get_state h (some s) c =
    (ok (refresh s), record c { states = set c.states h (record s { pod_process = refresh s }) })

unfoldable pub get_found : Option ℕ → ProcessClient → Result PodProcess × ProcessClient
unfolding get_state
get_found none c = (err (not_found "pod process not found"), c)
get_found (some h) c = get_state h (get_elem? c.states h) c

unfoldable pub get_pod : NamespacedName → ProcessClient → Result PodProcess × ProcessClient
unfolding get_found
get_pod k c = get_found (Dict.lookup k c.processes) c

-- The loop of `Range`: each entry with its process as it stands.
list_state :
    NamespacedName
    → Option ProcessState
    → Dict NamespacedName PodProcess
    → Dict NamespacedName PodProcess
list_state k none rest = rest
list_state k (some s) rest = (k, s.pod_process) ∷ rest

list_from : List ProcessState → Dict NamespacedName ℕ → Dict NamespacedName PodProcess
unfolding list_state
list_from states [] = []
list_from states ((k, h) ∷ rest) = list_state k (get_elem? states h) (list_from states rest)

unfoldable pub get_pod_list : ProcessClient → Dict NamespacedName PodProcess
unfolding list_from
get_pod_list c = list_from c.states c.processes

module _ (os : Os) where
  unfoldable pub get_container_logs :
      String → String → String → ProcessClient → Result ℕ × ProcessClient
  get_container_logs namespace pod_name container_name c =
      let dir = os.join (c.logs_dir ∷ namespace ∷ pod_name ∷ container_name ∷ []) in
      let path = os.join (dir ∷ "stdout.log" ∷ []) in
      (os.open_reply c.calls path, note (open_file path) c)

unfoldable pub execute_container_command : NamespacedName → String → List String → Option Error
execute_container_command k container_name cmd =
    some (message "executing in running process not supported yet")

-- GetPodStats returns no statistics and no error.
unfoldable pub get_pod_stats : {A : Type 0} → NamespacedName → Result (List A)
get_pod_stats k = ok []
