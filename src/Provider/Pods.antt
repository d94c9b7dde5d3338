-- ===== src/Provider/Pods.antt =====
-- The pod methods of pkg/provider/macos_exec.go, over any runtime client (RuntimeClient of
-- pkg/client/client_apis.go). Tracing and logging are left out.
pub mod Laws
pub mod Recorded
pub mod Runtime
use macos_exec_kubelet.Base.{
  ℕ, String, Bool, true, false, Option, none, some, List, [], ◌∷◌, Error, message, not_found,
  invalid_input, Result, ok, err, ◌>>=◌, ℤ, pos, NamespacedName, ◌==◌, string_eq, if◌then◌else◌,
}
use macos_exec_kubelet.Base.Dict.{Dict}
use macos_exec_kubelet.Api.{Pod, pod_key, PodStatus, ConfigMap, Time, Container, Lifecycle, Handler}
use macos_exec_kubelet.Client.Process.{PodProcess}
use macos_exec_kubelet.Metrics.{ContainerStats}
use macos_exec_kubelet.Registry.{RegistryCredentialStore}
use macos_exec_kubelet.Event.{Event, failed_to_resolve_image_pull_secrets}
use macos_exec_kubelet.Provider.Api.{KubeApi}
use macos_exec_kubelet.Provider.PodCredentials.{extract_pod_credentials}
use macos_exec_kubelet.Provider.PullSecrets.{resolve_image_pull_credentials}
use macos_exec_kubelet.Provider.Status.{get_pod_status_from_process}

-- RuntimeClient, over its state.
pub record RuntimeClient : Type 1 where
  pub State : Type 0
  pub create_pod :
      Pod → String → Dict String ConfigMap → RegistryCredentialStore → State → Option Error × State
  pub delete_pod : NamespacedName → ℤ → State → Option Error × State
  pub get_pod : NamespacedName → State → Result PodProcess × State
  pub get_pod_list : State → Result (Dict NamespacedName PodProcess) × State
  pub get_container_logs : String → String → String → State → Result ℕ × State
  pub execute_container_command :
      NamespacedName → String → List String → State → Option Error × State
  pub get_pod_stats : NamespacedName → State → Result (List ContainerStats) × State

-- MacOSExecProviderConfig, without the clients.
pub record ProviderConfig : Type 0 where
  pub node_name : String
  pub platform : String
  pub internal_ip : String
  pub daemon_endpoint_port : ℤ

-- The provider keeps the configuration as it is.
unfoldable pub new_provider : ProviderConfig → Result ProviderConfig
new_provider config =
    if config.platform == "darwin"
    then ok config
    else err (invalid_input (message "platform type is not supported"))

abbrev pub not_implemented : Error
not_implemented = message "not implemented by MacOS provider"

abbrev pub or_zero : Option ℤ → ℤ
or_zero none = pos 0
or_zero (some z) = z

-- The command of a PreStop hook, if there is one.
hook_of_handler : Option Handler → Option (List String)
hook_of_handler none = none
hook_of_handler (some handler) = handler.exec

hook_of_lifecycle : Option Lifecycle → Option (List String)
unfolding hook_of_handler
hook_of_lifecycle none = none
hook_of_lifecycle (some lifecycle) = hook_of_handler lifecycle.pre_stop

unfoldable pub hook_of : Container → Option (List String)
unfolding hook_of_lifecycle
hook_of container = hook_of_lifecycle container.lifecycle

module _ (client : RuntimeClient) (api : KubeApi) (p : ProviderConfig) where
  after_resolve :
      Pod
      → Dict String ConfigMap × String
      → Result RegistryCredentialStore
      → client.State
      → Option Error × List Event × client.State
  after_resolve pod (maps, token) (err e) s =
      (some (invalid_input e), failed_to_resolve_image_pull_secrets e ∷ [], s)
  after_resolve pod (maps, token) (ok store) s =
      let (e, t) = client.create_pod pod token maps store s in (e, [], t)

  after_extract :
      Pod
      → Result (Dict String ConfigMap × String)
      → client.State
      → Option Error × List Event × client.State
  unfolding after_resolve
  after_extract pod (err e) s = (some e, [], s)
  after_extract pod (ok credentials) s =
      after_resolve pod credentials (resolve_image_pull_credentials api pod) s

  -- The error, the events recorded and the new state.
  unfoldable pub create_pod : Pod → client.State → Option Error × List Event × client.State
  unfolding after_extract
  create_pod pod s = after_extract pod (extract_pod_credentials api pod) s

  unfoldable pub update_pod : Pod → Option Error
  update_pod pod = some not_implemented

  -- handleDeletePod, which DeletePod starts in the background: the keys of the pods that the API
  -- server is asked to delete, and the new state. The reply of the server is only logged.
  after_delete : Pod → Option Error × client.State → List NamespacedName × client.State
  after_delete pod (some e, s) = ([], s)
  after_delete pod (none, s) = (pod_key pod ∷ [], s)

  unfoldable pub handle_delete_pod : Pod → client.State → List NamespacedName × client.State
  unfolding after_delete
  handle_delete_pod pod s =
      after_delete pod
        (client.delete_pod (pod_key pod) (or_zero pod.deletion_grace_period_seconds) s)

  -- A copy of the stored pod with its status; `now` is what metav1.Now gives.
  abbrev with_status : Time → PodProcess → Pod → Pod
  with_status now process pod = record pod {
    status = get_pod_status_from_process p.internal_ip now process;
  }

  pod_of_process : Time → PodProcess → Option Pod → Result Pod
  pod_of_process now process none = err (not_found "pod spec not found in process")
  pod_of_process now process (some pod) = ok (with_status now process pod)

  unfoldable pub get_pod : Time → NamespacedName → client.State → Result Pod × client.State
  unfolding pod_of_process
  get_pod now k s =
      let (r, t) = client.get_pod k s in
      (r >>= λ process. pod_of_process now process process.pod, t)

  unfoldable pub get_pod_status :
      Time → NamespacedName → client.State → Result PodStatus × client.State
  get_pod_status now k s =
      let (r, t) = client.get_pod k s in
      (r >>= λ process. ok (get_pod_status_from_process p.internal_ip now process), t)

  add_listed : Time → PodProcess → Option Pod → List Pod → List Pod
  add_listed now process none rest = rest
  add_listed now process (some pod) rest = with_status now process pod ∷ rest

  -- The loop of GetPods, in the order of the map's entries.
  unfoldable pub listed : Time → Dict NamespacedName PodProcess → List Pod
  unfolding add_listed
  listed now [] = []
  listed now ((k, process) ∷ rest) = add_listed now process process.pod (listed now rest)

  unfoldable pub get_pods : Time → client.State → Result (List Pod) × client.State
  unfolding listed
  get_pods now s =
      let (r, t) = client.get_pod_list s in (r >>= λ processes. ok (listed now processes), t)

  -- The file that is opened.
  unfoldable pub get_container_logs :
      String → String → String → client.State → Result ℕ × client.State
  get_container_logs namespace pod_name container s =
      client.get_container_logs namespace pod_name container s

  unfoldable pub run_in_container :
      NamespacedName → String → List String → client.State → Option Error × client.State
  run_in_container k container cmd s = client.execute_container_command k container cmd s

  unfoldable pub attach_to_container : NamespacedName → String → Option Error
  attach_to_container k container = some not_implemented

  unfoldable pub port_forward : NamespacedName → ℤ → Option Error
  port_forward k port = some not_implemented

  -- The PreStop hooks of the containers, up to the first that fails.
  unfoldable pub run_hooks : Pod → List Container → client.State → Option Error × client.State
  run_hooks pod [] s = (none, s)
  run_hooks pod (container ∷ rest) s = elim (hook_of container) [
    | none ↦ run_hooks pod rest s
    | some command ↦
        let (e, t) = client.execute_container_command (pod_key pod) container.name command s in
        elim e [ some x ↦ (some x, t) | none ↦ run_hooks pod rest t ]
  ]

  unfoldable pub handle_pre_stop_hooks : Pod → client.State → Option Error × client.State
  unfolding run_hooks
  handle_pre_stop_hooks pod s = run_hooks pod pod.spec.containers s
