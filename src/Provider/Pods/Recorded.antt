-- ===== src/Provider/Pods/Recorded.antt =====
-- CreatePod of the provider with the recorder of Kubernetes: the context carries the pod.
use macos_exec_kubelet.Base.{
  String, ◌<>◌, Option, some, List, [], ◌∷◌, map, Error, invalid_input, Result, ok, err, ◌≡◌, refl,
  string_eq,
}
use macos_exec_kubelet.Base.Dict.{Dict}
use macos_exec_kubelet.Api.{Pod, ConfigMap}
use macos_exec_kubelet.Registry.{RegistryCredentialStore}
use macos_exec_kubelet.Event.{
  ObjectReference, Recorded, warning, pull_secrets_failed, emit, record_event,
}
use macos_exec_kubelet.Event.Context.{Context, with_object_ref, get_object_ref, value, emit_in}
use macos_exec_kubelet.Provider.Api.{KubeApi}
use macos_exec_kubelet.Provider.PodCredentials.{extract_pod_credentials}
use macos_exec_kubelet.Provider.PullSecrets.{resolve_image_pull_credentials}
use macos_exec_kubelet.Provider.Pods.{RuntimeClient, ProviderConfig, create_pod}
use macos_exec_kubelet.Provider.Pods.Laws.{create_pod_branches}

abbrev pub object_reference_of : Pod → ObjectReference
object_reference_of pod = record {
  namespace = pod.namespace;
  name = pod.name;
  uid = pod.uid;
  field_path = "";
}

module _ (client : RuntimeClient) (api : KubeApi) (p : ProviderConfig) (show : Error → String)
    (ctx : Context) where
  -- What the recorder of Kubernetes is given while the call runs.
  unfoldable pub recorded_of : Pod → client.State → List (Option Recorded)
  recorded_of pod s =
      map (emit_in show (with_object_ref (object_reference_of pod) ctx))
        (create_pod client api p pod s).1

  abbrev pub secrets_warning : Pod → Error → Recorded
  secrets_warning pod e = record {
    reference = record {
      namespace = pod.namespace;
      name = pod.name;
      uid = pod.uid;
      field_path = "";
    };
    type = warning;
    reason = pull_secrets_failed;
    text = "Failed to resolve image pull secrets: " <> show e;
  }

  -- What CreatePod does by what came of the token and the config maps, and of the pull credentials.
  abbrev pub Handled :
      Pod
      → client.State
      → Result (Dict String ConfigMap × String)
      → Result RegistryCredentialStore
      → Type 0
  Handled pod s (err e) store =
      (create_pod client api p pod s ≡ (some e, [], s)) × (recorded_of pod s ≡ [])
  Handled pod s (ok (maps, token)) (err e) =
      ((create_pod client api p pod s).0 ≡ some (invalid_input e))
      × ((create_pod client api p pod s).2 ≡ s)
      × (recorded_of pod s ≡ some (secrets_warning pod e) ∷ [])
  Handled pod s (ok (maps, token)) (ok store) =
      ((create_pod client api p pod s).0 ≡ (client.create_pod pod token maps store s).0)
      × ((create_pod client api p pod s).2 ≡ (client.create_pod pod token maps store s).1)
      × (recorded_of pod s ≡ [])

  -- CreatePod reaches the runtime client only with all credentials at hand. If the token or the
  -- config maps cannot be had, the client's state is unchanged, the error is returned and nothing
  -- is recorded. If the pull credentials cannot be resolved, the state is unchanged, the error is
  -- returned as an invalid input, and one warning with the pod's namespace, name and identifier is
  -- recorded, whatever the
  -- context carried before. Otherwise the client's error and state are returned and nothing is
  -- recorded.
  pub create_pod-Handled :
      (pod : Pod) (s : client.State)
      → Handled pod s (extract_pod_credentials api pod) (resolve_image_pull_credentials api pod)
  unfolding recorded_of emit_in with_object_ref get_object_ref value emit record_event string_eq
  create_pod-Handled pod s =
      handled_lem (extract_pod_credentials api pod) (resolve_image_pull_credentials api pod) refl
        refl
    where
      handled_lem :
          (credentials : Result (Dict String ConfigMap × String))
          (store : Result RegistryCredentialStore)
          → extract_pod_credentials api pod ≡ credentials
          → resolve_image_pull_credentials api pod ≡ store
          → Handled pod s credentials store
      handled_lem (err e) store h r =
          rw ((create_pod_branches client api p pod s).0 e h) (refl, refl)
      handled_lem (ok (maps, token)) (err e) h r =
          rw ((create_pod_branches client api p pod s).1 maps token e h r) (refl, refl, refl)
      handled_lem (ok (maps, token)) (ok store) h r =
          rw ((create_pod_branches client api p pod s).2 maps token store h r) (refl, refl, refl)
