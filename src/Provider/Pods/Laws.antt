-- ===== src/Provider/Pods/Laws.antt =====
-- What the pod methods promise over any runtime client.
use macos_exec_kubelet.Base.{
  String, none, some, List, [], ◌∷◌, Error, invalid_input, ok, err, NamespacedName, key_eq, ◌≡◌,
  ◌≢◌, ◌⊎◌, ◌↔◌, arith, string_eq,
}
use macos_exec_kubelet.Base.Dict
use macos_exec_kubelet.Base.Dict.{Dict}
use macos_exec_kubelet.Api.{Pod, pod_key, ConfigMap, Time}
use macos_exec_kubelet.Client.Process.{PodProcess}
use macos_exec_kubelet.Registry.{RegistryCredentialStore}
use macos_exec_kubelet.Event.{failed_to_resolve_image_pull_secrets}
use macos_exec_kubelet.Provider.Api.{KubeApi}
use macos_exec_kubelet.Provider.PodCredentials.{extract_pod_credentials}
use macos_exec_kubelet.Provider.PullSecrets.{resolve_image_pull_credentials}
use macos_exec_kubelet.Provider.Status.{get_pod_status_from_process}
use macos_exec_kubelet.Provider.Pods.{
  RuntimeClient, ProviderConfig, create_pod, handle_delete_pod, listed, or_zero,
}

-- The object is an entry of the list.
abbrev pub IsListed : Pod → List Pod → Type 0
IsListed a [] = ⊥
IsListed a (x ∷ xs) = (x ≡ a) ⊎ IsListed a xs

module _ (client : RuntimeClient) (api : KubeApi) (p : ProviderConfig) where
  -- CreatePod reaches the runtime client only with all credentials at hand: if the token or the
  -- config maps cannot be had, or the pull credentials cannot be resolved, the client's state is
  -- unchanged and the error is returned, in the second case as an invalid input and with an event.
  -- Otherwise the client's error and state are returned and no event is recorded.
  pub create_pod_branches :
      (pod : Pod) (s : client.State)
      → ((e : Error)
          → extract_pod_credentials api pod ≡ err e
          → create_pod client api p pod s ≡ (some e, [], s))
        × ((maps : Dict String ConfigMap) (token : String) (e : Error)
            → extract_pod_credentials api pod ≡ ok (maps, token)
            → resolve_image_pull_credentials api pod ≡ err e
            → create_pod client api p pod s
              ≡ (some (invalid_input e), failed_to_resolve_image_pull_secrets e ∷ [], s))
        × ((maps : Dict String ConfigMap) (token : String) (store : RegistryCredentialStore)
            → extract_pod_credentials api pod ≡ ok (maps, token)
            → resolve_image_pull_credentials api pod ≡ ok store
            → create_pod client api p pod s ≡ (
              (client.create_pod pod token maps store s).0,
              [],
              (client.create_pod pod token maps store s).1,
            ))
  unfolding create_pod
  create_pod_branches pod s =
      (λ e h. ground arith, λ maps token e h r. ground arith, λ maps token store h r. ground arith)

  -- The API server is asked to delete a pod exactly if the runtime client has deleted it, with the
  -- pod's grace period, or 0 if it has none.
  pub handle_delete_pod_asks :
      (pod : Pod) (s : client.State)
      → let r = client.delete_pod (pod_key pod) (or_zero pod.deletion_grace_period_seconds) s in
        let d = handle_delete_pod client api p pod s in
        ((r.0 ≡ none) ↔ (d.0 ≡ pod_key pod ∷ [])) × ((r.0 ≢ none) ↔ (d.0 ≡ [])) × (d.1 ≡ r.1)
  unfolding handle_delete_pod
  handle_delete_pod_asks pod s = ground arith

  -- GetPods lists, for each entry of the client's map that holds a pod, that pod with the status of
  -- the entry.
  pub listed_lem :
      (now : Time) (processes : Dict NamespacedName PodProcess) (k : NamespacedName)
      (process : PodProcess) (pod : Pod)
      → Dict.lookup k processes ≡ some process
      → process.pod ≡ some pod
      → IsListed
          (record pod { status = get_pod_status_from_process p.internal_ip now process })
          (listed client api p now processes)
  unfolding listed Dict.lookup
  listed_lem now [] k process pod l e = cc
  listed_lem now ((j, q) ∷ rest) k process pod l e =
      ground (arith, listed_lem now rest k process pod)
