-- ===== src/Tests/Provider.antt =====
-- The provider and its credentials on concrete objects.
use macos_exec_kubelet.Base.{
  ℕ, suc, String, true, false, none, some, [], ◌∷◌, Error, exit_error, ok, ℤ, pos, negsuc,
  minus_one, ◌≡◌, ◌≢◌, ◌↔◌, refl, key_eq, nat_eq, string_eq, arith, NamespacedName,
}
use macos_exec_kubelet.Base.Dict
use macos_exec_kubelet.Base.Dict.{Dict}
use macos_exec_kubelet.Api.{
  pod_key, PodStatus, running, succeeded, failed, ServiceAccountTokenProjection,
  ConfigMapProjection,
}
use macos_exec_kubelet.Client.Process.{ProcessClient, PodProcess, reap}
use macos_exec_kubelet.Client.Create
use macos_exec_kubelet.Client.Delete.{Waiting, exits}
use macos_exec_kubelet.Client.Query
use macos_exec_kubelet.Client.Query.{code_of}
use macos_exec_kubelet.Registry.{
  Keyring, RegistryCredentials, RegistryCredentialStore, for_image, is_empty, complete,
}
use macos_exec_kubelet.Registry.Lookup.{CompletedFrom, FirstUsable, AllEmpty, for_image_lem}
use macos_exec_kubelet.Provider.Status.{get_pod_status_from_process}
use macos_exec_kubelet.Provider.Status.Phases.{Agrees, get_pod_status_from_process_lem}
use macos_exec_kubelet.Provider.PodCredentials.{find_projections, extract_pod_credentials}
use macos_exec_kubelet.Provider.PodCredentials.Search.{
  AnyVolume, EveryVolume, Offers, OffersMap, NoToken, NoMap, find_projections_lem,
}
use macos_exec_kubelet.Provider.PullSecrets.{secret_refs, resolve_image_pull_credentials}
use macos_exec_kubelet.Provider.PullSecrets.References.{
  first_occurrences, Distinct, secret_refs-first_occurrences,
}
use macos_exec_kubelet.Provider.PullSecrets.Resolve.{Resolved, resolve_all_or_nothing}
use macos_exec_kubelet.Provider.Pods.{RuntimeClient, get_pod_status}
use macos_exec_kubelet.Provider.Pods.Recorded.{Handled, create_pod-Handled}
use macos_exec_kubelet.Provider.Pods.Runtime.{process_runtime, get_pod_status-reap}
use macos_exec_kubelet.Tests.Data.{
  job, api_pod, token_projection, ca_projection, good_os, fresh_client, api, keyring, config,
  packages,
}
use macos_exec_kubelet.Tests.Client.{running_client, first_state, first_found}

abbrev show : Error → String
show e = "error"

abbrev wait : NamespacedName → ℤ → ProcessClient → Waiting
wait k grace c = exits none

-- The process was killed by a signal.
get_pod_status-reap_example :
    (status : PodStatus) × ((get_pod_status
        (process_runtime good_os wait)
        api
        config
        9
        (pod_key job)
        (reap 0 (some (exit_error minus_one)) running_client)).0
      ≡ ok status)
    × (some (exit_error minus_one) ≡ none → status.phase ≡ succeeded)
    × ((n : ℕ)
        → some (exit_error minus_one) ≡ some (exit_error (pos (suc n)))
        → status.phase ≡ failed)
    × ((n : ℕ)
        → some (exit_error minus_one) ≡ some (exit_error (negsuc n))
        → status.phase ≡ running)
    × ((x : Error)
        → ((z : ℤ) → x ≢ exit_error z)
        → some (exit_error minus_one) ≡ some x
        → status.phase ≡ failed)
get_pod_status-reap_example =
    get_pod_status-reap good_os wait api config running_client (pod_key job) 0 first_state
      (some (exit_error minus_one)) 9 first_found.0 first_found.1 refl (omega arith)

abbrev killed : PodProcess
killed = record (first_state.pod_process) { exit_code = pos 137 }

get_pod_status_from_process_lem_example :
    let s = get_pod_status_from_process "10.0.0.1" 9 killed in
    Agrees killed s
    × ((s.phase ≡ succeeded) ↔ (pos 137 ≡ pos 0))
    × ((s.phase ≡ failed) ↔ ((n : ℕ) × (pos 137 ≡ pos (suc n))))
    × ((s.phase ≡ running) ↔ (((n : ℕ) × (pos 137 ≡ negsuc n)) × (◌≢◌ {A = ℕ} 7 0)))
get_pod_status_from_process_lem_example = get_pod_status_from_process_lem "10.0.0.1" 9 killed

secret_refs-first_occurrences_example :
    (secret_refs ("a" ∷ "b" ∷ "a" ∷ []) ("c" ∷ "b" ∷ [])
      ≡ first_occurrences ("a" ∷ "b" ∷ "a" ∷ "c" ∷ "b" ∷ []))
    × Distinct (secret_refs ("a" ∷ "b" ∷ "a" ∷ []) ("c" ∷ "b" ∷ []))
secret_refs-first_occurrences_example =
    secret_refs-first_occurrences ("a" ∷ "b" ∷ "a" ∷ []) ("c" ∷ "b" ∷ [])

refs_run : secret_refs ("a" ∷ "b" ∷ "a" ∷ []) ("c" ∷ "b" ∷ []) ≡ "a" ∷ "b" ∷ "c" ∷ []
unfolding secret_refs string_eq
refs_run = refl

resolve_all_or_nothing_example : Resolved api job (record { keyring = some keyring })
unfolding resolve_image_pull_credentials Dict.lookup string_eq
resolve_all_or_nothing_example =
    resolve_all_or_nothing api job (record { keyring = some keyring }) refl

abbrev login : RegistryCredentials
login = record { server = "docker.io"; username = "u"; password = "p" }

abbrev store : RegistryCredentialStore
store = record { keyring = some keyring }

for_image_runs : for_image packages store "nginx" ≡ some login
unfolding for_image complete string_eq
for_image_runs = refl

for_image_lem_example :
    ((c : RegistryCredentials)
      → for_image packages store "nginx" ≡ some c
      → (is_empty c ≡ false)
        × ((k : Keyring) × (a : _) × (some keyring ≡ some k)
            × ((packages.lookup k "nginx").1 ≡ true)
            × FirstUsable (packages.lookup k "nginx").0 a
            × CompletedFrom packages "nginx" a c))
    × ((for_image packages store "nginx" ≡ none) ↔ (
        (k : Keyring)
        → some keyring ≡ some k
        → (packages.lookup k "nginx").1 ≡ true
        → AllEmpty (packages.lookup k "nginx").0))
for_image_lem_example = for_image_lem packages store "nginx"

find_projections_lem_example :
    ((t : ServiceAccountTokenProjection)
      → (find_projections api_pod).token ≡ some t
      → AnyVolume (Offers t) api_pod.spec.volumes)
    × ((m : ConfigMapProjection)
        → (find_projections api_pod).config_map ≡ some m
        → AnyVolume (OffersMap m) api_pod.spec.volumes)
    × ((find_projections api_pod).token ≡ none → EveryVolume NoToken api_pod.spec.volumes)
    × ((find_projections api_pod).config_map ≡ none → EveryVolume NoMap api_pod.spec.volumes)
find_projections_lem_example = find_projections_lem api_pod

find_projections_run :
    find_projections api_pod
    ≡ record { token = some token_projection; config_map = some ca_projection }
unfolding find_projections
find_projections_run = refl

abbrev runtime : RuntimeClient
runtime = process_runtime good_os wait

create_pod-Handled_example :
    Handled runtime api config show [] job fresh_client
      (extract_pod_credentials api job)
      (resolve_image_pull_credentials api job)
create_pod-Handled_example = create_pod-Handled runtime api config show [] job fresh_client
