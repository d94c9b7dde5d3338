-- ===== src/Provider/PullSecrets/Resolve.antt =====
-- What resolveImagePullCredentials returns.
use macos_exec_kubelet.Base.{
  String, none, some, ◌++◌, Option-cases, List, [], ◌∷◌, ok, string_eq, ◌≡◌, ◌≢◌, refl, arith,
  Result-cases, inl, inr,
}
use macos_exec_kubelet.Base.Dict
use macos_exec_kubelet.Provider.PullSecrets.References.{
  first_occurrences, secret_refs-first_occurrences,
}
use macos_exec_kubelet.Api.{Pod}
use macos_exec_kubelet.Registry.{DockerConfigEntry, KeyringEntry, Keyring, RegistryCredentialStore}
use macos_exec_kubelet.Provider.Api.{KubeApi, Secret}
use macos_exec_kubelet.Provider.PullSecrets.{
  secret_refs, parse_docker_config_json, parse_image_pull_secret, fetch_secret, fetch_secrets,
  store_of, account_name, resolve_image_pull_credentials,
}

module _ (api : KubeApi) where
  -- The entry is of the secret of this namespace and name: its text of the key for docker configs is
  -- not empty, and parses to the entry's authentication data, of which there is some.
  pub record IsEntryOf (namespace name : String) (entry : KeyringEntry) : Type 0 where
    pub secret : Secret
    pub fetched : api.get_secret namespace name ≡ ok secret
    pub raw : String
    pub has_key : Dict.lookup ".dockerconfigjson" secret.contents ≡ some raw
    pub not_empty : raw ≢ ""
    pub parsed : api.unmarshal raw ≡ ok entry.config
    pub has_auths : entry.config ≢ []
    pub own_uid : entry.uid ≡ secret.uid
    pub own_namespace : entry.namespace ≡ secret.namespace
    pub own_name : entry.name ≡ secret.name

  -- The keyring has one entry for each name, fetched under it, in this order.
  abbrev pub AllFetched : String → List String → Keyring → Type 0
  AllFetched namespace [] [] = Unit
  AllFetched namespace (name ∷ names) (entry ∷ entries) =
      IsEntryOf namespace name entry × AllFetched namespace names entries
  AllFetched namespace _ _ = ⊥

  parse_docker_config_json_lem :
      (raw : String) (config : List DockerConfigEntry)
      → parse_docker_config_json api raw ≡ ok config
      → (raw ≢ "") × (api.unmarshal raw ≡ ok config) × (config ≢ [])
  unfolding parse_docker_config_json
  parse_docker_config_json_lem raw config h = (ground arith, ground arith, ground arith)

  parse_image_pull_secret_lem :
      (secret : Secret) (config : List DockerConfigEntry)
      → parse_image_pull_secret api secret ≡ ok config
      → (raw : String) × (Dict.lookup ".dockerconfigjson" secret.contents ≡ some raw)
        × (parse_docker_config_json api raw ≡ ok config)
  unfolding parse_image_pull_secret
  parse_image_pull_secret_lem secret config h =
      elim (Option-cases (Dict.lookup ".dockerconfigjson" secret.contents)) [
        | inr (raw, l) ↦ (raw, l, ground arith)
        | inl l ↦ absurd (ground (arith, parse_docker_config_json_lem "" config))
      ]

  fetch_secret-IsEntryOf :
      (namespace name : String) (entry : KeyringEntry)
      → fetch_secret api namespace name ≡ ok entry
      → IsEntryOf namespace name entry
  unfolding fetch_secret
  fetch_secret-IsEntryOf namespace name entry h =
      elim (Result-cases (api.get_secret namespace name)) [
        | inr (e, l) ↦ absurd (ground arith)
        | inl (secret, l) ↦ elim (Result-cases (parse_image_pull_secret api secret)) [
          | inr (e, m) ↦ absurd (ground arith)
          | inl (config, m) ↦
              let (raw, k, p) = parse_image_pull_secret_lem secret config m in
              let (full, parsed, some_auth) = parse_docker_config_json_lem raw config p in
              let own : config ≡ entry.config = ground arith in
              record {
                secret = secret;
                fetched = l;
                raw = raw;
                has_key = k;
                not_empty = full;
                parsed = rw (← own) parsed;
                has_auths = rw (← own) some_auth;
                own_uid = ground arith;
                own_namespace = ground arith;
                own_name = ground arith;
              }
        ]
      ]

  fetch_secrets-AllFetched :
      (namespace : String) (names : List String) (entries : Keyring)
      → fetch_secrets api namespace names ≡ ok entries
      → AllFetched namespace names entries
  unfolding fetch_secrets
  fetch_secrets-AllFetched namespace [] [] h = tt
  fetch_secrets-AllFetched namespace [] (entry ∷ entries) h = cc
  fetch_secrets-AllFetched namespace (name ∷ names) [] h = absurd (ground arith)
  fetch_secrets-AllFetched namespace (name ∷ names) (entry ∷ entries) h =
      let own : fetch_secret api namespace name ≡ ok entry = ground arith in
      (
        fetch_secret-IsEntryOf namespace name entry own,
        fetch_secrets-AllFetched namespace names entries (ground arith),
      )

  -- The names of the service account that is read, in the pod's namespace.
  abbrev pub AccountOf : Pod → List String → Type 0
  AccountOf pod of_account =
      (pod.spec.service_account_name ≡ ""
        → api.get_service_account pod.namespace "default" ≡ ok of_account)
      × (pod.spec.service_account_name ≢ ""
          → api.get_service_account pod.namespace pod.spec.service_account_name ≡ ok of_account)

  -- What a pod that resolves to this store has: its service account was read, and the keyring of
  -- the store holds, in this order, one entry for each secret that the pod or the account names.
  pub record Resolved (pod : Pod) (store : RegistryCredentialStore) : Type 0 where
    pub of_account : List String
    pub account_read : AccountOf pod of_account
    pub keyring : Keyring
    pub all_fetched :
        AllFetched pod.namespace
          (first_occurrences (pod.spec.image_pull_secrets ++ of_account))
          keyring
    pub no_secrets : keyring ≡ [] → store.keyring ≡ none
    pub all_secrets : keyring ≢ [] → store.keyring ≡ some keyring

  store_of_lem :
      (keyring : Keyring)
      → (keyring ≡ [] → (store_of keyring).keyring ≡ none)
        × (keyring ≢ [] → (store_of keyring).keyring ≡ some keyring)
  unfolding store_of
  store_of_lem [] = (λ e. refl, λ e. absurd (e refl))
  store_of_lem (entry ∷ entries) = (λ e. cc, λ e. refl)

  account_lem :
      (pod : Pod) (of_account : List String)
      → api.get_service_account pod.namespace (account_name pod.spec.service_account_name)
        ≡ ok of_account
      → AccountOf pod of_account
  account_lem pod of_account h = (λ e. ground arith, λ d. ground arith)

  -- A pod's credentials are resolved only as a whole. If they are, then the service account that the
  -- pod names, or the one named default, was read in the pod's namespace, and every secret that the
  -- pod or the account names was fetched from that namespace. Each of them, whatever its type, has a
  -- docker config, whose authentication data is not empty. The store holds exactly these, each once,
  -- in the order in which they are named first, or no keyring if there are none.
  pub resolve_all_or_nothing :
      (pod : Pod) (store : RegistryCredentialStore)
      → resolve_image_pull_credentials api pod ≡ ok store
      → Resolved pod store
  unfolding resolve_image_pull_credentials
  resolve_all_or_nothing pod store h =
      elim (Result-cases
        (api.get_service_account pod.namespace (account_name pod.spec.service_account_name))) [
          | inr (e, p) ↦ absurd (ground arith)
          | inl (of_account, p) ↦
              let names = secret_refs pod.spec.image_pull_secrets of_account in
              elim (Result-cases (fetch_secrets api pod.namespace names)) [
                | inr (e, q) ↦ absurd (ground arith)
                | inl (keyring, q) ↦
                    let own : store_of keyring ≡ store = ground arith in
                    let (nothing, everything) = store_of_lem keyring in
                    record {
                      of_account = of_account;
                      account_read = account_lem pod of_account p;
                      keyring = keyring;
                      all_fetched =
                          rw
                            (← (secret_refs-first_occurrences pod.spec.image_pull_secrets
                              of_account).0)
                            (fetch_secrets-AllFetched pod.namespace names keyring q);
                      no_secrets = rw (← own) nothing;
                      all_secrets = rw (← own) everything;
                    }
              ]
        ]
