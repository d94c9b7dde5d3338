-- ===== src/Provider/PullSecrets.antt =====
-- pkg/provider/image_pull_credentials.go: the registry credentials of a pod.
pub mod References
pub mod Resolve
use macos_exec_kubelet.Base.{
  String, Bool, true, false, Option, none, some, List, [], ◌∷◌, ◌++◌, Error, message, wrap,
  api_not_found, Result, ok, err, ◌>>=◌, map_err, ◌==◌, string_eq, contains, if◌then◌else◌,
}
use macos_exec_kubelet.Base.Dict
use macos_exec_kubelet.Api.{Pod}
use macos_exec_kubelet.Registry.{
  new_registry_credential_store, DockerConfigEntry, KeyringEntry, Keyring, RegistryCredentialStore,
}
use macos_exec_kubelet.Provider.Api.{KubeApi, Secret}

-- `seen` and `secretRefs`. The set of seen names is the list of those kept.
pub record Refs : Type 0 where
  pub seen : List String
  pub kept : List String

-- The loop over one list of references.
unfoldable pub add_refs : List String → Refs → Refs
add_refs [] r = r
add_refs (name ∷ rest) r = add_refs rest (
    if contains r.seen name then r else record { seen = name ∷ r.seen; kept = r.kept ++ name ∷ [] })

abbrev pub no_refs : Refs
no_refs = record { seen = []; kept = [] }

-- The references of the pod, then those of its service account.
unfoldable pub secret_refs : List String → List String → List String
unfolding add_refs
secret_refs of_pod of_account = (add_refs of_account (add_refs of_pod no_refs)).kept

-- apierrors.IsNotFound
abbrev is_not_found : Error → Bool
is_not_found (api_not_found s) = true
is_not_found _ = false

abbrev docker_config_key : String
docker_config_key = ".dockerconfigjson"

abbrev docker_config_type : String
docker_config_type = "kubernetes.io/dockerconfigjson"

abbrev empty_docker_config : Error
empty_docker_config = message "docker config has no auth entries"

check_auths : List DockerConfigEntry → Result (List DockerConfigEntry)
check_auths [] = err empty_docker_config
check_auths (a ∷ rest) = ok (a ∷ rest)

abbrev or_empty : Option String → String
or_empty none = ""
or_empty (some s) = s

-- The messages below leave out the name that the source quotes in them.
secret_error : Error → Error
secret_error e =
    if is_not_found e
    then wrap "imagePullSecret not found" e
    else wrap "failed to fetch imagePullSecret" e

account_error : Error → Error
account_error e =
    if is_not_found e
    then wrap "service account not found" e
    else wrap "failed to fetch service account" e

abbrev pub account_name : String → String
account_name name = if name == "" then "default" else name

-- Without any secret the store stays empty.
unfoldable pub store_of : Keyring → RegistryCredentialStore
unfolding new_registry_credential_store
store_of [] = record { keyring = none }
store_of (entry ∷ rest) = new_registry_credential_store (some (entry ∷ rest))

module _ (api : KubeApi) where
  unfoldable pub parse_docker_config_json : String → Result (List DockerConfigEntry)
  unfolding check_auths
  parse_docker_config_json raw = if raw == "" then err empty_docker_config else (do
    auths ← map_err (wrap "invalid docker config json") (api.unmarshal raw)
    check_auths auths)

  -- A secret of another type is read too if it has the key.
  parse_other_secret : Option String → Result (List DockerConfigEntry)
  unfolding parse_docker_config_json
  parse_other_secret none = err (message "unsupported secret type")
  parse_other_secret (some raw) = parse_docker_config_json raw

  unfoldable pub parse_image_pull_secret : Secret → Result (List DockerConfigEntry)
  unfolding parse_other_secret
  parse_image_pull_secret secret =
      let raw = Dict.lookup docker_config_key secret.contents in
      if secret.type == docker_config_type
      then parse_docker_config_json (or_empty raw)
      else parse_other_secret raw

  -- One round of the loop: the entry that is added to the keyring.
  unfoldable pub fetch_secret : String → String → Result KeyringEntry
  unfolding secret_error parse_image_pull_secret
  fetch_secret namespace name = do
    secret ← map_err secret_error (api.get_secret namespace name)
    config ← map_err (wrap "failed to parse imagePullSecret") (parse_image_pull_secret secret)
    ok (record {
      uid = secret.uid;
      namespace = secret.namespace;
      name = secret.name;
      config = config;
    })

  unfoldable pub fetch_secrets : String → List String → Result Keyring
  unfolding fetch_secret
  fetch_secrets namespace [] = ok []
  fetch_secrets namespace (name ∷ rest) = do
    entry ← fetch_secret namespace name
    entries ← fetch_secrets namespace rest
    ok (entry ∷ entries)

  unfoldable pub resolve_image_pull_credentials : Pod → Result RegistryCredentialStore
  unfolding secret_refs account_error fetch_secrets store_of
  resolve_image_pull_credentials pod = do
    of_account ←
        map_err account_error
          (api.get_service_account pod.namespace (account_name pod.spec.service_account_name))
    keyring ← fetch_secrets pod.namespace (secret_refs pod.spec.image_pull_secrets of_account)
    ok (store_of keyring)
