-- ===== src/Tests/Data.antt =====
-- A pod, operating systems that succeed and fail, and an API server.
use macos_exec_kubelet.Base.{
  suc, ◌+◌, String, ◌<>◌, true, false, Option, none, some, List, [], ◌∷◌, external, api_not_found,
  ok, err, pos, length, string_eq,
}
use macos_exec_kubelet.Api.{
  Pod, PodStatus, Container, pending, Volume, VolumeProjection, DownwardItem,
  ServiceAccountTokenProjection, ConfigMapProjection,
}
use macos_exec_kubelet.Client.Calls.{Os, Credential}
use macos_exec_kubelet.Registry.{KeyringEntry, Keyring, Packages}
use macos_exec_kubelet.Provider.Api.{KubeApi, Secret}
use macos_exec_kubelet.Provider.Pods.{ProviderConfig}
use macos_exec_kubelet.Client.Process.{ProcessClient, new_client}

abbrev pub busy : Container
busy = record {
  name = "main";
  command = "/bin/sleep" ∷ [];
  args = "5" ∷ [];
  env = record { name = "A"; value = "1" } ∷ [];
  volume_mounts = [];
  lifecycle = none;
}

abbrev pub no_status : PodStatus
no_status = record {
  phase = pending;
  host_ip = "";
  pod_ip = "";
  start_time = 0;
  container_statuses = [];
}

abbrev pub pod_with : List Container → Pod
pod_with containers = record {
  namespace = "ns";
  name = "job";
  uid = "u1";
  creation_timestamp = 1;
  deletion_grace_period_seconds = some (pos 30);
  spec = record {
    containers = containers;
    volumes = [];
    service_account_name = "";
    automount_service_account_token = some false;
    image_pull_secrets = "a" ∷ "b" ∷ "a" ∷ [];
  };
  status = no_status;
}

abbrev pub job : Pod
job = pod_with (busy ∷ [])

abbrev pub join : List String → String
join [] = ""
join (s ∷ rest) = s <> ("/" <> join rest)

-- Every call succeeds; handles and times come from the length of the trace.
abbrev pub good_os : Os
good_os = record {
  environ = λ t. "HOME=/tmp" ∷ [];
  mkdir_all_reply = λ t p. none;
  chown_reply = λ t p c. none;
  create_reply = λ t p. ok (length t);
  start_reply = λ t c. ok (length t + 100);
  now = λ t. suc (length t);
  open_reply = λ t p. ok 7;
  join = join;
}

-- The process cannot be started.
abbrev pub bad_os : Os
bad_os = record good_os { start_reply = λ t c. err (external "exec format error") }

abbrev pub runner : Option Credential
runner = some (record { uid = 501; gid = 20 })

abbrev pub fresh_client : ProcessClient
fresh_client = new_client "/logs" runner

-- An API server with the account `default` and two secrets of docker credentials.
abbrev docker_secret : String → Secret
docker_secret name = record {
  uid = "s-" <> name;
  namespace = "ns";
  name = name;
  type = "kubernetes.io/dockerconfigjson";
  contents = (".dockerconfigjson", name) ∷ [];
}

abbrev pub api : KubeApi
api = record {
  get_config_map = λ ns name. err (api_not_found name);
  create_token = λ ns name request. ok "token";
  get_service_account = λ ns name. ok ("c" ∷ "b" ∷ []);
  get_secret = λ ns name. ok (docker_secret name);
  delete_pod = λ ns name. none;
  unmarshal = λ raw. ok (record { registry = raw; username = "u"; password = "p" } ∷ []);
}

abbrev pub entry : String → KeyringEntry
entry name = record {
  uid = "s-" <> name;
  namespace = "ns";
  name = name;
  config = record { registry = name; username = "u"; password = "p" } ∷ [];
}

abbrev pub keyring : Keyring
keyring = entry "a" ∷ entry "b" ∷ entry "c" ∷ []

abbrev pub config : ProviderConfig
config = record {
  node_name = "mac";
  platform = "darwin";
  internal_ip = "10.0.0.1";
  daemon_endpoint_port = pos 10250;
}

-- A keyring whose first answer has no login.
abbrev pub packages : Packages
packages = record {
  lookup = λ k image. (
    record { server_address = "x"; username = ""; password = "" }
        ∷ record { server_address = ""; username = "u"; password = "p" }
        ∷ [],
    true,
  );
  domain = λ image. some "docker.io";
}

-- A pod with the volume that Kubernetes adds for API access.
abbrev pub token_projection : ServiceAccountTokenProjection
token_projection = record { audience = ""; expiration_seconds = some (pos 3607); path = "token" }

abbrev pub ca_projection : ConfigMapProjection
ca_projection = record {
  name = "kube-root-ca.crt";
  items = record { key = "ca.crt"; path = "ca.crt"; mode = none } ∷ [];
}

abbrev pub namespace_items : List DownwardItem
namespace_items =
    record { field_ref = some "metadata.namespace"; path = "namespace"; mode = none } ∷ []

abbrev pub api_sources : List VolumeProjection
api_sources =
    record { service_account_token = some token_projection; config_map = none; downward_api = none }
    ∷ record { service_account_token = none; config_map = some ca_projection; downward_api = none }
    ∷ record {
      service_account_token = none;
      config_map = none;
      downward_api = some namespace_items;
    }
    ∷ []

abbrev pub api_volume : Volume
api_volume = record {
  name = "kube-api-access";
  source = record { host_path = none; empty_dir = false; projected = some api_sources };
}

abbrev pub api_pod : Pod
api_pod = record job { spec = record (job.spec) { volumes = api_volume ∷ [] } }
