-- ===== src/Startup/Settings.antt =====
-- The variables of cmd/virtual-kubelet/main.go, and the flags that set them. What the command line
-- gives to a flag is a parameter.
use macos_exec_kubelet.Base.{◌*◌, ◌^◌, ℤ, pos, String, Bool, false, Option, none, some}
use macos_exec_kubelet.Startup.Run.{env_or_default}
use macos_exec_kubelet.Startup.Options.{Flags}

pub record Settings : Type 0 where
  pub k8s_version : String
  pub build_version : String
  pub taint_key : String
  pub taint_effect : String
  pub taint_value : String
  pub log_level : String
  pub trace_sample_rate : String
  pub kube_config_path : String
  pub startup_timeout : ℤ
  pub disable_taint : Bool
  pub number_of_workers : ℤ
  pub resync : ℤ
  pub provider_id : String
  pub runner_user : String
  pub cert_path : String
  pub key_path : String
  pub client_ca_cert : String
  pub client_no_verify : Bool
  pub webhook_auth : Bool
  pub webhook_authn_cache_ttl : ℤ
  pub webhook_authz_unauthed_cache_ttl : ℤ
  pub webhook_authz_authed_cache_ttl : ℤ
  pub node_name : String
  pub listen_port : ℤ

-- os.LookupEnv
abbrev pub Env : Type 0
Env = String → Option String

-- os.Getenv
abbrev pub getenv : Env → String → String
getenv env key = env_or_default (env key) ""

-- A time.Duration counts nanoseconds.
abbrev pub minute : ℤ
minute = pos (60 * 10 ^ 9)

-- The variables as they are declared.
unfoldable pub initial : Env → Settings
unfolding env_or_default
initial env = record {
  k8s_version = "v1.34.1";
  build_version = "dev";
  taint_key = env_or_default (env "VKUBELET_TAINT_KEY") "virtual-kubelet.io/provider";
  taint_effect = env_or_default (env "VKUBELET_TAINT_EFFECT") "NoSchedule";
  taint_value = env_or_default (env "VKUBELET_TAINT_VALUE") "macos-exec";
  log_level = "info";
  trace_sample_rate = "";
  kube_config_path = getenv env "KUBECONFIG";
  startup_timeout = pos 0;
  disable_taint = false;
  number_of_workers = pos 10;
  resync = minute;
  provider_id = "";
  runner_user = "";
  cert_path = getenv env "APISERVER_CERT_LOCATION";
  key_path = getenv env "APISERVER_KEY_LOCATION";
  client_ca_cert = "";
  client_no_verify = false;
  webhook_auth = false;
  webhook_authn_cache_ttl = pos 0;
  webhook_authz_unauthed_cache_ttl = pos 0;
  webhook_authz_authed_cache_ttl = pos 0;
  node_name = "mac-mini-exec";
  listen_port = pos 10250;
}

-- What the command line gives to the flags, by their names.
pub record CommandLine : Type 0 where
  pub string : String → Option String
  pub duration : String → Option ℤ
  pub bool : String → Option Bool
  pub int : String → Option ℤ

abbrev pub given_or {ℓ} : {A : Type ℓ} → Option A → A → A
given_or none a = a
given_or (some b) a = b

-- The flags, with their defaults: the lower-case name of the host for the node, a variable of the
-- environment for the certificate, and the variables themselves for the others.
unfoldable pub parse_flags : Env → String → CommandLine → Settings → Settings
unfolding env_or_default
parse_flags env host_name args s = record s {
  node_name = given_or (args.string "nodename") host_name;
  provider_id = given_or (args.string "provider-id") s.provider_id;
  startup_timeout = given_or (args.duration "startup-timeout") s.startup_timeout;
  disable_taint = given_or (args.bool "disable-taint") s.disable_taint;
  log_level = given_or (args.string "log-level") s.log_level;
  number_of_workers = given_or (args.int "pod-sync-workers") s.number_of_workers;
  resync = given_or (args.duration "full-resync-period") s.resync;
  runner_user = given_or (args.string "runner-user") s.runner_user;
  client_ca_cert =
      given_or (args.string "client-verify-ca") (getenv env "APISERVER_CA_CERT_LOCATION");
  client_no_verify = given_or (args.bool "no-verify-clients") s.client_no_verify;
  webhook_auth = given_or (args.bool "authentication-token-webhook") s.webhook_auth;
  webhook_authn_cache_ttl =
      given_or (args.duration "authentication-token-webhook-cache-ttl") s.webhook_authn_cache_ttl;
  webhook_authz_authed_cache_ttl =
      given_or (args.duration "authorization-webhook-cache-authorized-ttl")
        s.webhook_authz_authed_cache_ttl;
  webhook_authz_unauthed_cache_ttl =
      given_or (args.duration "authorization-webhook-cache-unauthorized-ttl")
        s.webhook_authz_unauthed_cache_ttl;
  trace_sample_rate = given_or (args.string "trace-sample-rate") s.trace_sample_rate;
}

-- The variables that the options of the node read. `print` is what `%d` prints.
abbrev pub flags_of : (ℤ → String) → Settings → Flags
flags_of print s = record {
  disable_taint = s.disable_taint;
  taint_key = s.taint_key;
  taint_value = s.taint_value;
  taint_effect = s.taint_effect;
  provider_id = s.provider_id;
  k8s_version = s.k8s_version;
  build_version = s.build_version;
  webhook_auth = s.webhook_auth;
  webhook_authn_cache_ttl = s.webhook_authn_cache_ttl;
  webhook_authz_authed_cache_ttl = s.webhook_authz_authed_cache_ttl;
  webhook_authz_unauthed_cache_ttl = s.webhook_authz_unauthed_cache_ttl;
  client_ca_cert = s.client_ca_cert;
  client_no_verify = s.client_no_verify;
  cert_path = s.cert_path;
  key_path = s.key_path;
  resync = s.resync;
  number_of_workers = s.number_of_workers;
  listen_port = print s.listen_port;
}
