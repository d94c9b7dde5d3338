-- ===== src/Startup/Provider.antt =====
-- The callback of cmd/virtual-kubelet/main.go that makes the provider of the node, without the
-- recorder of events that it is given.
use macos_exec_kubelet.Base.{String, List, [], ◌∷◌, wrap, Result, ok, ◌>>=◌, map_err, ℤ}
use macos_exec_kubelet.Client.Process.{ProcessClient}
use macos_exec_kubelet.Client.User.{User, new_process_client}
use macos_exec_kubelet.Provider.Pods.{ProviderConfig, new_provider}
use macos_exec_kubelet.Startup.Port.{listen_port_of}

-- The environment, the host and the user database.
pub record Environment : Type 0 where
  pub kubelet_port : String
  pub vkubelet_pod_ip : String
  pub platform_information : Result String
  pub user_cache_dir : Result String
  pub join : List String → String
  pub lookup_user : String → Result User

abbrev pub app_identifier : String
app_identifier = "com.thesis.userexecution"

-- The process client, the provider, and the port that is listened on.
unfoldable pub make_provider :
    Environment → String → String → ℤ → Result (ProcessClient × ProviderConfig × ℤ)
unfolding listen_port_of
make_provider env node_name runner_user default_port = do
  port ← listen_port_of env.kubelet_port default_port
  platform ← env.platform_information
  cache ← env.user_cache_dir
  client ← map_err (wrap "failed to create process client") (
      new_process_client env.lookup_user (record {
        logs_dir = env.join (env.join (cache ∷ app_identifier ∷ []) ∷ "logs" ∷ []);
        runner_user = runner_user;
      }))
  provider ← new_provider (record {
    node_name = node_name;
    platform = platform;
    internal_ip = env.vkubelet_pod_ip;
    daemon_endpoint_port = port;
  })
  ok (client, provider, port)
