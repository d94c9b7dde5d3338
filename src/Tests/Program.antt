-- ===== src/Tests/Program.antt =====
-- The program on a concrete host.
use macos_exec_kubelet.Base.{
  ℤ, pos, String, true, Option, none, some, [], ◌∷◌, Result, ok, ◌>>=◌, ◌≡◌, refl, arith, inl, inr,
  Result-cases, string_eq, nat_eq, ◌==◌, if◌then◌else◌, negsuc,
}
use macos_exec_kubelet.Client.Process.{ProcessClient, new_client}
use macos_exec_kubelet.Client.User.{parse_uint32, parse_digits, new_process_client}
use macos_exec_kubelet.Provider.Pods.{ProviderConfig, new_provider}
use macos_exec_kubelet.Startup.Options.{
  NodeConfig, no_schedule, mux, effect_of, options, with_taint, with_provider_id, with_version,
  with_tls, with_ca, with_webhook_auth, configure_webhook, configure_routes, with_listener,
}
use macos_exec_kubelet.Startup.Options.Served.{apply_all}
use macos_exec_kubelet.Startup.Port.{listen_port_of, parse_int32}
use macos_exec_kubelet.Startup.Provider.{Environment, make_provider}
use macos_exec_kubelet.Startup.Run.{Node, context_done, go_run, run, env_or_default}
use macos_exec_kubelet.Startup.Settings.{Settings, CommandLine, initial, parse_flags}
use macos_exec_kubelet.Startup.Started.{
  NewNode, IsNewNode, create_node, IsStarted, create_node-IsStarted,
}
use macos_exec_kubelet.Startup.Main.{Host, finished, canceled, is_canceled, main}
use macos_exec_kubelet.Startup.Main.Ends.{Ends, run_with, main-Ends}
use macos_exec_kubelet.Tests.Data.{join, runner}
use macos_exec_kubelet.Tests.Startup.{util, first, util-IsNodeUtil}

-- The command line names the user of the processes.
abbrev arguments : CommandLine
arguments = record {
  string = λ name. if name == "runner-user" then some "ci" else none;
  duration = λ name. none;
  bool = λ name. none;
  int = λ name. none;
}

abbrev no_env : String → Option String
no_env key = none

abbrev settings : Settings
settings = parse_flags no_env "mac" arguments (initial no_env)

abbrev print : ℤ → String
print (pos n) = if n == 10250 then "10250" else "?"
print (negsuc n) = "?"

abbrev environment : Environment
environment = record {
  kubelet_port = "20250";
  vkubelet_pod_ip = "10.0.0.1";
  platform_information = ok "darwin";
  user_cache_dir = ok "/cache";
  join = join;
  lookup_user = λ name. ok (record { uid = "501"; gid = "20" });
}

abbrev make_node : NewNode
make_node os callback port =
    apply_all (os port) first >>= λ cfg. callback port >>= λ made. ok (cfg, made)

make_node-IsNewNode : IsNewNode make_node first
make_node-IsNewNode os callback port cfg made h = elim (Result-cases (apply_all (os port) first)) [
  | inr (e, l) ↦ absurd (ground arith)
  | inl (c, l) ↦ elim (Result-cases (callback port)) [
    | inr (e, m) ↦ absurd (ground arith)
    | inl (d, m) ↦ (ground arith, ground arith)
  ]
]

-- The node listens on 10250 and reports 20250.
abbrev node_config : NodeConfig
node_config = record first {
  has_client = true;
  taints =
      record { key = "virtual-kubelet.io/provider"; value = "macos-exec"; effect = no_schedule }
      ∷ [];
  kubelet_version = "v1.34.1-vk-macos-exec-dev";
  handler = mux;
  tls = record (first.tls) { certificates = ("", "") ∷ [] };
  informer_resync_period = settings.resync;
  num_workers = pos 10;
  http_listen_addr = ":10250";
}

abbrev client : ProcessClient
client = new_client "/cache/com.thesis.userexecution//logs/" runner

abbrev provider : ProviderConfig
provider = record {
  node_name = "mac";
  platform = "darwin";
  internal_ip = "10.0.0.1";
  daemon_endpoint_port = pos 20250;
}

created :
    create_node print util environment make_node settings
    ≡ ok (node_config, (client, provider, pos 20250))
unfolding create_node options with_taint effect_of with_provider_id with_version with_tls with_ca
    with_webhook_auth configure_webhook configure_routes with_listener make_provider listen_port_of
    parse_int32 parse_uint32 parse_digits new_process_client new_provider parse_flags initial
    env_or_default string_eq nat_eq
created = refl

create_node-IsStarted_example :
    IsStarted print environment first settings node_config client provider (pos 20250)
create_node-IsStarted_example =
    create_node-IsStarted print environment first settings util make_node node_config client
      provider (pos 20250) util-IsNodeUtil make_node-IsNewNode created

abbrev host : Host
host = record {
  env = no_env;
  home_dir = "/Users/ci";
  join = join;
  clientset_from_env = λ path. none;
  hostname = ok "mac";
  parse_level = λ level. none;
  command_line = ok (some arguments);
  invalid_input_unwraps = true;
}

abbrev node : Settings → Result Node
node s = ok (record { wait_ready_reply = none; err_reply = none })

abbrev tracer : Settings → Result String
tracer s = ok s.node_name

-- An interrupt ends the program quietly, and the node was not waited for.
interrupted :
    main host (run_with host tracer node (context_done canceled)) ≡ (finished, go_run ∷ [])
unfolding main run is_canceled initial parse_flags string_eq
interrupted = refl

main-Ends_example :
    Ends host tracer node
      (context_done canceled)
      (main host (run_with host tracer node (context_done canceled)))
main-Ends_example = main-Ends host tracer node (context_done canceled)
