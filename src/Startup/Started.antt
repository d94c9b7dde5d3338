-- ===== src/Startup/Started.antt =====
-- nodeutil.NewNode as run of cmd/virtual-kubelet/main.go calls it, and the node that comes of it.
use macos_exec_kubelet.Base.{
  ℤ, String, ◌<>◌, some, List, Result, ok, ◌≡◌, ◌≢◌, ap, arith, inl, inr, Result-cases, string_eq,
  [], ◌∷◌,
}
use macos_exec_kubelet.Client.Calls.{Credential}
use macos_exec_kubelet.Client.Process.{ProcessClient}
use macos_exec_kubelet.Client.User.{ProcessClientConfig, new_process_client}
use macos_exec_kubelet.Client.User.Resolve.{IsUser, new_process_client-IsUser}
use macos_exec_kubelet.Provider.Pods.{ProviderConfig, new_provider}
use macos_exec_kubelet.Startup.Options.{NodeConfig, NodeOption, NodeUtil, options}
use macos_exec_kubelet.Startup.Options.Served.{
  apply_all, IsNodeUtil, IsConfigured, options-IsConfigured,
}
use macos_exec_kubelet.Startup.Port.{listen_port_of}
use macos_exec_kubelet.Startup.Provider.{Environment, app_identifier, make_provider}
use macos_exec_kubelet.Startup.Settings.{Settings, flags_of}

-- What the callback makes: the process client, the provider, and the new value of listenPort.
abbrev pub Made : Type 0
Made = ProcessClient × ProviderConfig × ℤ

-- nodeutil.NewNode of options and a callback that read listenPort, which has the given value.
abbrev pub NewNode : Type 0
NewNode = (ℤ → List NodeOption) → (ℤ → Result Made) → ℤ → Result (NodeConfig × Made)

module _ (print : ℤ → String) (util : NodeUtil) (env : Environment) (new_node : NewNode) where
  unfoldable pub create_node : Settings → Result (NodeConfig × Made)
  create_node s =
      new_node (λ port. options (flags_of print (record s { listen_port = port })) util)
        (make_provider env s.node_name s.runner_user) s.listen_port

-- The documented behaviour of the library: if NewNode succeeds, it has applied its options one after
-- another to its first configuration, and after that it has called the callback.
abbrev pub IsNewNode : NewNode → NodeConfig → Type 0
IsNewNode new_node first =
    (os : ℤ → List NodeOption) (callback : ℤ → Result Made) (port : ℤ) (cfg : NodeConfig)
    (made : Made)
    → new_node os callback port ≡ ok (cfg, made)
    → (apply_all (os port) first ≡ ok cfg) × (callback port ≡ ok made)

module _ (print : ℤ → String) (env : Environment) (first : NodeConfig) (s : Settings) where
  -- The node, its provider and its client are those that the settings ask for.
  pub record IsStarted (cfg : NodeConfig) (client : ProcessClient) (provider : ProviderConfig)
      (port : ℤ) : Type 0 where
    pub configured : IsConfigured (flags_of print s) first cfg
    pub address : cfg.http_listen_addr ≡ ":" <> print s.listen_port
    pub reported_port : listen_port_of env.kubelet_port s.listen_port ≡ ok port
    pub daemon_endpoint_port : provider.daemon_endpoint_port ≡ port
    pub node_name : provider.node_name ≡ s.node_name
    pub platform : provider.platform ≡ "darwin"
    pub internal_ip : provider.internal_ip ≡ env.vkubelet_pod_ip
    pub runs_as :
        s.runner_user ≢ ""
        → (user : Credential) × IsUser env.lookup_user s.runner_user user
          × (client.credential ≡ some user)

  module _ (cfg : NodeConfig) (client : ProcessClient) (provider : ProviderConfig) (port : ℤ) where
    abbrev client_config : String → ProcessClientConfig
    client_config cache = record {
      logs_dir = env.join (env.join (cache ∷ app_identifier ∷ []) ∷ "logs" ∷ []);
      runner_user = s.runner_user;
    }

    -- The parts of a callback that succeeds.
    made_lem :
        make_provider env s.node_name s.runner_user s.listen_port ≡ ok (client, provider, port)
        → (listen_port_of env.kubelet_port s.listen_port ≡ ok port)
          × ((cache : String) × (new_process_client env.lookup_user (client_config cache)
                ≡ ok client))
          × (provider.node_name ≡ s.node_name)
          × (provider.platform ≡ "darwin")
          × (provider.internal_ip ≡ env.vkubelet_pod_ip)
          × (provider.daemon_endpoint_port ≡ port)
    unfolding make_provider new_provider
    made_lem h = elim (Result-cases (listen_port_of env.kubelet_port s.listen_port)) [
      | inr (e, l) ↦ absurd (ground arith)
      | inl (p, l) ↦ elim (Result-cases env.platform_information) [
        | inr (e, l') ↦ absurd (ground arith)
        | inl (platform, l') ↦ elim (Result-cases env.user_cache_dir) [
          | inr (e, m) ↦ absurd (ground arith)
          | inl (cache, m) ↦
              elim (Result-cases (new_process_client env.lookup_user (client_config cache))) [
                | inr (e, m') ↦ absurd (ground arith)
                | inl (c, m') ↦ (
                  ground arith,
                  (cache, ground arith),
                  ground arith,
                  ground arith,
                  ground arith,
                  ground arith,
                )
              ]
        ]
      ]
    ]

    IsStarted-made :
        make_provider env s.node_name s.runner_user s.listen_port ≡ ok (client, provider, port)
        → IsConfigured (flags_of print s) first cfg
        → IsStarted cfg client provider port
    IsStarted-made h configured =
        let (reported, (cache, made), node_name, platform, ip, endpoint) = made_lem h in
        record {
          configured = configured;
          address = configured.http_listen_addr;
          reported_port = reported;
          daemon_endpoint_port = endpoint;
          node_name = node_name;
          platform = platform;
          internal_ip = ip;
          runs_as = λ named.
              let (user, is_user, same) =
                new_process_client-IsUser env.lookup_user (client_config cache) client named made in
              (user, is_user, ap (λ (c : ProcessClient). c.credential) same);
        }

  -- A node that NewNode has made for the settings of the program is configured by them, and its
  -- provider and its client are those of the settings: the processes run as the runner user, if
  -- one is named, and the provider reports the name of the node and the port of KUBELET_PORT. The
  -- node listens on the port of the settings all the same, since the options are applied before
  -- the callback reads that variable. The library is taken to apply the options in their order,
  -- to call the callback after them, and to change only what the options are named for.
  pub create_node-IsStarted :
      (util : NodeUtil) (new_node : NewNode) (cfg : NodeConfig) (client : ProcessClient)
      (provider : ProviderConfig) (port : ℤ)
      → IsNodeUtil util
      → IsNewNode new_node first
      → create_node print util env new_node s ≡ ok (cfg, (client, provider, port))
      → IsStarted cfg client provider port
  unfolding create_node
  create_node-IsStarted util new_node cfg client provider port v w h =
      let (applied, made) = w _ _ s.listen_port cfg (client, provider, port) h in
      IsStarted-made cfg client provider port made
        ((options-IsConfigured (flags_of print s) util first v).1 cfg applied)
