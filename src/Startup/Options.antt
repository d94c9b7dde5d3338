-- ===== src/Startup/Options.antt =====
-- The options of the node in cmd/virtual-kubelet/main.go. What they call of the virtual kubelet's
-- library is a parameter, NewNode too.
pub mod Willing
pub mod Served
use macos_exec_kubelet.Base.{
  ℕ, zero, suc, ℤ, pos, negsuc, String, ◌<>◌, Bool, true, false, Option, none, some, List, [], ◌∷◌,
  ◌++◌, Error, message, wrap, invalid_input, Result, ok, err, ◌>>=◌, map_err, if◌then◌else◌, ◌==◌,
  string_eq, not,
}

-- The flags and the variables of the package that the options read.
pub record Flags : Type 0 where
  pub disable_taint : Bool
  pub taint_key : String
  pub taint_value : String
  pub taint_effect : String
  pub provider_id : String
  pub k8s_version : String
  pub build_version : String
  pub webhook_auth : Bool
  pub webhook_authn_cache_ttl : ℤ
  pub webhook_authz_authed_cache_ttl : ℤ
  pub webhook_authz_unauthed_cache_ttl : ℤ
  pub client_ca_cert : String
  pub client_no_verify : Bool
  pub cert_path : String
  pub key_path : String
  pub resync : ℤ
  pub number_of_workers : ℤ
  pub listen_port : String

pub data TaintEffect : Type 0 where
  no_schedule no_execute prefer_no_schedule : TaintEffect

pub record Taint : Type 0 where
  pub key : String
  pub value : String
  pub effect : TaintEffect

-- tls.ClientAuthType
pub data ClientAuth : Type 0 where
  no_client_cert request_client_cert require_any_client_cert : ClientAuth
  verify_client_cert_if_given require_and_verify_client_cert : ClientAuth

pub record TlsConfig : Type 0 where
  pub client_auth : ClientAuth
  pub client_cas : List String
  pub certificates : List (String × String)

-- The configuration of the webhook, with the file whose certificates `ca` holds.
pub record WebhookAuthConfig : Type 0 where
  pub webhook_retry_backoff : Bool  -- whether it is the default one
  pub authn_cache_ttl : ℤ
  pub allow_cache_ttl : ℤ
  pub deny_cache_ttl : ℤ
  pub client_ca : Option String

-- Whom a handler lets in: everyone, or those whom the API server knows.
pub data Auth : Type 0 where
  no_auth : Auth
  webhook : WebhookAuthConfig → Auth

-- An http.Handler: the one that the configuration has at first, a new mux with the routes of the
-- provider, nodeutil.WithAuth, and api.InstrumentHandler.
pub data HttpHandler : Type 0 where
  no_handler mux : HttpHandler
  with_auth : Auth → HttpHandler → HttpHandler
  instrumented : HttpHandler → HttpHandler

pub record NodeConfig : Type 0 where
  pub has_client : Bool
  pub taints : List Taint
  pub provider_id : String
  pub kubelet_version : String
  pub handler : HttpHandler
  pub tls : TlsConfig
  pub informer_resync_period : ℤ
  pub num_workers : ℤ
  pub http_listen_addr : String

abbrev pub NodeOption : Type 0
NodeOption = NodeConfig → Result NodeConfig

-- The library: WithClient, AttachProviderRoutes, WithTLSConfig and its options, WebhookAuth by what
-- its callback makes of a configuration, and reading certificates.
pub record NodeUtil : Type 0 where
  pub with_client : NodeOption
  pub attach_provider_routes : NodeOption
  pub with_tls_config : List (TlsConfig → Result TlsConfig) → NodeOption
  pub with_key_pair_from_path : String → String → TlsConfig → Result TlsConfig
  pub with_ca_from_path : String → TlsConfig → Result TlsConfig
  pub webhook_auth : (WebhookAuthConfig → Result WebhookAuthConfig) → Result WebhookAuthConfig
  pub new_dynamic_ca : String → Option Error

module _ (flags : Flags) where
  unfoldable pub effect_of : String → Result TaintEffect
  effect_of e =
      if e == "NoSchedule"
      then ok no_schedule
      else if e == "NoExecute"
      then ok no_execute
      else if e == "PreferNoSchedule"
      then ok prefer_no_schedule
      else err (invalid_input (message "taint effect is not supported"))

  abbrev pub taint_with : TaintEffect → Taint
  taint_with e = record { key = flags.taint_key; value = flags.taint_value; effect = e }

  unfoldable pub with_taint : NodeOption
  unfolding effect_of
  with_taint cfg =
      if flags.disable_taint
      then ok cfg
      else effect_of flags.taint_effect >>= λ e.
          ok (record cfg { taints = cfg.taints ++ taint_with e ∷ [] })

  unfoldable pub with_provider_id : NodeOption
  with_provider_id cfg = ok (record cfg { provider_id = flags.provider_id })

  abbrev pub version : String
  version = flags.k8s_version <> ("-" <> ("vk-macos-exec" <> ("-" <> flags.build_version)))

  unfoldable pub with_version : NodeOption
  with_version cfg = ok (record cfg { kubelet_version = version })

  abbrev is_positive : ℤ → Bool
  is_positive (pos (suc n)) = true
  is_positive _ = false

  set_authn_ttl : WebhookAuthConfig → WebhookAuthConfig
  set_authn_ttl c =
      if is_positive flags.webhook_authn_cache_ttl
      then record c { authn_cache_ttl = flags.webhook_authn_cache_ttl }
      else c

  set_authed_ttl : WebhookAuthConfig → WebhookAuthConfig
  set_authed_ttl c =
      if is_positive flags.webhook_authz_authed_cache_ttl
      then record c { allow_cache_ttl = flags.webhook_authz_authed_cache_ttl }
      else c

  -- This sets the time for what was allowed as well.
  set_unauthed_ttl : WebhookAuthConfig → WebhookAuthConfig
  set_unauthed_ttl c =
      if is_positive flags.webhook_authz_unauthed_cache_ttl
      then record c { allow_cache_ttl = flags.webhook_authz_unauthed_cache_ttl }
      else c

  module _ (util : NodeUtil) where
    after_ca : WebhookAuthConfig → Option Error → Result WebhookAuthConfig
    after_ca c (some e) = err e
    after_ca c none = ok (record c { client_ca = some flags.client_ca_cert })

    set_client_ca : WebhookAuthConfig → Result WebhookAuthConfig
    unfolding after_ca
    set_client_ca c =
        if not (flags.client_ca_cert == "")
        then after_ca c (util.new_dynamic_ca flags.client_ca_cert)
        else ok c

    -- The callback that WebhookAuth is given.
    unfoldable pub configure_webhook : WebhookAuthConfig → Result WebhookAuthConfig
    unfolding set_authn_ttl set_authed_ttl set_unauthed_ttl set_client_ca
    configure_webhook c = set_client_ca (
        set_unauthed_ttl
          (set_authed_ttl (set_authn_ttl (record c { webhook_retry_backoff = true }))))

    authenticated : NodeConfig → WebhookAuthConfig → NodeConfig
    authenticated cfg c = record cfg {
      tls = record (cfg.tls) { client_auth = request_client_cert };
      handler = instrumented (with_auth (webhook c) cfg.handler);
    }

    unfoldable pub with_webhook_auth : NodeOption
    unfolding configure_webhook authenticated
    with_webhook_auth cfg =
        if not flags.webhook_auth
        then ok (record cfg { handler = instrumented (with_auth no_auth cfg.handler) })
        else util.webhook_auth configure_webhook >>= λ c. ok (authenticated cfg c)

    unverified : TlsConfig → TlsConfig
    unverified tls =
        if flags.client_no_verify then record tls { client_auth = no_client_cert } else tls

    unfoldable pub with_ca : TlsConfig → Result TlsConfig
    unfolding unverified
    with_ca tls =
        if flags.client_ca_cert == ""
        then ok tls
        else map_err (wrap "error getting CA from path")
            (util.with_ca_from_path flags.client_ca_cert tls)
          >>= λ t. ok (unverified t)

    unfoldable pub with_tls : NodeOption
    unfolding with_ca
    with_tls =
        util.with_tls_config
          (util.with_key_pair_from_path flags.cert_path flags.key_path ∷ with_ca ∷ [])

    unfoldable pub configure_routes : NodeOption
    configure_routes cfg = util.attach_provider_routes (record cfg { handler = mux })

    unfoldable pub with_listener : NodeOption
    with_listener cfg = ok (record cfg {
      informer_resync_period = flags.resync;
      num_workers = flags.number_of_workers;
      http_listen_addr = ":" <> flags.listen_port;
    })

    -- The options that NewNode is given, in their order.
    unfoldable pub options : List NodeOption
    unfolding with_taint with_provider_id with_version with_tls with_webhook_auth configure_routes
        with_listener
    options =
        util.with_client ∷ with_taint ∷ with_provider_id ∷ with_version ∷ with_tls
        ∷ with_webhook_auth ∷ configure_routes ∷ with_listener ∷ []
