-- ===== src/Tests/Startup.antt =====
-- The options of the node on concrete flags.
use macos_exec_kubelet.Base.{
  pos, true, false, none, List, [], ◌∷◌, Result, ok, err, ◌>>=◌, ◌≡◌, refl, sym, ap, inr, string_eq,
}
use macos_exec_kubelet.Startup.Options.{
  Flags, no_schedule, no_client_cert, require_and_verify_client_cert, WebhookAuthConfig, no_handler,
  mux, TlsConfig, NodeConfig, NodeOption, NodeUtil, with_taint, effect_of, with_provider_id,
  with_version, with_webhook_auth, configure_webhook, with_ca, with_tls, configure_routes,
  with_listener, options, request_client_cert,
}
use macos_exec_kubelet.Startup.Options.Willing.{IsWilling, AllSucceed}
use macos_exec_kubelet.Startup.Options.Served.{apply_all, IsNodeUtil}

abbrev flags : Flags
flags = record {
  disable_taint = false;
  taint_key = "virtual-kubelet.io/provider";
  taint_value = "macos";
  taint_effect = "NoSchedule";
  provider_id = "id";
  k8s_version = "v1.30";
  build_version = "1";
  webhook_auth = true;
  webhook_authn_cache_ttl = pos 0;
  webhook_authz_authed_cache_ttl = pos 60;
  webhook_authz_unauthed_cache_ttl = pos 5;
  client_ca_cert = "ca.pem";
  client_no_verify = false;
  cert_path = "cert.pem";
  key_path = "key.pem";
  resync = pos 60;
  number_of_workers = pos 4;
  listen_port = "10250";
}

abbrev pub apply_tls : List (TlsConfig → Result TlsConfig) → TlsConfig → Result TlsConfig
apply_tls [] tls = ok tls
apply_tls (o ∷ os) tls = o tls >>= λ next. apply_tls os next

abbrev pub set_tls : NodeConfig → Result TlsConfig → Result NodeConfig
set_tls c (err e) = err e
set_tls c (ok tls) = ok (record c { tls = tls })

abbrev pub webhook_config : WebhookAuthConfig
webhook_config = record {
  webhook_retry_backoff = false;
  authn_cache_ttl = pos 1;
  allow_cache_ttl = pos 1;
  deny_cache_ttl = pos 1;
  client_ca = none;
}

abbrev pub util : NodeUtil
util = record {
  with_client = λ c. ok (record c { has_client = true });
  attach_provider_routes = λ c. ok c;
  with_tls_config = λ os c. set_tls c (apply_tls os c.tls);
  with_key_pair_from_path = λ cert key tls. ok (record tls { certificates = (cert, key) ∷ [] });
  with_ca_from_path = λ path tls.
      ok (record tls { client_cas = path ∷ []; client_auth = require_and_verify_client_cert });
  webhook_auth = λ configure. configure webhook_config;
  new_dynamic_ca = λ path. none;
}

abbrev pub first : NodeConfig
first = record {
  has_client = false;
  taints = [];
  provider_id = "";
  kubelet_version = "";
  handler = no_handler;
  tls = record { client_auth = no_client_cert; client_cas = []; certificates = [] };
  informer_resync_period = pos 60;
  num_workers = pos 10;
  http_listen_addr = ":10250";
}

abbrev pub new_node : List NodeOption → Result NodeConfig
new_node os = apply_all os first

set_tls_lem :
    (c d : NodeConfig) (r : Result TlsConfig) → set_tls c r ≡ ok d → record d { tls = c.tls } ≡ c
set_tls_lem c d (err e) h = cc
set_tls_lem c d (ok tls) h = ap (λ (q : NodeConfig). record q { tls = c.tls }) (sym (injected h))
  where
    injected : ok (record c { tls = tls }) ≡ ok d → record c { tls = tls } ≡ d
    injected h = cc

client_lem :
    (c d : NodeConfig) → util.with_client c ≡ ok d → record d { has_client = c.has_client } ≡ c
client_lem c d h =
    ap (λ (q : NodeConfig). record q { has_client = c.has_client }) (sym (injected h))
  where
    injected : ok (record c { has_client = true }) ≡ ok d → record c { has_client = true } ≡ d
    injected h = cc

pub util-IsNodeUtil : IsNodeUtil util
util-IsNodeUtil = record {
  client = client_lem;
  routes = λ c d h. cc;
  tls = λ os c d h. set_tls_lem c d (apply_tls os c.tls) h;
}

tls_lem :
    (os : List (TlsConfig → Result TlsConfig))
    → AllSucceed os
    → (tls : TlsConfig) → (next : TlsConfig) × (apply_tls os tls ≡ ok next)
tls_lem [] v tls = (tls, refl)
tls_lem (o ∷ os) (succeeds, v) tls = let (next, l) = succeeds tls in rw l (tls_lem os v next)

-- The library can refuse nothing.
util-IsWilling : IsWilling flags util
unfolding effect_of string_eq
util-IsWilling = record {
  client = λ c. (_, refl);
  routes = λ c. (_, refl);
  tls = λ os v c. let (next, l) = tls_lem os v c.tls in rw l (_, refl);
  key_pair = λ tls. (_, refl);
  ca_from_path = λ tls. (_, refl);
  webhook = λ callback succeeds. succeeds webhook_config;
  ca = refl;
  effect = inr (no_schedule, refl);
}

abbrev configured : NodeConfig
configured = record {
  has_client = true;
  taints =
      record { key = "virtual-kubelet.io/provider"; value = "macos"; effect = no_schedule } ∷ [];
  provider_id = "id";
  kubelet_version = "v1.30-vk-macos-exec-1";
  handler = mux;
  tls = record {
    client_auth = request_client_cert;
    client_cas = "ca.pem" ∷ [];
    certificates = ("cert.pem", "key.pem") ∷ [];
  };
  informer_resync_period = pos 60;
  num_workers = pos 4;
  http_listen_addr = ":10250";
}

is_configured : new_node (options flags util) ≡ ok configured
unfolding options with_taint effect_of with_provider_id with_version with_tls with_ca
    with_webhook_auth configure_webhook configure_routes with_listener string_eq
is_configured = refl
