-- ===== src/Startup/Options/Served.antt =====
-- The configuration of the node that the options lead to, and who is let in by it.
use macos_exec_kubelet.Base.{
  ◌<>◌, true, false, List, [], ◌∷◌, ◌++◌, Result, ok, ◌>>=◌, ◌≡◌, refl, ap, sym, ◌∙◌, ◌⊎◌, inl, inr,
  arith, Bool-cases, Result-cases, string_eq,
}
use mathlib.Core.Path.{subst}
use macos_exec_kubelet.Startup.Options.Willing.{IsWilling, AllSucceed, options-AllSucceed}
use macos_exec_kubelet.Startup.Options.{
  Flags, Taint, TaintEffect, request_client_cert, mux, TlsConfig, NodeConfig, NodeOption, NodeUtil,
  version, taint_with, effect_of, with_taint, with_provider_id, with_version, with_webhook_auth,
  authenticated, with_tls, configure_webhook, configure_routes, with_listener, options,
}

abbrev pub apply_all : List NodeOption → NodeConfig → Result NodeConfig
apply_all [] cfg = ok cfg
apply_all (o ∷ os) cfg = o cfg >>= λ next. apply_all os next

-- The documented behaviour of the library: these options change only what they are named for.
pub record IsNodeUtil (util : NodeUtil) : Type 0 where
  pub client :
      (c d : NodeConfig) → util.with_client c ≡ ok d → record d { has_client = c.has_client } ≡ c
  pub routes : (c d : NodeConfig) → util.attach_provider_routes c ≡ ok d → d ≡ c
  pub tls :
      (os : List (TlsConfig → Result TlsConfig)) (c d : NodeConfig)
      → util.with_tls_config os c ≡ ok d
      → record d { tls = c.tls } ≡ c

module _ (flags : Flags) where
  -- The taint that is asked for is there, and no taint else is new.
  abbrev pub Tainted : List Taint → List Taint → Type 0
  Tainted old new =
      ((flags.disable_taint ≡ true) × (new ≡ old))
      ⊎ ((flags.disable_taint ≡ false)
          × (e : TaintEffect) × (effect_of flags flags.taint_effect ≡ ok e)
          × (new ≡ old ++ taint_with flags e ∷ []))

-- Whom the configuration lets in, and what it reports.
pub record IsConfigured (flags : Flags) (first cfg : NodeConfig) : Type 0 where
  pub handler : cfg.handler ≡ mux
  pub client_auth : flags.webhook_auth ≡ true → cfg.tls.client_auth ≡ request_client_cert
  pub taints : Tainted flags first.taints cfg.taints
  pub provider_id : cfg.provider_id ≡ flags.provider_id
  pub kubelet_version : cfg.kubelet_version ≡ version flags
  pub num_workers : cfg.num_workers ≡ flags.number_of_workers
  pub informer_resync_period : cfg.informer_resync_period ≡ flags.resync
  pub http_listen_addr : cfg.http_listen_addr ≡ ":" <> flags.listen_port

-- The configurations between the options.
abbrev Steps : List NodeOption → NodeConfig → NodeConfig → Type 0
Steps [] c d = c ≡ d
Steps (o ∷ os) c d = (next : NodeConfig) × (o c ≡ ok next) × Steps os next d

apply_all-Steps : (os : List NodeOption) (c d : NodeConfig) → apply_all os c ≡ ok d → Steps os c d
apply_all-Steps [] c d h = cc
apply_all-Steps (o ∷ os) c d h = elim (Result-cases (o c)) [
  | inl (next, l) ↦ (next, l, apply_all-Steps os next d cc)
  | inr (e, l) ↦ absurd (ground arith)
]

module _ (flags : Flags) (util : NodeUtil) where
  with_taint_lem : (c d : NodeConfig) → with_taint flags c ≡ ok d → Tainted flags c.taints d.taints
  unfolding with_taint
  with_taint_lem c d h = elim (Bool-cases flags.disable_taint) [
    | inl p ↦ inl (p, ground arith)
    | inr p ↦ elim (Result-cases (effect_of flags flags.taint_effect)) [
      | inl (e, l) ↦ inr (p, e, l, ground arith)
      | inr (e, l) ↦ absurd (ground arith)
    ]
  ]

  with_webhook_auth_lem :
      (c d : NodeConfig)
      → with_webhook_auth flags util c ≡ ok d
      → (d.taints ≡ c.taints)
        × (d.provider_id ≡ c.provider_id)
        × (d.kubelet_version ≡ c.kubelet_version)
        × (flags.webhook_auth ≡ true → d.tls.client_auth ≡ request_client_cert)
  unfolding with_webhook_auth authenticated
  with_webhook_auth_lem c d h = elim (Bool-cases flags.webhook_auth) [
    | inr p ↦ (ground arith, ground arith, ground arith, λ q. cc)
    | inl p ↦ elim (Result-cases (util.webhook_auth (configure_webhook flags util))) [
      | inl (w, l) ↦ (ground arith, ground arith, ground arith, λ q. ground arith)
      | inr (e, l) ↦ absurd (ground arith)
    ]
  ]

  with_provider_id_lem :
      (c d : NodeConfig)
      → with_provider_id flags c ≡ ok d
      → (d.taints ≡ c.taints) × (d.provider_id ≡ flags.provider_id)
  unfolding with_provider_id
  with_provider_id_lem c d h = (cc, cc)

  with_version_lem :
      (c d : NodeConfig)
      → with_version flags c ≡ ok d
      → (d.taints ≡ c.taints)
        × (d.provider_id ≡ c.provider_id)
        × (d.kubelet_version ≡ version flags)
  unfolding with_version
  with_version_lem c d h = (cc, cc, cc)

  configure_routes_lem :
      (c d : NodeConfig)
      → ((a b : NodeConfig) → util.attach_provider_routes a ≡ ok b → b ≡ a)
      → configure_routes flags util c ≡ ok d
      → d ≡ record c { handler = mux }
  unfolding configure_routes
  configure_routes_lem c d keeps h = keeps (record c { handler = mux }) d h

  -- The last two options.
  abbrev listening : NodeConfig → NodeConfig
  listening c = record c {
    handler = mux;
    informer_resync_period = flags.resync;
    num_workers = flags.number_of_workers;
    http_listen_addr = ":" <> flags.listen_port;
  }

  listening_lem :
      (c d e : NodeConfig)
      → d ≡ record c { handler = mux }
      → with_listener flags util d ≡ ok e
      → e ≡ listening c
  unfolding with_listener
  listening_lem c d e p h = cc

configured_lem :
    (flags : Flags) (util : NodeUtil) (first cfg : NodeConfig)
    → IsNodeUtil util
    → apply_all (options flags util) first ≡ ok cfg
    → IsConfigured flags first cfg
unfolding options with_tls
configured_lem flags util first cfg v h =
    let (c1, l1, (c2, l2, (c3, l3, (c4, l4, (c5, l5, (c6, l6, (c7, l7, (c8, l8, l9)))))))) =
      apply_all-Steps (options flags util) first cfg h in
    let same = v.client first c1 l1 in
    let tainted = with_taint_lem flags util c1 c2 l2 in
    let (t3, i3) = with_provider_id_lem flags util c2 c3 l3 in
    let (t4, i4, k4) = with_version_lem flags util c3 c4 l4 in
    let verified = v.tls _ c4 c5 l5 in
    let (t6, i6, k6, auth) = with_webhook_auth_lem flags util c5 c6 l6 in
    let routed = configure_routes_lem flags util c6 c7 v.routes l7 in
    let last = sym l9 ∙ listening_lem flags util c6 c7 c8 routed l8 in
    let kept : cfg.taints ≡ c2.taints =
      ap (λ (c : NodeConfig). c.taints) last
      ∙ (t6 ∙ (ap (λ (c : NodeConfig). c.taints) verified ∙ (t4 ∙ t3))) in
    record {
      handler = ap (λ (c : NodeConfig). c.handler) last;
      client_auth = λ p. ap (λ (c : NodeConfig). c.tls.client_auth) last ∙ auth p;
      taints =
          subst (λ ts. Tainted flags ts cfg.taints) (ap (λ (c : NodeConfig). c.taints) same)
            (subst (λ ts. Tainted flags c1.taints ts) (sym kept) tainted);
      provider_id =
          ap (λ (c : NodeConfig). c.provider_id) last
          ∙ (i6 ∙ (ap (λ (c : NodeConfig). c.provider_id) verified ∙ (i4 ∙ i3)));
      kubelet_version =
          ap (λ (c : NodeConfig). c.kubelet_version) last
          ∙ (k6 ∙ (ap (λ (c : NodeConfig). c.kubelet_version) verified ∙ k4));
      num_workers = ap (λ (c : NodeConfig). c.num_workers) last;
      informer_resync_period = ap (λ (c : NodeConfig). c.informer_resync_period) last;
      http_listen_addr = ap (λ (c : NodeConfig). c.http_listen_addr) last;
    }

apply_all-ok :
    (os : List NodeOption) (c : NodeConfig)
    → AllSucceed os
    → (d : NodeConfig) × (apply_all os c ≡ ok d)
apply_all-ok [] c v = (c, refl)
apply_all-ok (o ∷ os) c (succeeds, v) = let (next, l) = succeeds c in rw l (apply_all-ok os next v)

-- The options of the program can be applied to a configuration if the library refuses nothing and
-- the flags name an effect of the taint or disable it. If they are applied, the node serves the mux with the routes of
-- the provider as it is, without the handler that authenticates and authorizes, whether the webhook
-- is asked for or not, since the routes are configured after it; and with the webhook a certificate
-- of the client is requested but not required. The node has the taint, unless it is disabled, and the
-- provider id, the version, the workers, the period and the address of the flags. The options of
-- the library are taken to change only what they are named for.
pub options-IsConfigured :
    (flags : Flags) (util : NodeUtil) (first : NodeConfig)
    → IsNodeUtil util
    → (IsWilling flags util → (cfg : NodeConfig) × (apply_all (options flags util) first ≡ ok cfg))
      × ((cfg : NodeConfig)
          → apply_all (options flags util) first ≡ ok cfg
          → IsConfigured flags first cfg)
options-IsConfigured flags util first v = (
  λ w. apply_all-ok (options flags util) first (options-AllSucceed flags util w),
  λ cfg h. configured_lem flags util first cfg v h,
)
