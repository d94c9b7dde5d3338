-- ===== src/Startup/Options/Willing.antt =====
-- Options that the library does not refuse.
use macos_exec_kubelet.Base.{
  true, none, List, [], ◌∷◌, Result, ok, ◌≡◌, refl, ◌⊎◌, inl, inr, arith, Bool-cases, string_eq,
  ◌==◌,
}
use macos_exec_kubelet.Startup.Options.{
  Flags, TaintEffect, TlsConfig, WebhookAuthConfig, NodeUtil, effect_of, with_taint,
  with_provider_id, with_version, after_ca, set_client_ca, configure_webhook, with_webhook_auth,
  with_ca, with_tls, configure_routes, with_listener, options,
}

-- Each option succeeds on every configuration.
abbrev pub Succeeds : {A : Type 0} → (A → Result A) → Type 0
Succeeds {A} o = (c : A) → (d : A) × (o c ≡ ok d)

abbrev pub AllSucceed : {A : Type 0} → List (A → Result A) → Type 0
AllSucceed [] = Unit
AllSucceed (o ∷ os) = Succeeds o × AllSucceed os

-- The library refuses nothing, and the flags name an effect of the taint or disable it.
pub record IsWilling (flags : Flags) (util : NodeUtil) : Type 0 where
  pub client : Succeeds util.with_client
  pub routes : Succeeds util.attach_provider_routes
  pub tls :
      (os : List (TlsConfig → Result TlsConfig))
      → AllSucceed os
      → Succeeds (util.with_tls_config os)
  pub key_pair : Succeeds (util.with_key_pair_from_path flags.cert_path flags.key_path)
  pub ca_from_path : Succeeds (util.with_ca_from_path flags.client_ca_cert)
  pub webhook :
      (callback : WebhookAuthConfig → Result WebhookAuthConfig)
      → Succeeds callback
      → (c : WebhookAuthConfig) × (util.webhook_auth callback ≡ ok c)
  pub ca : util.new_dynamic_ca flags.client_ca_cert ≡ none
  pub effect :
      (flags.disable_taint ≡ true)
      ⊎ ((e : TaintEffect) × (effect_of flags flags.taint_effect ≡ ok e))

module _ (flags : Flags) (util : NodeUtil) (w : IsWilling flags util) where
  with_taint-ok : Succeeds (with_taint flags)
  unfolding with_taint
  with_taint-ok c = elim (Bool-cases flags.disable_taint) [
    | inl p ↦ (c, rw p refl)
    | inr p ↦ elim w.effect [ inl q ↦ absurd (ground arith) | inr (e, q) ↦ rw (p, q) (_, refl) ]
  ]

  set_client_ca-ok : Succeeds (set_client_ca flags util)
  unfolding set_client_ca after_ca
  set_client_ca-ok c = elim (Bool-cases (flags.client_ca_cert == "")) [
    | inl p ↦ (c, rw p refl)
    | inr p ↦ rw (p, w.ca) (_, refl)
  ]

  configure_webhook-ok : Succeeds (configure_webhook flags util)
  unfolding configure_webhook
  configure_webhook-ok c = set_client_ca-ok _

  with_webhook_auth-ok : Succeeds (with_webhook_auth flags util)
  unfolding with_webhook_auth
  with_webhook_auth-ok c = elim (Bool-cases flags.webhook_auth) [
    | inr p ↦ rw p (_, refl)
    | inl p ↦
        let (a, q) = w.webhook (configure_webhook flags util) configure_webhook-ok in
        rw (p, q) (_, refl)
  ]

  with_ca-ok : Succeeds (with_ca flags util)
  unfolding with_ca
  with_ca-ok c = elim (Bool-cases (flags.client_ca_cert == "")) [
    | inl p ↦ rw p (_, refl)
    | inr p ↦ let (t, q) = w.ca_from_path c in rw (p, q) (_, refl)
  ]

  with_tls-ok : Succeeds (with_tls flags util)
  unfolding with_tls
  with_tls-ok = w.tls _ (w.key_pair, (with_ca-ok, tt))

  pub options-AllSucceed : AllSucceed (options flags util)
  unfolding options with_provider_id with_version with_listener configure_routes
  options-AllSucceed = (
    w.client,
    (
      with_taint-ok,
      (
        λ c. (_, refl),
        (
          λ c. (_, refl),
          (with_tls-ok, (with_webhook_auth-ok, (λ c. w.routes _, (λ c. (_, refl), tt)))),
        ),
      ),
    ),
  )
