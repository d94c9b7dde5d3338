-- ===== src/Provider/PodCredentials.antt =====
-- pkg/provider/pod_credentials.go: the service account token and the config maps of a pod.
pub mod Search
use macos_exec_kubelet.Base.{
  String, Bool, true, false, ◌&&◌, Option, none, some, List, [], ◌∷◌, Result, ok, err, ◌>>=◌, ◌==◌,
  string_eq, if◌then◌else◌,
}
use macos_exec_kubelet.Base.Dict
use macos_exec_kubelet.Base.Dict.{Dict, is_some}
use macos_exec_kubelet.Api.{
  Pod, Volume, VolumeProjection, ServiceAccountTokenProjection, ConfigMapProjection, ConfigMap,
}
use macos_exec_kubelet.Provider.Api.{KubeApi, TokenRequest}

-- The two variables of findProjections.
pub record Projections : Type 0 where
  pub token : Option ServiceAccountTokenProjection
  pub config_map : Option ConfigMapProjection

abbrev pub or_old {ℓ} : {A : Type ℓ} → Option A → Option A → Option A
or_old none old = old
or_old (some new) old = some new

abbrev pub take_source : VolumeProjection → Projections → Projections
take_source source p = record {
  token = or_old source.service_account_token p.token;
  config_map = or_old source.config_map p.config_map;
}

abbrev pub is_full : Projections → Bool
is_full p = is_some p.token && is_some p.config_map

-- The inner loop, with its `break`.
unfoldable pub scan_sources : List VolumeProjection → Projections → Projections
scan_sources [] p = p
scan_sources (source ∷ rest) p =
    let q = take_source source p in let more = scan_sources rest q in if is_full q then q else more

abbrev pub sources_of : Volume → List VolumeProjection
sources_of v = elim v.source.projected [ none ↦ [] | some sources ↦ sources ]

unfoldable pub scan_volumes : List Volume → Projections → Projections
unfolding scan_sources
scan_volumes [] p = p
scan_volumes (v ∷ rest) p = scan_volumes rest (scan_sources (sources_of v) p)

unfoldable pub find_projections : Pod → Projections
unfolding scan_volumes
find_projections pod = scan_volumes pod.spec.volumes (record { token = none; config_map = none })

module _ (api : KubeApi) where
  populate_config_maps :
      String → Option ConfigMapProjection → Dict String ConfigMap → Result (Dict String ConfigMap)
  populate_config_maps namespace none maps = ok maps
  populate_config_maps namespace (some proj) maps = do
    config_map ← api.get_config_map namespace proj.name
    ok (Dict.insert proj.name config_map maps)

  create_service_account_token : String → String → ServiceAccountTokenProjection → Result String
  create_service_account_token namespace sa_name proj =
      let audiences = if proj.audience == "" then [] else proj.audience ∷ [] in
      api.create_token namespace sa_name
        (record { audiences = audiences; expiration_seconds = proj.expiration_seconds })

  token_for : Pod → Option ServiceAccountTokenProjection → Result String
  unfolding create_service_account_token
  token_for pod none = ok ""
  token_for pod (some proj) =
      create_service_account_token pod.namespace pod.spec.service_account_name proj

  abbrev automounts : Option Bool → Bool
  automounts none = true
  automounts (some b) = b

  -- The config maps by name, and the token.
  unfoldable pub extract_pod_credentials : Pod → Result (Dict String ConfigMap × String)
  unfolding populate_config_maps token_for find_projections
  extract_pod_credentials pod =
      if automounts pod.spec.automount_service_account_token
      then (do
        let p = find_projections pod
        maps ← populate_config_maps pod.namespace p.config_map []
        token ← token_for pod p.token
        ok (maps, token))
      else ok ([], "")
