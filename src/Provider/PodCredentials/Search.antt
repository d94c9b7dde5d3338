-- ===== src/Provider/PodCredentials/Search.antt =====
-- Which projections findProjections finds.
use macos_exec_kubelet.Base.{none, some, List, [], ◌∷◌, ◌≡◌, ◌⊎◌, inr, arith}
use macos_exec_kubelet.Api.{
  Pod, Volume, VolumeProjection, ServiceAccountTokenProjection, ConfigMapProjection,
}
use macos_exec_kubelet.Provider.PodCredentials.{
  Projections, take_source, scan_sources, sources_of, scan_volumes, find_projections,
}

abbrev pub AnySource : (VolumeProjection → Type 0) → List VolumeProjection → Type 0
AnySource P [] = ⊥
AnySource P (s ∷ rest) = P s ⊎ AnySource P rest

abbrev pub EverySource : (VolumeProjection → Type 0) → List VolumeProjection → Type 0
EverySource P [] = Unit
EverySource P (s ∷ rest) = P s × EverySource P rest

abbrev pub AnyVolume : (VolumeProjection → Type 0) → List Volume → Type 0
AnyVolume P [] = ⊥
AnyVolume P (v ∷ rest) = AnySource P (sources_of v) ⊎ AnyVolume P rest

abbrev pub EveryVolume : (VolumeProjection → Type 0) → List Volume → Type 0
EveryVolume P [] = Unit
EveryVolume P (v ∷ rest) = EverySource P (sources_of v) × EveryVolume P rest

abbrev pub Offers : ServiceAccountTokenProjection → VolumeProjection → Type 0
Offers t s = s.service_account_token ≡ some t

abbrev pub NoToken : VolumeProjection → Type 0
NoToken s = s.service_account_token ≡ none

abbrev pub OffersMap : ConfigMapProjection → VolumeProjection → Type 0
OffersMap m s = s.config_map ≡ some m

abbrev pub NoMap : VolumeProjection → Type 0
NoMap s = s.config_map ≡ none

scan_sources-token :
    (l : List VolumeProjection) (p : Projections) (t : ServiceAccountTokenProjection)
    → (scan_sources l p).token ≡ some t
    → AnySource (Offers t) l ⊎ (p.token ≡ some t)
unfolding scan_sources
scan_sources-token [] p t h = inr h
scan_sources-token (s ∷ l) p t h = ground (arith, scan_sources-token l (take_source s p) t)

scan_sources-map :
    (l : List VolumeProjection) (p : Projections) (m : ConfigMapProjection)
    → (scan_sources l p).config_map ≡ some m
    → AnySource (OffersMap m) l ⊎ (p.config_map ≡ some m)
unfolding scan_sources
scan_sources-map [] p m h = inr h
scan_sources-map (s ∷ l) p m h = ground (arith, scan_sources-map l (take_source s p) m)

scan_sources-none :
    (l : List VolumeProjection) (p : Projections)
    → ((scan_sources l p).token ≡ none → EverySource NoToken l × (p.token ≡ none))
      × ((scan_sources l p).config_map ≡ none → EverySource NoMap l × (p.config_map ≡ none))
unfolding scan_sources
scan_sources-none [] p = (λ h. (tt, h), λ h. (tt, h))
scan_sources-none (s ∷ l) p = (
  λ h. ground (arith, scan_sources-none l (take_source s p)),
  λ h. ground (arith, scan_sources-none l (take_source s p)),
)

scan_volumes-token :
    (l : List Volume) (p : Projections) (t : ServiceAccountTokenProjection)
    → (scan_volumes l p).token ≡ some t
    → AnyVolume (Offers t) l ⊎ (p.token ≡ some t)
unfolding scan_volumes
scan_volumes-token [] p t h = inr h
scan_volumes-token (v ∷ l) p t h = ground (
  arith,
  scan_volumes-token l (scan_sources (sources_of v) p) t,
  scan_sources-token (sources_of v) p t,
)

scan_volumes-map :
    (l : List Volume) (p : Projections) (m : ConfigMapProjection)
    → (scan_volumes l p).config_map ≡ some m
    → AnyVolume (OffersMap m) l ⊎ (p.config_map ≡ some m)
unfolding scan_volumes
scan_volumes-map [] p m h = inr h
scan_volumes-map (v ∷ l) p m h = ground (
  arith,
  scan_volumes-map l (scan_sources (sources_of v) p) m,
  scan_sources-map (sources_of v) p m,
)

scan_volumes-none :
    (l : List Volume) (p : Projections)
    → ((scan_volumes l p).token ≡ none → EveryVolume NoToken l × (p.token ≡ none))
      × ((scan_volumes l p).config_map ≡ none → EveryVolume NoMap l × (p.config_map ≡ none))
unfolding scan_volumes
scan_volumes-none [] p = (λ h. (tt, h), λ h. (tt, h))
scan_volumes-none (v ∷ l) p =
    let rest = scan_volumes-none l (scan_sources (sources_of v) p) in
    let here = scan_sources-none (sources_of v) p in
    (
      λ h. let (all, q) = rest.0 h in let (own, old) = here.0 q in ((own, all), old),
      λ h. let (all, q) = rest.1 h in let (own, old) = here.1 q in ((own, all), old),
    )

-- What findProjections returns, a volume of the pod projects; and where it returns no token
-- projection or no config map projection, no volume projects one.
pub find_projections_lem :
    (pod : Pod)
    → ((t : ServiceAccountTokenProjection)
        → (find_projections pod).token ≡ some t
        → AnyVolume (Offers t) pod.spec.volumes)
      × ((m : ConfigMapProjection)
          → (find_projections pod).config_map ≡ some m
          → AnyVolume (OffersMap m) pod.spec.volumes)
      × ((find_projections pod).token ≡ none → EveryVolume NoToken pod.spec.volumes)
      × ((find_projections pod).config_map ≡ none → EveryVolume NoMap pod.spec.volumes)
unfolding find_projections
find_projections_lem pod = (
  λ t h. ground (arith, scan_volumes-token pod.spec.volumes _ t h),
  λ m h. ground (arith, scan_volumes-map pod.spec.volumes _ m h),
  λ h. ((scan_volumes-none pod.spec.volumes _).0 h).0,
  λ h. ((scan_volumes-none pod.spec.volumes _).1 h).0,
)
