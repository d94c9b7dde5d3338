-- ===== src/Volumes/Mounts.antt =====
-- Which mounts a container gets, and what they ask of the pod.
use macos_exec_kubelet.Base.{
  String, Option, none, some, List, [], ◌∷◌, ◌≡◌, ◌≢◌, refl, arith, string_eq,
}
use macos_exec_kubelet.Base.Dict
use macos_exec_kubelet.Base.Dict.{Dict, is_some}
use macos_exec_kubelet.Api.{Pod, VolumeProjection, ConfigMap, ConfigMapProjection, DownwardItem}
use macos_exec_kubelet.Volumes.{
  FileSystem, Stop, Trace, Step, next, write_config_map, write_field, write_fields,
  write_downward_api, write_sources,
}

-- Every item has a field reference.
abbrev pub HaveFields : List DownwardItem → Type 0
HaveFields [] = Unit
HaveFields (item ∷ rest) = (item.field_ref ≢ none) × HaveFields rest

abbrev pub MapGiven : Dict String ConfigMap → Option ConfigMapProjection → Type 0
MapGiven maps none = Unit
MapGiven maps (some proj) = Dict.lookup proj.name maps ≢ none

abbrev pub FieldsGiven : Option (List DownwardItem) → Type 0
FieldsGiven none = Unit
FieldsGiven (some items) = HaveFields items

-- Every projected config map is given, and every downward item has a field reference.
abbrev pub AllGiven : Dict String ConfigMap → List VolumeProjection → Type 0
AllGiven maps [] = Unit
AllGiven maps (source ∷ rest) =
    MapGiven maps source.config_map × FieldsGiven source.downward_api × AllGiven maps rest

pub next-none :
    (r : Option Stop × Trace) (f : Step) → (next r f).0 ≡ none → (r.0 ≡ none) × ((f r.1).0 ≡ none)
unfolding next
next-none (none, t) f h = (refl, h)
next-none (some s, t) f h = cc

module _ (fs : FileSystem) (root : String) (pod : Pod) (token : String)
    (maps : Dict String ConfigMap) where
  write_config_map-MapGiven :
      (dir : String) (o : Option ConfigMapProjection) (t : Trace)
      → (write_config_map fs root pod token maps dir o t).0 ≡ none
      → MapGiven maps o
  unfolding write_config_map
  write_config_map-MapGiven dir none t h = tt
  write_config_map-MapGiven dir (some proj) t h = λ l. ground arith

  write_fields-HaveFields :
      (dir : String) (items : List DownwardItem) (t : Trace)
      → (write_fields fs root pod token maps dir items t).0 ≡ none
      → HaveFields items
  unfolding write_fields
  write_fields-HaveFields dir [] t h = tt
  write_fields-HaveFields dir (item ∷ rest) t h =
      let (first, others) =
        next-none (write_field fs root pod token maps dir item item.field_ref t)
          (write_fields fs root pod token maps dir rest) h in
      (λ l. ground arith, write_fields-HaveFields dir rest _ others)

  write_downward_api-FieldsGiven :
      (dir : String) (o : Option (List DownwardItem)) (t : Trace)
      → (write_downward_api fs root pod token maps dir o t).0 ≡ none
      → FieldsGiven o
  unfolding write_downward_api
  write_downward_api-FieldsGiven dir none t h = tt
  write_downward_api-FieldsGiven dir (some items) t h = write_fields-HaveFields dir items t h

  pub write_sources-AllGiven :
      (dir : String) (sources : List VolumeProjection) (t : Trace)
      → (write_sources fs root pod token maps dir sources t).0 ≡ none
      → AllGiven maps sources
  unfolding write_sources
  write_sources-AllGiven dir [] t h = tt
  write_sources-AllGiven dir (source ∷ rest) t h =
      let (here, others) = next-none _ (write_sources fs root pod token maps dir rest) h in
      let (before, fields) =
        next-none _ (write_downward_api fs root pod token maps dir source.downward_api) here in
      let (first, given) =
        next-none _ (write_config_map fs root pod token maps dir source.config_map) before in
      (
        write_config_map-MapGiven dir source.config_map _ given,
        write_downward_api-FieldsGiven dir source.downward_api _ fields,
        write_sources-AllGiven dir rest _ others,
      )
