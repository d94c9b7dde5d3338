-- ===== src/Data/Containers.antt =====
-- internal/data/container: containerdata.go and containerinfo.go.
pub mod Refinement
use macos_exec_kubelet.Base.{
  String, Bool, true, false, Option, none, some, List, [], ◌∷◌, Error, NamespacedName, key_eq,
  string_eq,
}
use macos_exec_kubelet.Base.Dict
use macos_exec_kubelet.Base.Dict.{Dict, is_some}

pub record ContainerInfo : Type 0 where
  pub id : String
  pub error : Option Error

abbrev pub with_id : String → ContainerInfo → ContainerInfo
with_id id i = record i { id = id }

abbrev pub with_error : Option Error → ContainerInfo → ContainerInfo
with_error e i = record i { error = e }

-- ContainerData: a map of maps, by pod and by the name of the container.
abbrev pub Containers : Type 0
Containers = Dict NamespacedName (Dict String ContainerInfo)

abbrev get_in : String → Option (Dict String ContainerInfo) → Option ContainerInfo
get_in c none = none
get_in c (some infos) = Dict.lookup c infos

-- GetContainerInfo
unfoldable pub get_container_info : NamespacedName → String → Containers → Option ContainerInfo
get_container_info k c d = get_in c (Dict.lookup k d)

-- The inner map of a pod, by LoadOrStore: an empty one if there is none.
abbrev pub inner : Option (Dict String ContainerInfo) → Dict String ContainerInfo
inner none = []
inner (some infos) = infos

-- SetContainerInfo
unfoldable pub set_container_info :
    NamespacedName → String → ContainerInfo → Containers → Containers
set_container_info k c info d = Dict.insert k (Dict.insert c info (inner (Dict.lookup k d))) d

keep_or_set :
    NamespacedName
    → String
    → ContainerInfo
    → Option ContainerInfo
    → Containers
    → (ContainerInfo × Bool) × Containers
unfolding set_container_info
keep_or_set k c info (some old) d = ((old, true), d)
keep_or_set k c info none d = ((info, false), set_container_info k c info d)

-- GetOrCreateContainerInfo: LoadOrStore in both maps.
unfoldable pub get_or_create_container_info :
    NamespacedName → String → ContainerInfo → Containers → (ContainerInfo × Bool) × Containers
unfolding keep_or_set
get_or_create_container_info k c info d =
    keep_or_set k c info (Dict.lookup c (inner (Dict.lookup k d))) d

-- GetAllContainerInfo, and RemoveAllContainerInfo, which also deletes what it returns.
unfoldable pub get_all_container_info :
    NamespacedName → Containers → Option (Dict String ContainerInfo)
get_all_container_info k d = Dict.lookup k d

unfoldable pub remove_all_container_info :
    NamespacedName → Containers → Option (Dict String ContainerInfo) × Containers
remove_all_container_info k d = (Dict.lookup k d, Dict.erase k d)

-- GetAllData
abbrev pub get_all_data : Containers → Dict NamespacedName (Dict String ContainerInfo)
get_all_data d = d
