-- ===== src/Volumes.antt =====
-- internal/volumes/mounts.go: the mounts of a container, and the files that they need. The calls
-- of the file system are kept in a trace, the newest first, and its replies are a parameter.
pub mod Mounts
pub mod Planned
use macos_exec_kubelet.Base.{
  ℕ, String, Bool, true, false, Option, none, some, List, [], ◌∷◌, Error, message, wrap, ◌==◌,
  string_eq, if◌then◌else◌, ℤ, to_word,
}
use macos_exec_kubelet.Base.Dict
use macos_exec_kubelet.Base.Dict.{Dict}
use macos_exec_kubelet.Api.{
  Pod, Container, Volume, VolumeSource, VolumeMount, VolumeProjection, KeyToPath, ConfigMap,
  ConfigMapProjection, ServiceAccountTokenProjection, DownwardItem,
}

-- os.MkdirAll and os.WriteFile, with path, content and mode.
pub data FileCall : Type 0 where
  mkdir_all : String → ℕ → FileCall
  write_file : String → String → ℕ → FileCall

pub record FileSystem : Type 0 where
  pub mkdir_reply : List FileCall → String → Option Error
  pub write_reply : List FileCall → String → Option Error
  -- filepath.Join
  pub join : List String → String

pub record Mount : Type 0 where
  pub name : String
  pub host_path : String
  pub container_path : String
  pub read_only : Bool

-- How a step ends early: with an error, or with a nil dereference.
pub data Stop : Type 0 where
  fails : Error → Stop
  panics : Stop

abbrev pub Trace : Type 0
Trace = List FileCall

abbrev pub Step : Type 0
Step = Trace → Option Stop × Trace

-- The next step, unless the first one has stopped.
unfoldable pub next : Option Stop × Trace → Step → Option Stop × Trace
next (some stop, t) f = (some stop, t)
next (none, t) f = f t

abbrev pub skip : Step
skip t = (none, t)

abbrev pub stop_of : String → Option Error → Option Stop
stop_of text none = none
stop_of text (some e) = some (fails (wrap text e))

-- PodVolPerms, 0755, and the mode of an item
abbrev pub pod_vol_perms : ℕ
pod_vol_perms = 0o755

abbrev pub mode_of : Option ℤ → ℕ
mode_of none = pod_vol_perms
mode_of (some mode) = to_word 32 mode

-- findPodVolumeSpec
unfoldable pub find_volume : List Volume → String → Option VolumeSource
find_volume [] name = none
find_volume (v ∷ rest) name =
    let found = find_volume rest name in if v.name == name then some v.source else found

-- What a volume contributes: no mount, a mount of a host path, or an early end.
pub data Mounted : Type 0 where
  skipped : Mounted
  mounted : String → Mounted
  stopped : Stop → Mounted

pub data Outcome : Type 0 where
  done : List Mount → Outcome
  ended : Stop → Outcome

unfoldable pub prepend : Mount → Outcome × Trace → Outcome × Trace
prepend m (done mounts, t) = (done (m ∷ mounts), t)
prepend m (ended stop, t) = (ended stop, t)

module _ (fs : FileSystem) (root : String) (pod : Pod) (token : String)
    (maps : Dict String ConfigMap) where
  unfoldable pub make_dir : String → String → Step
  make_dir text path t = (stop_of text (fs.mkdir_reply t path), mkdir_all path pod_vol_perms ∷ t)

  unfoldable pub write : String → String → String → ℕ → Step
  write text path content mode t =
      (stop_of text (fs.write_reply t path), write_file path content mode ∷ t)

  unfoldable pub write_token : String → Option ServiceAccountTokenProjection → Step
  unfolding write
  write_token dir none t = skip t
  write_token dir (some proj) t =
      write "error writing service account token" (fs.join (dir ∷ proj.path ∷ [])) token
        pod_vol_perms t

  -- A key that the config map lacks gives an empty file.
  abbrev or_empty : Option String → String
  or_empty none = ""
  or_empty (some s) = s

  unfoldable pub write_items : String → ConfigMap → List KeyToPath → Step
  unfolding write next
  write_items dir config_map [] t = skip t
  write_items dir config_map (item ∷ rest) t =
      next
        (write "error writing config map" (fs.join (dir ∷ item.path ∷ []))
          (or_empty (Dict.lookup item.key config_map.contents)) (mode_of item.mode) t)
        (write_items dir config_map rest)

  unfoldable pub write_found : String → ConfigMapProjection → Option ConfigMap → Step
  unfolding write_items
  write_found dir proj none t = (some (fails (message "config map not found")), t)
  write_found dir proj (some config_map) t = write_items dir config_map proj.items t

  unfoldable pub write_config_map : String → Option ConfigMapProjection → Step
  unfolding write_found
  write_config_map dir none t = skip t
  write_config_map dir (some proj) t = write_found dir proj (Dict.lookup proj.name maps) t

  -- Only the namespace is supported. An item without a field reference is a nil dereference.
  unfoldable pub write_field : String → DownwardItem → Option String → Step
  unfolding write
  write_field dir item none t = (some panics, t)
  write_field dir item (some field) t =
      if field == "metadata.namespace"
      then write "error writing downward API" (fs.join (dir ∷ item.path ∷ [])) pod.namespace
          (mode_of item.mode) t
      else skip t

  unfoldable pub write_fields : String → List DownwardItem → Step
  unfolding write_field next
  write_fields dir [] t = skip t
  write_fields dir (item ∷ rest) t =
      next (write_field dir item item.field_ref t) (write_fields dir rest)

  unfoldable pub write_downward_api : String → Option (List DownwardItem) → Step
  unfolding write_fields
  write_downward_api dir none t = skip t
  write_downward_api dir (some items) t = write_fields dir items t

  unfoldable pub write_sources : String → List VolumeProjection → Step
  unfolding write_token write_config_map write_downward_api next
  write_sources dir [] t = skip t
  write_sources dir (source ∷ rest) t =
      next
        (next
          (next (write_token dir source.service_account_token t)
            (write_config_map dir source.config_map))
          (write_downward_api dir source.downward_api))
        (write_sources dir rest)

  unfoldable pub at_path : String → Option Stop × Trace → Mounted × Trace
  at_path path (none, t) = (mounted path, t)
  at_path path (some stop, t) = (stopped stop, t)

  unfoldable pub mount_projected : String → Option (List VolumeProjection) → Trace → Mounted × Trace
  unfolding write_sources make_dir at_path
  mount_projected path none t = (skipped, t)
  mount_projected path (some sources) t =
      at_path path (next (make_dir "error making projected" path t) (write_sources path sources))

  unfoldable pub mount_created : String → VolumeSource → Trace → Mounted × Trace
  unfolding mount_projected
  mount_created path v t =
      if v.empty_dir
      then at_path path (make_dir "error making emptyDir" path t)
      else mount_projected path v.projected t

  unfoldable pub mount_volume : String → VolumeSource → Option String → Trace → Mounted × Trace
  unfolding mount_created
  mount_volume path v none t = mount_created path v t
  mount_volume path v (some host) t = at_path host (make_dir "error making hostPath" host t)

  unfoldable pub mount_spec : VolumeMount → Option VolumeSource → Trace → Mounted × Trace
  unfolding mount_volume
  mount_spec m none t = (skipped, t)
  mount_spec m (some v) t = mount_volume (fs.join (root ∷ m.name ∷ [])) v v.host_path t

  abbrev pub mount_at : VolumeMount → String → Mount
  mount_at m path = record {
    name = m.name;
    host_path = path;
    container_path = fs.join (m.mount_path ∷ m.sub_path ∷ []);
    read_only = m.read_only;
  }

  -- The loop over the volume mounts of a container.
  unfoldable pub create_mounts : List VolumeMount → Trace → Outcome × Trace
  unfolding mount_spec
  create_mounts [] t = (done [], t)
  create_mounts (m ∷ rest) t =
      let (r, u) = mount_spec m (find_volume pod.spec.volumes m.name) t in
      elim r [
        | skipped ↦ create_mounts rest u
        | mounted path ↦ prepend (mount_at m path) (create_mounts rest u)
        | stopped stop ↦ (ended stop, u)
      ]

  unfoldable pub create_container_mounts : Container → Trace → Outcome × Trace
  unfolding create_mounts
  create_container_mounts container t = create_mounts container.volume_mounts t
