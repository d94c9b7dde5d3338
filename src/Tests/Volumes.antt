-- ===== src/Tests/Volumes.antt =====
-- The mounts of a container on a concrete pod.
use macos_exec_kubelet.Base.{String, true, false, none, some, List, [], ◌∷◌, string_eq, ◌≡◌, refl}
use macos_exec_kubelet.Base.Dict
use macos_exec_kubelet.Base.Dict.{Dict}
use macos_exec_kubelet.Api.{Pod, Container, VolumeProjection, VolumeMount, ConfigMap}
use macos_exec_kubelet.Volumes.{
  FileSystem, mkdir_all, write_file, Mount, done, ended, panics, find_volume, prepend,
  create_container_mounts,
}
use macos_exec_kubelet.Volumes.Planned.{planned, AllVolumesGiven, create_container_mounts-planned}
use macos_exec_kubelet.Tests.Data.{busy, pod_with}

abbrev fs : FileSystem
fs = record { mkdir_reply = λ t p. none; write_reply = λ t p. none; join = λ s. "joined" }

abbrev projection : VolumeProjection
projection = record {
  service_account_token = none;
  config_map =
      some (record { name = "cm"; items = record { key = "k"; path = "f"; mode = none } ∷ [] });
  downward_api = none;
}

abbrev mount : VolumeMount
mount = record { name = "v"; mount_path = "/m"; sub_path = ""; read_only = true }

abbrev container : Container
container = record busy { volume_mounts = mount ∷ record mount { name = "other" } ∷ [] }

abbrev pod_of : VolumeProjection → Pod
pod_of source =
    let base = pod_with (container ∷ []) in
    record base {
      spec = record (base.spec) {
        volumes =
            record {
              name = "v";
              source = record {
                host_path = none;
                empty_dir = false;
                projected = some (source ∷ []);
              };
            }
            ∷ [];
      };
    }

abbrev maps : Dict String ConfigMap
maps = ("cm", record { contents = ("k", "text") ∷ [] }) ∷ []

abbrev created : List Mount
created =
    record { name = "v"; host_path = "joined"; container_path = "joined"; read_only = true } ∷ []

mounts_created :
    create_container_mounts fs "/root" (pod_of projection) "token" maps container []
    ≡ (done created, write_file "joined" "text" 493 ∷ mkdir_all "joined" 493 ∷ [])
unfolding create_container_mounts find_volume string_eq Dict.lookup prepend
mounts_created = refl

create_container_mounts-planned_example :
    (created ≡ planned fs "/root" (pod_of projection) "token" maps container.volume_mounts)
    × AllVolumesGiven fs "/root" (pod_of projection) "token" maps container.volume_mounts
unfolding create_container_mounts find_volume string_eq Dict.lookup prepend
create_container_mounts-planned_example =
    create_container_mounts-planned fs "/root" (pod_of projection) "token" maps container [] created
      refl

-- An item that refers to a resource and not to a field ends the process.
resource_item_panics :
    (create_container_mounts fs "/root"
      (pod_of (record {
        service_account_token = none;
        config_map = none;
        downward_api = some (record { field_ref = none; path = "p"; mode = none } ∷ []);
      }))
      "token"
      maps
      container
      []).0
    ≡ ended panics
unfolding create_container_mounts find_volume string_eq Dict.lookup prepend
resource_item_panics = refl
