-- ===== src/Api.antt =====
-- The Kubernetes objects that the program reads and reports (k8s.io/api/core/v1), with the fields
-- that it uses. A pointer that may be nil is an `Option`.
use macos_exec_kubelet.Base.{ℕ, String, Bool, Option, List, ℤ, NamespacedName}

-- metav1.Time, in nanoseconds; 0 is the zero time.
abbrev pub Time : Type 0
Time = ℕ

pub record EnvVar : Type 0 where
  pub name : String
  pub value : String

pub record VolumeMount : Type 0 where
  pub name : String
  pub mount_path : String
  pub sub_path : String
  pub read_only : Bool

pub record KeyToPath : Type 0 where
  pub key : String
  pub path : String
  pub mode : Option ℤ

pub record ConfigMapProjection : Type 0 where
  pub name : String
  pub items : List KeyToPath

pub record ServiceAccountTokenProjection : Type 0 where
  pub audience : String
  pub expiration_seconds : Option ℤ
  pub path : String

-- An item of a downward API projection; it has a field reference or a resource reference.
pub record DownwardItem : Type 0 where
  pub field_ref : Option String
  pub path : String
  pub mode : Option ℤ

pub record VolumeProjection : Type 0 where
  pub service_account_token : Option ServiceAccountTokenProjection
  pub config_map : Option ConfigMapProjection
  pub downward_api : Option (List DownwardItem)

pub record VolumeSource : Type 0 where
  pub host_path : Option String
  pub empty_dir : Bool  -- whether the pointer is set
  pub projected : Option (List VolumeProjection)

pub record Volume : Type 0 where
  pub name : String
  pub source : VolumeSource

pub record Handler : Type 0 where
  pub exec : Option (List String)

pub record Lifecycle : Type 0 where
  pub pre_stop : Option Handler

pub record Container : Type 0 where
  pub name : String
  pub command : List String
  pub args : List String
  pub env : List EnvVar
  pub volume_mounts : List VolumeMount
  pub lifecycle : Option Lifecycle

pub data Phase : Type 0 where
  pending running succeeded failed : Phase

pub record Terminated : Type 0 where
  pub exit_code : ℤ
  pub started_at : Time
  pub finished_at : Time

pub record ContainerState : Type 0 where
  pub running_since : Option Time
  pub terminated : Option Terminated

pub record ContainerStatus : Type 0 where
  pub name : String
  pub state : ContainerState
  pub ready : Bool
  pub restart_count : ℕ
  pub image : String
  pub image_id : String

pub record PodStatus : Type 0 where
  pub phase : Phase
  pub host_ip : String
  pub pod_ip : String
  pub start_time : Time
  pub container_statuses : List ContainerStatus

pub record PodSpec : Type 0 where
  pub containers : List Container
  pub volumes : List Volume
  pub service_account_name : String
  pub automount_service_account_token : Option Bool
  pub image_pull_secrets : List String

pub record Pod : Type 0 where
  pub namespace : String
  pub name : String
  pub uid : String
  pub creation_timestamp : Time
  pub deletion_grace_period_seconds : Option ℤ
  pub spec : PodSpec
  pub status : PodStatus

abbrev pub pod_key : Pod → NamespacedName
pod_key p = record { namespace = p.namespace; name = p.name }

pub record ConfigMap : Type 0 where
  pub contents : List (String × String)
