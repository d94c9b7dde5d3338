-- ===== src/Provider/Node.antt =====
-- pkg/provider/vk_node.go: what the provider reports of the node. What the host says of itself
-- (gopsutil) is a parameter; the times of the conditions are left out.
pub mod Report
use macos_exec_kubelet.Base.{
  ℕ, String, ◌<>◌, Bool, true, false, Option, none, some, List, [], ◌∷◌, Error, wrap, Result, ok,
  err, ◌>>=◌, map_err, ℤ, pos, int64, string_eq,
}
use macos_exec_kubelet.Base.Dict
use macos_exec_kubelet.Base.Dict.{Dict}
use macos_exec_kubelet.Net.{Interface, Ip, get_active_interface}
use macos_exec_kubelet.Label.{sanitize_apple_cpu_model}
use macos_exec_kubelet.Provider.Pods.{ProviderConfig}

pub record HostInfo : Type 0 where
  pub host_id : String
  pub kernel_version : String
  pub os : String
  pub platform_version : String
  pub platform : String
  pub kernel_arch : String

-- The replies of the host: total memory and disk in bytes, the number of CPUs, the interfaces, the
-- host information, and the models of the CPUs.
pub record Host : Type 0 where
  pub memory_total : Result ℕ
  pub cpu_count : Result ℕ
  pub disk_total : Result ℕ
  pub interfaces : Result (List Interface)
  pub parse_cidr : String → Option Ip
  pub info : Result HostInfo
  pub cpu_models : Result (List String)
  -- strings.ToLower
  pub to_lower : String → String

pub record ResourceList : Type 0 where
  pub cpu : ℤ
  pub memory : ℤ
  pub ephemeral_storage : ℤ
  pub pods : ℤ

pub data ConditionType : Type 0 where
  ready memory_pressure disk_pressure network_unavailable : ConditionType

pub record Condition : Type 0 where
  pub type : ConditionType
  pub status : Bool
  pub reason : String
  pub message : String

pub data Address : Type 0 where
  internal_ip host_name : String → Address

-- The parts of corev1.Node that are set.
pub record Node : Type 0 where
  pub capacity : Option ResourceList
  pub allocatable : Option ResourceList
  pub conditions : List Condition
  pub addresses : List Address
  pub kubelet_port : ℤ
  pub machine_id : String
  pub kernel_version : String
  pub os_image : String
  pub container_runtime_version : String
  pub operating_system : String
  pub architecture : String
  pub labels : Dict String String

abbrev pub default_pods : ℕ
default_pods = 2

-- DiskPressure and the other conditions are constants.
abbrev pub get_node_conditions : List Condition
get_node_conditions =
    record { type = ready; status = true; reason = "KubeletReady"; message = "kubelet is ready." }
    ∷ record {
      type = memory_pressure;
      status = false;
      reason = "KubeletHasSufficientMemory";
      message = "kubelet has sufficient memory available";
    }
    ∷ record {
      type = disk_pressure;
      status = false;
      reason = "KubeletHasNoDiskPressure";
      message = "kubelet has no disk pressure";
    }
    ∷ record {
      type = network_unavailable;
      status = false;
      reason = "RouteCreated";
      message = "RouteController created a route";
    }
    ∷ []

abbrev pub label_exclude_balancers : String
label_exclude_balancers = "node.kubernetes.io/exclude-from-external-load-balancers"

abbrev pub label_os : String
label_os = "kubernetes.io/os"

abbrev pub label_arch : String
label_arch = "kubernetes.io/arch"

abbrev pub label_cpu_model : String
label_cpu_model = "feature.node.kubernetes.io/cpu-model.name"

-- The parts of the node that ConfigureNode sets from the host information, without the labels.
abbrev pub with_info : HostInfo → Node → Node
with_info h n = record n {
  machine_id = h.host_id;
  kernel_version = h.kernel_version;
  os_image = h.os <> (" " <> h.platform_version);
  container_runtime_version = "exec://" <> h.platform_version;
  operating_system = h.platform;
  architecture = h.kernel_arch;
}

unfoldable pub with_cpu_model : Result (List String) → Dict String String → Dict String String
with_cpu_model (err e) labels = labels
with_cpu_model (ok []) labels = labels
with_cpu_model (ok (model ∷ rest)) labels =
    Dict.insert label_cpu_model (sanitize_apple_cpu_model model) labels

module _ (host : Host) (p : ProviderConfig) where
  unfoldable pub get_node_capacity : Result ResourceList
  get_node_capacity = do
    memory ← host.memory_total
    cpus ← host.cpu_count
    disk ← host.disk_total
    ok (record {
      cpu = int64 cpus;
      memory = int64 memory;
      ephemeral_storage = int64 disk;
      pods = pos default_pods;
    })

  unfoldable pub retrieve_node_ip_address : Result String
  retrieve_node_ip_address = host.interfaces >>= get_active_interface host.parse_cidr

  unfoldable pub node_addresses : Result (List Address)
  unfolding retrieve_node_ip_address
  node_addresses = do
    ip ← retrieve_node_ip_address
    ok (internal_ip ip ∷ host_name p.node_name ∷ [])

  unfoldable pub with_labels : HostInfo → Dict String String → Dict String String
  unfolding with_cpu_model
  with_labels h labels = with_cpu_model host.cpu_models (
      Dict.insert label_arch h.kernel_arch (
        Dict.insert label_os (host.to_lower h.platform)
          (Dict.insert label_exclude_balancers "true" labels)))

  unfoldable pub node_daemon_endpoints : ℤ
  node_daemon_endpoints = p.daemon_endpoint_port

  -- The node is changed in place, step by step, so that it is given with the error too.
  after_info : Node → Result HostInfo → Option Error × Node
  unfolding with_labels
  after_info n (err e) = (some (wrap "error getting host information" e), n)
  after_info n (ok h) = (none, record (with_info h n) { labels = with_labels h n.labels })

  after_addresses : Node → Result (List Address) → Option Error × Node
  unfolding after_info node_daemon_endpoints
  after_addresses n (err e) = (some (wrap "error getting node addresses" e), n)
  after_addresses n (ok addresses) =
      after_info (record n { addresses = addresses; kubelet_port = node_daemon_endpoints })
        host.info

  after_capacity : Node → Result ResourceList → Option Error × Node
  unfolding after_addresses node_addresses
  after_capacity n (err e) = (some (wrap "error getting node capacity" e), n)
  after_capacity n (ok capacity) =
      after_addresses
        (record n {
          capacity = some capacity;
          allocatable = some capacity;
          conditions = get_node_conditions;
        })
        node_addresses

  unfoldable pub configure_node : Node → Option Error × Node
  unfolding after_capacity get_node_capacity
  configure_node n = after_capacity n get_node_capacity
