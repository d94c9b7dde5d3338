-- ===== src/Provider/Node/Report.antt =====
-- What a configured node reports.
use macos_exec_kubelet.Base.{
  ℕ, String, true, false, ◌⊎◌, some, List, [], ◌∷◌, ok, pos, int64, string_eq, ◌≡◌, ◌≢◌,
}
use macos_exec_kubelet.Base.Dict
use macos_exec_kubelet.Base.Dict.{Dict}
use macos_exec_kubelet.Net.{Interface}
use macos_exec_kubelet.Net.Choice.{FirstOf, NoneOf}
use macos_exec_kubelet.Label.Shape.{IsLabelValue}
use macos_exec_kubelet.Provider.Pods.{ProviderConfig}
use macos_exec_kubelet.Provider.Node.{
  Host, ResourceList, Node, internal_ip, host_name, label_exclude_balancers, label_os, label_arch,
  label_cpu_model,
}

module _ (host : Host) (p : ProviderConfig) where
  -- A node `m` made of `n`: room for two pods, all of the capacity allocatable, the host's address
  -- and the node's name, and the labels of `n` but for four keys.
  pub record Reported (n m : Node) : Type 0 where
    pub capacity : ResourceList
    pub two_pods : capacity.pods ≡ pos 2
    pub all_cpus : (x : ℕ) → host.cpu_count ≡ ok x → capacity.cpu ≡ int64 x
    pub all_memory : (x : ℕ) → host.memory_total ≡ ok x → capacity.memory ≡ int64 x
    pub all_storage : (x : ℕ) → host.disk_total ≡ ok x → capacity.ephemeral_storage ≡ int64 x
    pub known_host :
        (cpus : ℕ) × (memory : ℕ) × (disk : ℕ) × (host.cpu_count ≡ ok cpus)
        × (host.memory_total ≡ ok memory)
        × (host.disk_total ≡ ok disk)
    pub all_allocatable : (m.capacity ≡ some capacity) × (m.allocatable ≡ some capacity)
    pub interfaces : List Interface
    pub ip : String
    pub own_interfaces : host.interfaces ≡ ok interfaces
    pub chosen :
        FirstOf host.parse_cidr true ip interfaces
        ⊎ (NoneOf host.parse_cidr true interfaces × FirstOf host.parse_cidr false ip interfaces)
    pub addresses : m.addresses ≡ internal_ip ip ∷ host_name p.node_name ∷ []
    pub port : m.kubelet_port ≡ p.daemon_endpoint_port
    pub excluded : Dict.lookup label_exclude_balancers m.labels ≡ some "true"
    pub architecture : Dict.lookup label_arch m.labels ≡ some m.architecture
    pub other_labels :
        (j : String)
        → j ≢ label_exclude_balancers
        → j ≢ label_os
        → j ≢ label_arch
        → j ≢ label_cpu_model
        → Dict.lookup j m.labels ≡ Dict.lookup j n.labels
    pub cpu_model :
        (first : String) (rest : List String)
        → host.cpu_models ≡ ok (first ∷ rest)
        → (value : String) × (Dict.lookup label_cpu_model m.labels ≡ some value)
          × IsLabelValue value
