-- ===== src/Metrics/Collector.antt =====
-- pkg/metrics/collectors/kubelet_resource_metrics.go: the metrics of a summary, in the order in which
-- they are sent.
use macos_exec_kubelet.Base.{
  ℕ, String, Option, none, some, List, [], ◌∷◌, ◌++◌, wrap, Result, ok, err,
}
use macos_exec_kubelet.Api.{Time}
use macos_exec_kubelet.Metrics.{CpuStats, MemoryStats, ContainerStats, PodStats, Summary}

-- compbasemetrics.NewDesc; all are of stability ALPHA.
pub record Description : Type 0 where
  pub fq_name : String
  pub help : String
  pub label_names : List String

abbrev pub container_cpu_usage : Description
container_cpu_usage = record {
  fq_name = "container_cpu_usage_seconds_total";
  help = "Cumulative cpu time consumed by the container in core-seconds";
  label_names = "container" ∷ "pod" ∷ "namespace" ∷ [];
}

abbrev pub container_memory_usage : Description
container_memory_usage = record {
  fq_name = "container_memory_working_set_bytes";
  help = "Current working set of the container in bytes";
  label_names = "container" ∷ "pod" ∷ "namespace" ∷ [];
}

abbrev pub resource_scrape_result : Description
resource_scrape_result = record {
  fq_name = "scrape_error";
  help = "1 if there was an error while getting container metrics, 0 otherwise";
  label_names = [];
}

pub data ValueType : Type 0 where
  counter_value gauge_value : ValueType

-- Floating point numbers by how they are computed.
pub data Float : Type 0 where
  float64 : ℕ → Float
  quotient : Float → Float → Float

-- A metric; one without a time stamp has none.
pub record Metric : Type 0 where
  pub desc : Description
  pub value_type : ValueType
  pub value : Float
  pub labels : List String
  pub timestamp : Option Time

-- The number of nanoseconds of time.Second.
abbrev second : ℕ
second = 1000000000

abbrev labels_of : PodStats → ContainerStats → List String
labels_of pod s = s.name ∷ pod.pod_ref.name ∷ pod.pod_ref.namespace ∷ []

cpu_metrics : PodStats → ContainerStats → Time → Option ℕ → List Metric
cpu_metrics pod s time none = []
cpu_metrics pod s time (some n) =
    record {
      desc = container_cpu_usage;
      value_type = counter_value;
      value = quotient (float64 n) (float64 second);
      labels = labels_of pod s;
      timestamp = some time;
    }
    ∷ []

collect_cpu : PodStats → ContainerStats → Option CpuStats → List Metric
unfolding cpu_metrics
collect_cpu pod s none = []
collect_cpu pod s (some cpu) = cpu_metrics pod s cpu.time cpu.usage_core_nano_seconds

memory_metrics : PodStats → ContainerStats → Time → Option ℕ → List Metric
memory_metrics pod s time none = []
memory_metrics pod s time (some n) =
    record {
      desc = container_memory_usage;
      value_type = gauge_value;
      value = float64 n;
      labels = labels_of pod s;
      timestamp = some time;
    }
    ∷ []

collect_memory : PodStats → ContainerStats → Option MemoryStats → List Metric
unfolding memory_metrics
collect_memory pod s none = []
collect_memory pod s (some memory) = memory_metrics pod s memory.time memory.working_set_bytes

unfoldable pub collect_containers : PodStats → List ContainerStats → List Metric
unfolding collect_cpu collect_memory
collect_containers pod [] = []
collect_containers pod (s ∷ rest) =
    collect_cpu pod s s.cpu ++ (collect_memory pod s s.memory ++ collect_containers pod rest)

unfoldable pub collect_pods : List PodStats → List Metric
unfolding collect_containers
collect_pods [] = []
collect_pods (pod ∷ pods) = collect_containers pod pod.containers ++ collect_pods pods

-- The error count is never changed.
abbrev pub scrape_result : Metric
scrape_result = record {
  desc = resource_scrape_result;
  value_type = gauge_value;
  value = float64 0;
  labels = [];
  timestamp = none;
}

-- DescribeWithStability
unfoldable pub describe : List Description
describe = container_cpu_usage ∷ container_memory_usage ∷ resource_scrape_result ∷ []

-- CollectWithStability
unfoldable pub collect : Summary → List Metric
unfolding collect_pods
collect s = collect_pods s.pods ++ scrape_result ∷ []

-- GetMetricsResource; what the registry gathers is a parameter.
module _ {F : Type 0} (gather : List Metric → Result F) where
  gather_metrics : Result F → Result F
  gather_metrics (err e) = err (wrap "error gathering metrics" e)
  gather_metrics (ok families) = ok families

  unfoldable pub get_metrics_resource : Result Summary → Result F
  unfolding gather_metrics collect
  get_metrics_resource (err e) = err (wrap "error fetching MetricsResource" e)
  get_metrics_resource (ok s) = gather_metrics (gather (collect s))
