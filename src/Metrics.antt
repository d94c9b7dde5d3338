-- ===== src/Metrics.antt =====
-- pkg/metrics/metrics.go: the statistics of the pods, which goroutines fetch, as a step relation. The
-- lister of pods and the client are parameters.
pub mod Collector
pub mod Tasks
pub mod Goroutines
pub mod Returned
use macos_exec_kubelet.Base.{
  ℕ, suc, String, Bool, true, false, Option, none, some, List, [], ◌∷◌, ◌++◌, map, Error, wrap,
  Result, ok, err, set, ◌≡◌, if◌then◌else◌,
}
use macos_exec_kubelet.Api.{Time, Container, Phase, pending, running, succeeded, failed, Pod}

-- k8s.io/kubelet/pkg/apis/stats/v1alpha1
pub record CpuStats : Type 0 where
  pub time : Time
  pub usage_core_nano_seconds : Option ℕ

pub record MemoryStats : Type 0 where
  pub time : Time
  pub working_set_bytes : Option ℕ

pub record ContainerStats : Type 0 where
  pub name : String
  pub cpu : Option CpuStats
  pub memory : Option MemoryStats

pub record PodReference : Type 0 where
  pub name : String
  pub namespace : String
  pub uid : String

pub record PodStats : Type 0 where
  pub pod_ref : PodReference
  pub start_time : Time
  pub containers : List ContainerStats

pub record Summary : Type 0 where
  pub node_name : String
  pub pods : List PodStats

-- An element of `make([]stats.PodStats, n)`.
abbrev pub no_stats : PodStats
no_stats = record {
  pod_ref = record { name = ""; namespace = ""; uid = "" };
  start_time = 0;
  containers = [];
}

abbrev pub is_pod_running : Phase → Bool
is_pod_running running = true
is_pod_running _ = false

-- The provider with what it calls; `cancelled` and `pod_cancelled` are the errors of the context
-- when the method and the goroutine of a pod look at it.
pub record MetricsProvider : Type 0 where
  pub node_name : String
  pub cancelled : Option Error
  pub list_pods : Result (List Pod)
  pub pod_cancelled : Pod → Option Error
  pub get_virtualization_group_stats :
      String → String → List Container → Result (List ContainerStats)

-- The goroutines that have not ended, with the index of their pod; the results; and what the group
-- keeps, the first error.
pub record Group : Type 0 where
  pub unfinished : List (ℕ × Pod)
  pub results : List PodStats
  pub first_error : Option Error

-- One goroutine for each pod that runs.
abbrev pub tasks : ℕ → List Pod → List (ℕ × Pod)
tasks i [] = []
tasks i (pod ∷ pods) =
    let rest = tasks (suc i) pods in
    if is_pod_running pod.status.phase then (i, pod) ∷ rest else rest

abbrev pub started : List Pod → Group
started pods = record {
  unfinished = tasks 0 pods;
  results = map (λ pod. no_stats) pods;
  first_error = none;
}

abbrev pub or_first : Option Error → Error → Option Error
or_first none e = some e
or_first (some e) f = some e

abbrev pub pod_stats : Pod → List ContainerStats → PodStats
pod_stats pod cs = record {
  pod_ref = record { name = pod.name; namespace = pod.namespace; uid = pod.uid };
  start_time = pod.creation_timestamp;
  containers = cs;
}

module _ (p : MetricsProvider) where
  after_stats : Result (List ContainerStats) → Result (List ContainerStats)
  after_stats (err e) = err (wrap "failed to get virtualization group stats for pod" e)
  after_stats (ok cs) = ok cs

  after_context : Pod → Option Error → Result (List ContainerStats)
  unfolding after_stats
  after_context pod (some e) = err e
  after_context pod none =
      after_stats (p.get_virtualization_group_stats pod.namespace pod.name pod.spec.containers)

  -- What the goroutine of a pod comes to.
  unfoldable pub fetch : Pod → Result (List ContainerStats)
  unfolding after_context
  fetch pod = after_context pod (p.pod_cancelled pod)

  end_with : ℕ → Pod → Result (List ContainerStats) → Group → Group
  end_with i pod (err e) g = record g { first_error = or_first g.first_error e }
  end_with i pod (ok cs) g = record g { results = set g.results i (pod_stats pod cs) }

  unfoldable pub end_goroutine : ℕ → Pod → Group → Group
  unfolding end_with
  end_goroutine i pod g = end_with i pod (fetch pod) g

  -- Any goroutine can end next.
  pub data Step : Group → Group → Type 0 where
    ends :
        (earlier later : List (ℕ × Pod)) (i : ℕ) (pod : Pod) {rs : List PodStats} {e : Option Error}
        → Step
            (record { unfinished = earlier ++ (i, pod) ∷ later; results = rs; first_error = e })
            (end_goroutine i pod
              (record { unfinished = earlier ++ later; results = rs; first_error = e }))

  pub data Reach (g : Group) : Group → Type 0 where
    here : Reach g g
    later : {h k : Group} → Reach g h → Step h k → Reach g k

  -- What Wait and the rest of the method make of a group whose goroutines have all ended.
  summarize : List PodStats → Option Error → Result Summary
  summarize rs (some e) = err (wrap "failed to get stats for all pods" e)
  summarize rs none = ok (record { node_name = p.node_name; pods = rs })

  unfoldable pub summarize_group : Group → Result Summary
  unfolding summarize
  summarize_group g = summarize g.results g.first_error

  -- An error of the lister is logged, and there are no pods.
  abbrev pub or_no_pods : Result (List Pod) → List Pod
  or_no_pods (err e) = []
  or_no_pods (ok pods) = pods

  abbrev pub listed_pods : List Pod
  listed_pods = or_no_pods p.list_pods

  -- What GetStatsSummary can return.
  pub data GetStatsSummary : Result Summary → Type 0 where
    is_cancelled : (e : Error) → p.cancelled ≡ some e → GetStatsSummary (err e)
    has_waited :
        {g : Group}
        → p.cancelled ≡ none
        → Reach (started listed_pods) g
        → g.unfinished ≡ []
        → GetStatsSummary (summarize_group g)
