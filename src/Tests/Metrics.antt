-- ===== src/Tests/Metrics.antt =====
-- GetStatsSummary on concrete pods.
use macos_exec_kubelet.Base.{String, none, some, [], ◌∷◌, Result, ok, string_eq, ◌≡◌, refl}
use macos_exec_kubelet.Api.{Pod, Phase, pending, running}
use macos_exec_kubelet.Metrics.{
  ContainerStats, Summary, no_stats, MetricsProvider, Group, pod_stats, started, listed_pods, ends,
  Reach, here, later, GetStatsSummary, fetch, end_goroutine,
}
use macos_exec_kubelet.Metrics.Returned.{IsReturned, GetStatsSummary-IsReturned}
use macos_exec_kubelet.Tests.Data.{job}

abbrev named : String → Phase → Pod
named name phase = record job { name = name; status = record (job.status) { phase = phase } }

abbrev sleeper : ContainerStats
sleeper = record {
  name = "main";
  cpu = some (record { time = 5; usage_core_nano_seconds = some 7 });
  memory = none;
}

abbrev provider : MetricsProvider
provider = record {
  node_name = "node";
  cancelled = none;
  list_pods = ok (named "a" running ∷ named "b" pending ∷ named "c" running ∷ []);
  pod_cancelled = λ p. none;
  get_virtualization_group_stats = λ ns name cs. ok (sleeper ∷ []);
}

GetStatsSummary-IsReturned_example :
    ((g : Group)
      → Reach provider (started (listed_pods provider)) g
      → (k : Group) × Reach provider (started (listed_pods provider)) k × (k.unfinished ≡ []))
    × ((r : Result Summary) → GetStatsSummary provider r → IsReturned provider r)
GetStatsSummary-IsReturned_example = GetStatsSummary-IsReturned provider

-- The goroutine of the last pod ends first.
last_first :
    (g : Group) × Reach provider (started (listed_pods provider)) g
    × (g.results
        ≡ pod_stats (named "a" running) (sleeper ∷ [])
          ∷ no_stats
          ∷ pod_stats (named "c" running) (sleeper ∷ [])
          ∷ [])
unfolding end_goroutine fetch
last_first = (
  _,
  later (later here (ends ((0, named "a" running) ∷ []) [] 2 (named "c" running)))
      (ends [] [] 0 (named "a" running)),
  refl,
)
