-- ===== src/Metrics/Returned.antt =====
-- What GetStatsSummary returns, whatever the order in which its goroutines end.
use macos_exec_kubelet.Base.{
  ℕ, suc, none, some, List, [], ◌∷◌, ◌++◌, map, Error, wrap, Result, ok, err, get_elem?, length,
  ◌≡◌, refl, ap, ◌∙◌, ◌⊎◌, inl, inr, arith, Bool-cases, Result-cases, Option-cases, if◌then◌else◌,
}
use mathlib.Core.Path.{subst}
use macos_exec_kubelet.Api.{Pod}
use macos_exec_kubelet.Metrics.{
  ContainerStats, PodStats, Summary, is_pod_running, MetricsProvider, Group, started, pod_stats,
  fetch, end_with, end_goroutine, ends, Reach, later, summarize, summarize_group, listed_pods,
  GetStatsSummary, is_cancelled, has_waited,
}
use macos_exec_kubelet.Metrics.Tasks.{IsUnfinished}
use macos_exec_kubelet.Metrics.Goroutines.{
  entry, IsFetched, FailedAt, Settled, IsSound, Reach-IsSound,
}
use macos_exec_kubelet.Metrics.Collector.{
  Metric, collect_containers, collect_pods, scrape_result, collect,
}

suc_injective : (m n : ℕ) → suc m ≡ suc n → m ≡ n
suc_injective m n h = omega arith

module _ (p : MetricsProvider) where
  all_entries :
      (pods : List Pod) (rs : List PodStats)
      → length rs ≡ length pods
      → ((i : ℕ) (pod : Pod) → get_elem? pods i ≡ some pod → get_elem? rs i ≡ some (entry p pod))
      → rs ≡ map (entry p) pods
  all_entries [] [] l h = refl
  all_entries [] (r ∷ rs) l h = absurd (omega arith)
  all_entries (pod ∷ pods) [] l h = absurd (omega arith)
  all_entries (pod ∷ pods) (r ∷ rs) l h =
      let first : r ≡ entry p pod = cc (h 0 pod refl) in
      let rest = all_entries pods rs (suc_injective _ _ l) (λ i other k. h (suc i) other k) in
      (λ i. first i ∷ rest i)

  -- The metrics of the pods that run, in the order of the listing.
  abbrev fetched_metrics : Pod → Result (List ContainerStats) → List Metric
  fetched_metrics pod (err e) = []
  fetched_metrics pod (ok cs) = collect_containers (pod_stats pod cs) cs

  abbrev pub running_metrics : List Pod → List Metric
  running_metrics [] = []
  running_metrics (pod ∷ pods) =
      let rest = running_metrics pods in
      if is_pod_running pod.status.phase then fetched_metrics pod (fetch p pod) ++ rest else rest

  entry_metrics :
      (pod : Pod)
      → collect_containers (entry p pod) (entry p pod).containers
        ≡ (if is_pod_running pod.status.phase then fetched_metrics pod (fetch p pod) else [])
  unfolding entry collect_containers
  entry_metrics pod = elim (Bool-cases (is_pod_running pod.status.phase)) [
    | inl r ↦ elim (Result-cases (fetch p pod)) [
      | inl (cs, f) ↦ rw (r, f) refl
      | inr (e, f) ↦ rw (r, f) refl
    ]
    | inr r ↦ rw r refl
  ]

  collect_pods-running_metrics :
      (pods : List Pod) → collect_pods (map (entry p) pods) ≡ running_metrics pods
  unfolding collect_pods
  collect_pods-running_metrics [] = refl
  collect_pods-running_metrics (pod ∷ pods) = elim (Bool-cases (is_pod_running pod.status.phase)) [
    | inl r ↦ rw (entry_metrics pod, r, collect_pods-running_metrics pods) refl
    | inr r ↦ rw (entry_metrics pod, r, collect_pods-running_metrics pods) refl
  ]

  -- A summary has the element of each pod, and every pod that runs was read; an error is that of the
  -- context, or of a pod that runs.
  abbrev pub IsReturned : Result Summary → Type 0
  IsReturned (ok s) =
      (p.cancelled ≡ none)
      × (s.node_name ≡ p.node_name)
      × (s.pods ≡ map (entry p) (listed_pods p))
      × ((i : ℕ) (pod : Pod) → get_elem? (listed_pods p) i ≡ some pod → IsFetched p pod)
      × (collect s ≡ running_metrics (listed_pods p) ++ scrape_result ∷ [])
  IsReturned (err e) =
      (p.cancelled ≡ some e)
      ⊎ ((p.cancelled ≡ none)
          × (f : Error) × (e ≡ wrap "failed to get stats for all pods" f)
          × FailedAt p (listed_pods p) f)

  not_unfinished : {A : Type 0} (i : ℕ) (ts : List (ℕ × Pod)) → ts ≡ [] → IsUnfinished i ts → A
  not_unfinished i [] h u = absurd u
  not_unfinished i (t ∷ ts) h u = cc

  settled_lem :
      (g : Group) (i : ℕ) (pod : Pod)
      → g.unfinished ≡ []
      → g.first_error ≡ none
      → Settled p g.unfinished g.results g.first_error i pod
      → (get_elem? g.results i ≡ some (entry p pod)) × IsFetched p pod
  settled_lem g i pod h n (inl (e, q)) = cc
  settled_lem g i pod h n (inr (inl u)) = not_unfinished i g.unfinished h u
  settled_lem g i pod h n (inr (inr q)) = q

  summarize-IsReturned :
      (g : Group)
      → p.cancelled ≡ none
      → IsSound p (listed_pods p) g
      → g.unfinished ≡ []
      → IsReturned (summarize p g.results g.first_error)
  unfolding summarize collect
  summarize-IsReturned g c v h = elim (Option-cases g.first_error) [
    | inl n ↦
        let all : (i : ℕ) (pod : Pod)
            → get_elem? (listed_pods p) i ≡ some pod
            → (get_elem? g.results i ≡ some (entry p pod)) × IsFetched p pod =
          λ i pod k. settled_lem g i pod h n (v.settled i pod k) in
        let same =
          all_entries (listed_pods p) g.results v.same_length (λ i pod k. (all i pod k).0) in
        rw n (
          c,
          refl,
          same,
          λ i pod k. (all i pod k).1,
          ap (λ rs. collect_pods rs ++ scrape_result ∷ []) same
              ∙ ap (λ ms. ms ++ scrape_result ∷ []) (collect_pods-running_metrics (listed_pods p)),
        )
    | inr (e, q) ↦ rw q (inr (c, e, refl, v.blame e q))
  ]

returned_lem : (p : MetricsProvider) (r : Result Summary) → GetStatsSummary p r → IsReturned p r
unfolding summarize_group
returned_lem p r (is_cancelled e c) = inl c
returned_lem p r (has_waited {g} c reached h) =
    summarize-IsReturned p g c (Reach-IsSound p (listed_pods p) reached) h

module _ (p : MetricsProvider) where
  left_lem :
      (i : ℕ) (pod : Pod) (reply : Result (List ContainerStats)) (g : Group)
      → (end_with p i pod reply g).unfinished ≡ g.unfinished
  unfolding end_with
  left_lem i pod (ok cs) g = refl
  left_lem i pod (err e) g = refl

  -- The goroutines that are left can end in the order of their list.
  all_end :
      {g : Group} (ts : List (ℕ × Pod)) (h : Group)
      → h.unfinished ≡ ts
      → Reach p g h
      → (k : Group) × Reach p g k × (k.unfinished ≡ [])
  unfolding end_goroutine
  all_end [] h l reached = (h, reached, l)
  all_end {g} ((i, pod) ∷ ts) h l reached =
      let first : Reach p g (record h { unfinished = (i, pod) ∷ ts }) =
        subst (λ us. Reach p g (record h { unfinished = us })) l reached in
      let next = end_goroutine p i pod (record h { unfinished = ts }) in
      all_end ts next (left_lem i pod (fetch p pod) (record h { unfinished = ts }))
        (later first (ends [] ts i pod))

-- The goroutines of GetStatsSummary can always come to their end. Whatever the order in which they
-- do, what the method returns is determined but for the choice of the error: a summary has the
-- statistics of every pod that runs at the place of the pod in the listing, all of which were read,
-- with an empty element for each other pod, and the metrics that are collected from it are those of
-- the pods that run, in that order, and the scrape result; an error is that of the context, or wraps
-- what the goroutine of a pod that runs ended with.
pub GetStatsSummary-IsReturned :
    (p : MetricsProvider)
    → ((g : Group)
        → Reach p (started (listed_pods p)) g
        → (k : Group) × Reach p (started (listed_pods p)) k × (k.unfinished ≡ []))
      × ((r : Result Summary) → GetStatsSummary p r → IsReturned p r)
GetStatsSummary-IsReturned p =
    (λ g reached. all_end p g.unfinished g refl reached, λ r returned. returned_lem p r returned)
