-- ===== src/Metrics/Goroutines.antt =====
-- What is true of the results while the goroutines end, one after another in any order.
use macos_exec_kubelet.Base.{
  ℕ, ◌<◌, true, Option, none, some, List, ◌∷◌, ◌++◌, map, Error, Result, ok, err, set, get_elem?,
  length, length-set, get_elem?-set_self, get_elem?-set_ne, ◌≡◌, refl, ap, sym, ◌∙◌, ◌⊎◌, inl, inr,
  arith, ℕ_discrete, Bool-cases, if◌then◌else◌,
}
use mathlib.Core.Path.{subst}
use macos_exec_kubelet.Api.{Pod}
use macos_exec_kubelet.Metrics.{
  ContainerStats, PodStats, no_stats, is_pod_running, MetricsProvider, Group, tasks, started,
  or_first, pod_stats, fetch, end_with, end_goroutine, ends, Reach, here, later,
}
use macos_exec_kubelet.Metrics.Tasks.{
  IsUnfinished, AreTasks, IsUnfinished-append, AreTasks-append, tasks-AreTasks, tasks-IsUnfinished,
  get_elem?-some, get_elem?-no_stats, length-no_stats, zero_add,
}

module _ (p : MetricsProvider) where
  abbrev pub stats_of : Pod → Result (List ContainerStats) → PodStats
  stats_of pod (err e) = no_stats
  stats_of pod (ok cs) = pod_stats pod cs

  -- The element of the summary for a pod.
  unfoldable pub entry : Pod → PodStats
  entry pod = if is_pod_running pod.status.phase then stats_of pod (fetch p pod) else no_stats

  abbrev pub IsFetched : Pod → Type 0
  IsFetched pod =
      is_pod_running pod.status.phase ≡ true → (cs : List ContainerStats) × (fetch p pod ≡ ok cs)

  abbrev pub FailedAt : List Pod → Error → Type 0
  FailedAt pods e =
      (i : ℕ) × (pod : Pod) × (get_elem? pods i ≡ some pod)
      × (is_pod_running pod.status.phase ≡ true)
      × (fetch p pod ≡ err e)

  -- The pod has its element, or its goroutine goes on, or there was an error.
  abbrev pub Settled : List (ℕ × Pod) → List PodStats → Option Error → ℕ → Pod → Type 0
  Settled ts rs e i pod =
      ((e' : Error) × (e ≡ some e'))
      ⊎ (IsUnfinished i ts ⊎ ((get_elem? rs i ≡ some (entry pod)) × IsFetched pod))

  pub record IsSound (pods : List Pod) (g : Group) : Type 0 where
    pub tasks_left : AreTasks pods g.unfinished
    pub same_length : length g.results ≡ length pods
    pub settled :
        (i : ℕ) (pod : Pod)
        → get_elem? pods i ≡ some pod
        → Settled g.unfinished g.results g.first_error i pod
    pub blame : (e : Error) → g.first_error ≡ some e → FailedAt pods e

  started-Settled :
      (pods : List Pod) (i : ℕ) (pod : Pod)
      → get_elem? pods i ≡ some pod
      → Settled (tasks 0 pods) (map (λ _. no_stats) pods) none i pod
  unfolding entry
  started-Settled pods i pod h = elim (Bool-cases (is_pod_running pod.status.phase)) [
    | inl r ↦ inr (
        inl (
          subst (λ k. IsUnfinished k (tasks 0 pods)) (zero_add i)
            (tasks-IsUnfinished pods 0 i pod h r)))
    | inr r ↦ inr (inr (rw r (get_elem?-no_stats pods i pod h), λ q. cc))
  ]

  started-IsSound : (pods : List Pod) → IsSound pods (started pods)
  started-IsSound pods = record {
    tasks_left = tasks-AreTasks pods pods 0 (λ j. ap (get_elem? pods) (zero_add j));
    same_length = length-no_stats pods;
    settled = started-Settled pods;
    blame = λ e h. cc;
  }

  stored_lem :
      (pod : Pod) (cs : List ContainerStats)
      → is_pod_running pod.status.phase ≡ true
      → fetch p pod ≡ ok cs
      → pod_stats pod cs ≡ entry pod
  unfolding entry
  stored_lem pod cs r h = rw (r, h) refl

  -- A goroutine that ends without an error.
  stored-Settled :
      (pods : List Pod) (rs : List PodStats) (e : Option Error) (earlier more : List (ℕ × Pod))
      (i : ℕ) (pod : Pod) (cs : List ContainerStats)
      → length rs ≡ length pods
      → get_elem? pods i ≡ some pod
      → is_pod_running pod.status.phase ≡ true
      → fetch p pod ≡ ok cs
      → (j : ℕ) (other : Pod) → get_elem? pods j ≡ some other
      → Settled (earlier ++ (i, pod) ∷ more) rs e j other
      → Settled (earlier ++ more) (set rs i (pod_stats pod cs)) e j other
  stored-Settled pods rs e earlier more i pod cs l h r f j other k (inl failed) = inl failed
  stored-Settled pods rs e earlier more i pod cs l h r f j other k (inr s) =
      let rs' = set rs i (pod_stats pod cs) in
      elim (ℕ_discrete i j) [
        | yes same ↦
            let this : pod ≡ other = cc in
            let inside : i < length rs = omega (arith, get_elem?-some pods i pod h, l) in
            let own : get_elem? rs' i ≡ some (entry pod) =
              get_elem?-set_self rs i (pod_stats pod cs) inside ∙ ap some (stored_lem pod cs r f) in
            inr (
              inr (
                subst (λ q. (get_elem? rs' j ≡ some (entry q)) × IsFetched q) this
                  (subst (λ n. get_elem? rs' n ≡ some (entry pod)) same own, λ _. (cs, f))))
        | no differ ↦ elim s [
          | inl u ↦ elim (IsUnfinished-append j i pod earlier more u) [
            | inl q ↦ absurd (differ (sym q))
            | inr q ↦ inr (inl q)
          ]
          | inr (q, fetched) ↦
              inr (inr (get_elem?-set_ne rs i j (pod_stats pod cs) differ ∙ q, fetched))
        ]
      ]

  -- A goroutine that ends with an error; the first one is kept.
  failed_lem :
      (e : Option Error) (f : Error)
      → (g : Error) × (or_first e f ≡ some g) × ((e ≡ some g) ⊎ ((e ≡ none) × (f ≡ g)))
  failed_lem none f = (f, refl, inr (refl, refl))
  failed_lem (some e) f = (e, refl, inl refl)

  end_with-IsSound :
      (pods : List Pod) (earlier more : List (ℕ × Pod)) (i : ℕ) (pod : Pod) (rs : List PodStats)
      (e : Option Error) (reply : Result (List ContainerStats))
      → fetch p pod ≡ reply
      → IsSound pods
          (record { unfinished = earlier ++ (i, pod) ∷ more; results = rs; first_error = e })
      → IsSound pods (
          end_with p i pod reply
            (record { unfinished = earlier ++ more; results = rs; first_error = e }))
  unfolding end_with
  end_with-IsSound pods earlier more i pod rs e (ok cs) f v =
      let (h, r, rest) = AreTasks-append pods i pod earlier more v.tasks_left in
      record {
        tasks_left = rest;
        same_length = length-set rs i (pod_stats pod cs) ∙ v.same_length;
        settled = λ j other k.
            stored-Settled pods rs e earlier more i pod cs v.same_length h r f j other k
              (v.settled j other k);
        blame = v.blame;
      }
  end_with-IsSound pods earlier more i pod rs e (err f) l v =
      let (h, r, rest) = AreTasks-append pods i pod earlier more v.tasks_left in
      let (g, kept, why) = failed_lem e f in
      record {
        tasks_left = rest;
        same_length = v.same_length;
        settled = λ j other k. inl (g, kept);
        blame =
            λ g' k. elim why [ inl was ↦ v.blame g' cc | inr (was, is_new) ↦ (i, pod, h, r, cc) ];
      }

  pub Reach-IsSound : (pods : List Pod) {g : Group} → Reach p (started pods) g → IsSound pods g
  unfolding end_goroutine
  Reach-IsSound pods here = started-IsSound pods
  Reach-IsSound pods (later reached (ends earlier more i pod {rs} {e})) =
      end_with-IsSound pods earlier more i pod rs e (fetch p pod) refl (Reach-IsSound pods reached)
