-- ===== src/Metrics/Tasks.antt =====
-- The list of the goroutines, one for each pod that runs.
use macos_exec_kubelet.Base.{
  ℕ, zero, suc, ◌<◌, true, some, List, [], ◌∷◌, ◌++◌, map, get_elem?, length, ◌≡◌, refl, ap, ◌∙◌,
  ◌⊎◌, inl, inr, arith, Bool-cases, ◌+◌,
}
use mathlib.Core.Path.{subst}
use macos_exec_kubelet.Api.{Pod}
use macos_exec_kubelet.Metrics.{no_stats, is_pod_running, tasks}

-- The goroutine of the pod with this index has not ended.
abbrev pub IsUnfinished : ℕ → List (ℕ × Pod) → Type 0
IsUnfinished i [] = ⊥
IsUnfinished i ((j, pod) ∷ ts) = (i ≡ j) ⊎ IsUnfinished i ts

-- Each goroutine is of a pod that runs.
abbrev pub AreTasks : List Pod → List (ℕ × Pod) → Type 0
AreTasks pods [] = Unit
AreTasks pods ((i, pod) ∷ ts) =
    (get_elem? pods i ≡ some pod) × (is_pod_running pod.status.phase ≡ true) × AreTasks pods ts

pub IsUnfinished-append :
    (i j : ℕ) (pod : Pod) (earlier more : List (ℕ × Pod))
    → IsUnfinished i (earlier ++ (j, pod) ∷ more)
    → (i ≡ j) ⊎ IsUnfinished i (earlier ++ more)
IsUnfinished-append i j pod [] more h = h
IsUnfinished-append i j pod ((k, other) ∷ earlier) more (inl p) = inr (inl p)
IsUnfinished-append i j pod ((k, other) ∷ earlier) more (inr h) =
    elim (IsUnfinished-append i j pod earlier more h) [ inl p ↦ inl p | inr q ↦ inr (inr q) ]

pub AreTasks-append :
    (pods : List Pod) (i : ℕ) (pod : Pod) (earlier more : List (ℕ × Pod))
    → AreTasks pods (earlier ++ (i, pod) ∷ more)
    → (get_elem? pods i ≡ some pod)
      × (is_pod_running pod.status.phase ≡ true)
      × AreTasks pods (earlier ++ more)
AreTasks-append pods i pod [] more h = h
AreTasks-append pods i pod ((k, other) ∷ earlier) more (p, q, h) =
    let (l, m, rest) = AreTasks-append pods i pod earlier more h in (l, m, (p, q, rest))

pub zero_add : (j : ℕ) → 0 + j ≡ j
zero_add j = omega arith

pub suc_add : (n j : ℕ) → suc n + j ≡ n + suc j
suc_add n j = omega arith

pub tasks-AreTasks :
    (all pods : List Pod) (n : ℕ)
    → ((j : ℕ) → get_elem? all (n + j) ≡ get_elem? pods j)
    → AreTasks all (tasks n pods)
tasks-AreTasks all [] n h = tt
tasks-AreTasks all (pod ∷ pods) n h =
    let rest =
      tasks-AreTasks all pods (suc n) (λ j. ap (get_elem? all) (suc_add n j) ∙ h (suc j)) in
    elim (Bool-cases (is_pod_running pod.status.phase)) [
      | inl q ↦ rw q (ap (get_elem? all) (omega arith) ∙ h 0, q, rest)
      | inr q ↦ rw q rest
    ]

pub tasks-IsUnfinished :
    (pods : List Pod) (n j : ℕ) (pod : Pod)
    → get_elem? pods j ≡ some pod
    → is_pod_running pod.status.phase ≡ true
    → IsUnfinished (n + j) (tasks n pods)
tasks-IsUnfinished [] n j pod h r = cc
tasks-IsUnfinished (other ∷ pods) n zero pod h r =
    let same : other ≡ pod = cc in
    rw (ap (λ (q : Pod). is_pod_running q.status.phase) same ∙ r) (inl (omega arith))
tasks-IsUnfinished (other ∷ pods) n (suc j) pod h r =
    let rest : IsUnfinished (n + suc j) (tasks (suc n) pods) =
      subst (λ k. IsUnfinished k (tasks (suc n) pods)) (suc_add n j)
        (tasks-IsUnfinished pods (suc n) j pod h r) in
    elim (Bool-cases (is_pod_running other.status.phase)) [
      | inl q ↦ rw q (inr rest)
      | inr q ↦ rw q rest
    ]

pub get_elem?-some :
    {A : Type 0} (xs : List A) (i : ℕ) (x : A) → get_elem? xs i ≡ some x → i < length xs
get_elem?-some [] i x h = cc
get_elem?-some (y ∷ xs) zero x h = omega arith
get_elem?-some (y ∷ xs) (suc i) x h = omega (arith, get_elem?-some xs i x h)

pub get_elem?-no_stats :
    (pods : List Pod) (i : ℕ) (pod : Pod)
    → get_elem? pods i ≡ some pod
    → get_elem? (map (λ _. no_stats) pods) i ≡ some no_stats
get_elem?-no_stats [] i pod h = cc
get_elem?-no_stats (other ∷ pods) zero pod h = refl
get_elem?-no_stats (other ∷ pods) (suc i) pod h = get_elem?-no_stats pods i pod h

pub length-no_stats : (pods : List Pod) → length (map (λ _. no_stats) pods) ≡ length pods
length-no_stats [] = refl
length-no_stats (pod ∷ pods) = ap suc (length-no_stats pods)
