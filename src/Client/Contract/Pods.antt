-- ===== src/Client/Contract/Pods.antt =====
-- The pods that the process client has, key by key.
use macos_exec_kubelet.Base.{
  ℕ, Option, none, some, List, Error, NamespacedName, key_eq, ◌≡◌, ◌≢◌, refl, sym, ap, ◌∙◌, arith,
  inl, inr, get_elem?, set, length, get_elem?-set_self, get_elem?-set_ne, get_elem?-lt, [], ◌∷◌,
  get_elem?-append_end, get_elem?-append_left, Option-cases, Bool-cases, ℕ_discrete,
}
use macos_exec_kubelet.Base.Dict
use macos_exec_kubelet.Api.{Pod, pod_key}
use macos_exec_kubelet.Client.Calls.{Os}
use macos_exec_kubelet.Client.Process.{ProcessClient, ProcessState, reap}
use macos_exec_kubelet.Client.Exit.{Exited, ended, reap_running, reap_done, reap-same_processes}
use macos_exec_kubelet.Client.Create.Success.{Launched}
use macos_exec_kubelet.Client.Create.Cleanup.{AddsNothing}
use macos_exec_kubelet.Client.Delete.{Waiting, exits, times_out, wait_for, remove}
use macos_exec_kubelet.Client.Query.{get_pod, refresh}
use macos_exec_kubelet.Client.Query.Views.{pointed}
use macos_exec_kubelet.Client.Invariant.{IsSound}

abbrev pub pod_of : Option ProcessState → Option Pod
pod_of none = none
pod_of (some s) = s.pod_process.pod

abbrev pub pod_at : NamespacedName → ProcessClient → Option Pod
pod_at k c = pod_of (pointed c.states (Dict.lookup k c.processes))

-- A state that is replaced by one of the same pod.
pod_of-set :
    (states : List ProcessState) (h i : ℕ) {s : ProcessState} (t : ProcessState)
    → get_elem? states h ≡ some s
    → t.pod_process.pod ≡ s.pod_process.pod
    → pod_of (get_elem? (set states h t) i) ≡ pod_of (get_elem? states i)
pod_of-set states h i t p same = elim (ℕ_discrete h i) [
  | yes m ↦ rw (← m) (
      ap pod_of (get_elem?-set_self states h t (get_elem?-lt states h p))
      ∙ same
      ∙ sym (ap pod_of p))
  | no n ↦ ap pod_of (get_elem?-set_ne states h i t n)
]

pod_of-pointed :
    (old new : List ProcessState)
    → ((i : ℕ) → pod_of (get_elem? new i) ≡ pod_of (get_elem? old i))
    → (o : Option ℕ) → pod_of (pointed new o) ≡ pod_of (pointed old o)
pod_of-pointed old new same none = refl
pod_of-pointed old new same (some i) = same i

module _ (h : ℕ) (e : Option Error) where
  pod_of-reap :
      (c : ProcessClient) (i : ℕ)
      → pod_of (get_elem? (reap h e c).states i) ≡ pod_of (get_elem? c.states i)
  pod_of-reap c i = elim (Option-cases (get_elem? c.states h)) [
    | inl p ↦ rw (reap_done h e c (λ s q. cc)) refl
    | inr (s, p) ↦ elim (Bool-cases s.wait_done) [
      | inl r ↦ let x : Exited h c = λ u q. ground arith in rw (reap_done h e c x) refl
      | inr r ↦ rw (reap_running h e c s p r) (pod_of-set c.states h i (ended s e) p refl)
    ]
  ]

  -- The exit of a process leaves the pods as they are.
  pub pod_at-reap : (k : NamespacedName) (c : ProcessClient) → pod_at k (reap h e c) ≡ pod_at k c
  pod_at-reap k c =
      rw (reap-same_processes h e c)
        (pod_of-pointed c.states (reap h e c).states (pod_of-reap c) (Dict.lookup k c.processes))

pub pod_at-wait_for :
    (h : ℕ) (s : ProcessState) (w : Waiting) (k : NamespacedName) (c : ProcessClient)
    → pod_at k (wait_for h s w c) ≡ pod_at k c
unfolding wait_for
pod_at-wait_for h s (exits e) k c = pod_at-reap h e k _
pod_at-wait_for h s (times_out e) k c = pod_at-reap h e k _

pub pod_at-AddsNothing :
    (k : NamespacedName) {c d : ProcessClient} → AddsNothing c d → pod_at k d ≡ pod_at k c
pod_at-AddsNothing k a = rw (a.same_processes, a.same_states) refl

-- A pod that is created is there, and the others stay.
module _ {os : Os} {pod : Pod} {c d : ProcessClient} (l : Launched os pod c d) where
  pub pod_at-own : pod_at (pod_key pod) d ≡ some pod
  pod_at-own =
      rw
        (
          l.stored,
          Dict.lookup-insert_self (pod_key pod) (length c.states) c.processes,
          l.allocated,
          get_elem?-append_end c.states l.state,
        )
        l.own_pod

  pub pod_at-other : IsSound c → (k : NamespacedName) → k ≢ pod_key pod → pod_at k d ≡ pod_at k c
  pod_at-other v k n =
      rw (l.stored, Dict.lookup-insert_ne k (pod_key pod) (length c.states) c.processes n)
        (elim (Option-cases (Dict.lookup k c.processes)) [
          | inl f ↦ rw f refl
          | inr (h, f) ↦
              let (s, p, _) = v.described k h f in
              rw (f, l.allocated)
                (ap pod_of
                  (get_elem?-append_left c.states (l.state ∷ []) h (get_elem?-lt c.states h p)))
        ])

-- GetPod brings one state up to date, which stays that of its pod.
pub pod_at-get_pod :
    (k j : NamespacedName) (c : ProcessClient) → pod_at k (get_pod j c).1 ≡ pod_at k c
unfolding get_pod refresh
pod_at-get_pod k j c = elim (Option-cases (Dict.lookup j c.processes)) [
  | inl f ↦ rw f refl
  | inr (h, f) ↦ elim (Option-cases (get_elem? c.states h)) [
    | inl p ↦ rw (f, p) refl
    | inr (s, p) ↦
        rw (f, p)
          (pod_of-pointed c.states _ (λ i. pod_of-set c.states h i _ p refl)
            (Dict.lookup k c.processes))
  ]
]

-- DeletePod takes one pod away.
module _ (k : NamespacedName) (c : ProcessClient) where
  pub pod_at-removed : pod_at k (remove k c) ≡ none
  unfolding remove
  pod_at-removed = rw (Dict.lookup-erase_self k c.processes) refl

  pub pod_at-kept : (j : NamespacedName) → j ≢ k → pod_at j (remove k c) ≡ pod_at j c
  unfolding remove
  pod_at-kept j n = rw (Dict.lookup-erase_ne j k c.processes n) refl
