-- ===== src/Client/Query/Views.antt =====
-- What GetPod and GetPodList report after the other operations.
use macos_exec_kubelet.Base.{
  ℕ, false, Option, none, some, List, [], ◌∷◌, Error, Result, ok, pos, minus_one, NamespacedName,
  key_eq, ◌≡◌, refl, sym, ap, inl, inr, arith, get_elem?, set, length, get_elem?-set_self,
  get_elem?-lt, get_elem?-append_end, Option-cases,
}
use macos_exec_kubelet.Base.Dict
use macos_exec_kubelet.Base.Dict.{Dict, dict_laws}
use macos_exec_kubelet.Api.{Pod, pod_key}
use macos_exec_kubelet.Client.Calls.{Os, Call}
use macos_exec_kubelet.Client.Process.{ProcessClient, ProcessState, PodProcess, process_key, reap}
use macos_exec_kubelet.Client.Exit.{ended, reap_running}
use macos_exec_kubelet.Client.Create.{create_pod}
use macos_exec_kubelet.Client.Create.Success.{create_pod-Launched}
use macos_exec_kubelet.Client.Query.{get_pod, refresh, code_of, get_pod_list, list_from}

-- The state that a pointer of the map leads to.
abbrev pub pointed : List ProcessState → Option ℕ → Option ProcessState
pointed states none = none
pointed states (some h) = get_elem? states h

abbrev pub process_of : Option ProcessState → Option PodProcess
process_of none = none
process_of (some s) = some s.pod_process

lookup-list_from :
    (states : List ProcessState) (d : Dict NamespacedName ℕ) (k : NamespacedName)
    → Dict.NodupKeys d
    → Dict.lookup k (list_from states d) ≡ process_of (pointed states (Dict.lookup k d))
unfolding list_from Dict.lookup
lookup-list_from states [] k u = refl
lookup-list_from states ((j, h) ∷ d) k (fresh, u) = ground (arith, lookup-list_from states d k u)

-- GetPodList has, for each key, the process of the state that the map points at.
pub lookup-get_pod_list :
    (c : ProcessClient) (k : NamespacedName)
    → Dict.NodupKeys c.processes
    → Dict.lookup k (get_pod_list c) ≡ process_of (pointed c.states (Dict.lookup k c.processes))
unfolding get_pod_list
lookup-get_pod_list c k u = lookup-list_from c.states c.processes k u

-- GetPod reports the state that the map points at, brought up to date.
pub get_pod_lem :
    (c : ProcessClient) (k : NamespacedName) (h : ℕ) (s : ProcessState)
    → Dict.lookup k c.processes ≡ some h
    → get_elem? c.states h ≡ some s
    → get_pod k c ≡ (
      ok (refresh s),
      record c { states = set c.states h (record s { pod_process = refresh s }) },
    )
unfolding get_pod
get_pod_lem c k h s l p = ground arith

get_pod_inv :
    (c : ProcessClient) (k : NamespacedName) (p : PodProcess)
    → (get_pod k c).0 ≡ ok p
    → (h : ℕ) × (s : ProcessState) × (Dict.lookup k c.processes ≡ some h)
      × (get_elem? c.states h ≡ some s)
      × (p ≡ refresh s)
unfolding get_pod
get_pod_inv c k p e = elim (Option-cases (Dict.lookup k c.processes)) [
  | inl l ↦ ground arith
  | inr (h, l) ↦ elim (Option-cases (get_elem? c.states h)) [
    | inl q ↦ ground arith
    | inr (s, q) ↦ (h, s, l, q, ground arith)
  ]
]

-- After GetPod, the entry of GetPodList for that key is what GetPod returned, if the map lists no
-- key twice.
pub get_pod_list-get_pod :
    (c : ProcessClient) (k : NamespacedName) (p : PodProcess)
    → Dict.NodupKeys c.processes
    → (get_pod k c).0 ≡ ok p
    → Dict.lookup k (get_pod_list (get_pod k c).1) ≡ some p
get_pod_list-get_pod c k p u e =
    let (h, s, l, q, r) = get_pod_inv c k p e in
    let d : ProcessClient = record c {
      states = set c.states h (record s { pod_process = refresh s });
    } in
    rw (get_pod_lem c k h s l q, lookup-get_pod_list d k u, l)
      (rw (get_elem?-set_self c.states h _ (get_elem?-lt c.states h q)) (ap some (sym r)))

-- A pod that was just created is reported by GetPod as running: exit code -1, no error, and the pod
-- and the identifier of its process.
pub get_pod-create_pod :
    (os : Os) (pod : Pod) (c : ProcessClient)
    → (create_pod os pod c).0 ≡ none
    → (p : PodProcess) × ((get_pod (pod_key pod) (create_pod os pod c).1).0 ≡ ok p)
      × (p.pod ≡ some pod)
      × (process_key p ≡ pod_key pod)
      × (p.exit_code ≡ minus_one)
      × (p.exit_error ≡ none)
      × ((moment : List Call) × (p.started_at ≡ os.now moment))
unfolding refresh
get_pod-create_pod os pod c h =
    let v = create_pod-Launched os pod c h in
    let at : Dict.lookup (pod_key pod) (create_pod os pod c).1.processes ≡ some (length c.states) =
      rw v.stored (Dict.lookup-insert_self _ _ c.processes) in
    let found : get_elem? (create_pod os pod c).1.states (length c.states) ≡ some v.state =
      rw v.allocated (get_elem?-append_end c.states v.state) in
    (
      refresh v.state,
      ap (λ (r : Result PodProcess × ProcessClient). r.0) (get_pod_lem _ _ _ v.state at found),
      v.own_pod,
      v.own_key,
      rw v.running,
      rw v.running,
      (v.moment, v.own_start),
    )

-- GetPodList reports the same pod with exit code 0, as if it had ended well.
pub get_pod_list-create_pod :
    (os : Os) (pod : Pod) (c : ProcessClient)
    → Dict.NodupKeys c.processes
    → (create_pod os pod c).0 ≡ none
    → (p : PodProcess) × (Dict.lookup (pod_key pod) (get_pod_list (create_pod os pod c).1) ≡ some p)
      × (p.pod ≡ some pod)
      × (p.exit_code ≡ pos 0)
get_pod_list-create_pod os pod c u h =
    let v = create_pod-Launched os pod c h in
    let nodup : Dict.NodupKeys (create_pod os pod c).1.processes =
      rw v.stored (Dict.insert-NodupKeys _ _ c.processes u) in
    (
      v.state.pod_process,
      rw (
        lookup-get_pod_list (create_pod os pod c).1 _ nodup,
        v.stored,
        Dict.lookup-insert_self _ _ c.processes,
        v.allocated,
        get_elem?-append_end c.states v.state,
      ),
      v.own_pod,
      v.unset_exit_code,
    )

-- Once a process that ran has exited, GetPod reports the code of its error and the error itself.
pub get_pod-reap :
    (c : ProcessClient) (k : NamespacedName) (h : ℕ) (s : ProcessState) (e : Option Error)
    → Dict.lookup k c.processes ≡ some h
    → get_elem? c.states h ≡ some s
    → s.wait_done ≡ false
    → (p : PodProcess) × ((get_pod k (reap h e c)).0 ≡ ok p)
      × (p.exit_code ≡ code_of e)
      × (p.exit_error ≡ e)
      × (p.pod ≡ s.pod_process.pod)
      × (p.started_at ≡ s.pod_process.started_at)
unfolding refresh
get_pod-reap c k h s e l p r =
    let at : get_elem? (set c.states h (ended s e)) h ≡ some (ended s e) =
      get_elem?-set_self c.states h (ended s e) (get_elem?-lt c.states h p) in
    (
      refresh (ended s e),
      rw (reap_running h e c s p r) (
          ap (λ (t : Result PodProcess × ProcessClient). t.0) (get_pod_lem _ k h (ended s e) l at)),
      refl,
      refl,
      refl,
      refl,
    )
