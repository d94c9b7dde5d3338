-- ===== src/Provider/Pods/Runtime.antt =====
-- The provider over the process client: how a pod is reported from its creation to its end.
use macos_exec_kubelet.Base.{
  ℕ, suc, String, false, Option, none, some, List, Error, exit_error, message, wrap, joined,
  not_found, invalid_input, external, api_not_found, ok, ℤ, pos, negsuc, minus_one, NamespacedName,
  key_eq, ◌≡◌, ◌≢◌, refl, sym, ◌∙◌, arith, get_elem?,
}
use macos_exec_kubelet.Base.Dict
use macos_exec_kubelet.Api.{Pod, pod_key, Time, PodStatus, running, succeeded, failed}
use macos_exec_kubelet.Client.Calls.{Os, Call}
use macos_exec_kubelet.Client.Process.{ProcessClient, ProcessState, PodProcess, reap}
use macos_exec_kubelet.Client.Create
use macos_exec_kubelet.Client.Delete
use macos_exec_kubelet.Client.Delete.{Waiting}
use macos_exec_kubelet.Client.Query
use macos_exec_kubelet.Client.Query.{code_of}
use macos_exec_kubelet.Client.Query.Views.{
  get_pod-create_pod, get_pod_list-create_pod, get_pod-reap,
}
use macos_exec_kubelet.Provider.Api.{KubeApi}
use macos_exec_kubelet.Provider.Status.{get_pod_status_from_process}
use macos_exec_kubelet.Provider.Pods.{
  RuntimeClient, ProviderConfig, get_pod, get_pod_status, listed,
}
use macos_exec_kubelet.Provider.Pods.Laws.{IsListed, listed_lem}

-- The process client behind the interface. `wait` decides how each process answers SIGTERM.
abbrev pub process_runtime : Os → (NamespacedName → ℤ → ProcessClient → Waiting) → RuntimeClient
process_runtime os wait = record {
  State = ProcessClient;
  create_pod = λ pod token maps store c. Create.create_pod os pod c;
  delete_pod = λ k grace c. Delete.delete_pod k (wait k grace c) c;
  get_pod = Query.get_pod;
  get_pod_list = λ c. (ok (Query.get_pod_list c), c);
  get_container_logs = Query.get_container_logs os;
  get_pod_stats = λ k c. (Query.get_pod_stats k, c);
  execute_container_command =
      λ k container cmd c. (Query.execute_container_command k container cmd, c);
}

phase_lem :
    (ip : String) (now : Time) (process : PodProcess)
    → process.exit_code ≡ minus_one
    → process.started_at ≢ 0
    → (get_pod_status_from_process ip now process).phase ≡ running
unfolding get_pod_status_from_process
phase_lem ip now process code z = rw code (ground arith)

none_code : (e : Option Error) → e ≡ none → code_of e ≡ pos 0
unfolding code_of
none_code e q = rw q

exit_code_of : (e : Option Error) (z : ℤ) → e ≡ some (exit_error z) → code_of e ≡ z
unfolding code_of
exit_code_of e z q = rw q

error_code : (x : Error) → ((z : ℤ) → x ≢ exit_error z) → code_of (some x) ≡ pos 1
unfolding code_of
error_code (exit_error z) o = absurd (o z refl)
error_code (message s) o = refl
error_code (wrap s e) o = refl
error_code (joined e f) o = refl
error_code (not_found s) o = refl
error_code (invalid_input e) o = refl
error_code (external s) o = refl
error_code (api_not_found s) o = refl

-- An error that is no ExitError counts as code 1.
other_code :
    (e : Option Error) (x : Error) → e ≡ some x → ((z : ℤ) → x ≢ exit_error z) → code_of e ≡ pos 1
other_code e x q o = rw q (error_code x o)

module _ (os : Os) (wait : NamespacedName → ℤ → ProcessClient → Waiting) (api : KubeApi)
    (p : ProviderConfig) where
  abbrev runtime : RuntimeClient
  runtime = process_runtime os wait

  -- A pod that was just created is reported by GetPodStatus and GetPod as running, if the clock never
  -- shows the zero time.
  pub get_pod_status-create_pod :
      ((calls : List Call) → os.now calls ≢ 0)
      → (pod : Pod) (c : ProcessClient) (now : Time) → (Create.create_pod os pod c).0 ≡ none
      → (status : PodStatus) × ((get_pod_status runtime api p now
            (pod_key pod)
            (Create.create_pod os pod c).1).0
          ≡ ok status)
        × ((get_pod runtime api p now (pod_key pod) (Create.create_pod os pod c).1).0
            ≡ ok (record pod { status = status }))
        × (status.phase ≡ running)
  get_pod_status-create_pod clock pod c now h =
      let (process, e, own, _, code, _, (moment, start)) = get_pod-create_pod os pod c h in
      (
        get_pod_status_from_process p.internal_ip now process,
        unfold get_pod_status in rw e,
        unfold get_pod in rw (e, own) refl,
        phase_lem p.internal_ip now process code (λ z. clock moment (sym start ∙ z)),
      )

  -- GetPods lists the pod that was just created as succeeded, although its process runs, if the map
  -- lists no key twice.
  pub get_pods-create_pod :
      (pod : Pod) (c : ProcessClient) (now : Time)
      → Dict.NodupKeys c.processes
      → (Create.create_pod os pod c).0 ≡ none
      → (process : PodProcess) × (status : PodStatus) × (status
          ≡ get_pod_status_from_process p.internal_ip now process)
        × (status.phase ≡ succeeded)
        × IsListed
            (record pod { status = status })
            (listed runtime api p now (Query.get_pod_list (Create.create_pod os pod c).1))
  get_pods-create_pod pod c now u h =
      let (process, l, e, code) = get_pod_list-create_pod os pod c u h in
      (
        process,
        get_pod_status_from_process p.internal_ip now process,
        refl,
        unfold get_pod_status_from_process in rw code (ground arith),
        listed_lem runtime api p now _ (pod_key pod) process pod l e,
      )

  -- Once a process that ran has exited, and it has a start time, GetPodStatus reports the pod by the
  -- error of its Wait: succeeded if there is none, failed for an ExitError with a positive code and
  -- for any error that is no ExitError, and still running for an ExitError with a negative code.
  pub get_pod_status-reap :
      (c : ProcessClient) (k : NamespacedName) (h : ℕ) (s : ProcessState) (e : Option Error)
      (now : Time)
      → Dict.lookup k c.processes ≡ some h
      → get_elem? c.states h ≡ some s
      → s.wait_done ≡ false
      → s.pod_process.started_at ≢ 0
      → (status : PodStatus) × ((get_pod_status runtime api p now k (reap h e c)).0 ≡ ok status)
        × (e ≡ none → status.phase ≡ succeeded)
        × ((n : ℕ) → e ≡ some (exit_error (pos (suc n))) → status.phase ≡ failed)
        × ((n : ℕ) → e ≡ some (exit_error (negsuc n)) → status.phase ≡ running)
        × ((x : Error) → ((z : ℤ) → x ≢ exit_error z) → e ≡ some x → status.phase ≡ failed)
  get_pod_status-reap c k h s e now l q r z =
      let (process, f, code, _, _, start) = get_pod-reap c k h s e l q r in
      (
        get_pod_status_from_process p.internal_ip now process,
        unfold get_pod_status in rw f,
        λ q. unfold get_pod_status_from_process in rw (code, none_code e q) (ground arith),
        λ n q. unfold get_pod_status_from_process in rw (code, exit_code_of e _ q) (ground arith),
        λ n q.
            unfold get_pod_status_from_process in
            rw (code, exit_code_of e _ q, start) (ground arith),
        λ x o q. unfold get_pod_status_from_process in rw (code, other_code e x q o) (ground arith),
      )
