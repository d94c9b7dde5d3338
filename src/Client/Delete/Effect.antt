-- ===== src/Client/Delete/Effect.antt =====
-- What DeletePod leaves behind.
use macos_exec_kubelet.Base.{
  ℕ, ◌+◌, false, Bool, none, some, List, [], ◌∷◌, not_found, err, NamespacedName, key_eq, ==_refl,
  nat_eq, ◌==◌, ◌≡◌, refl, ap, ◌∙◌, inl, inr, arith, get_elem?, if◌then◌else◌, Option-cases,
}
use macos_exec_kubelet.Base.Dict
use macos_exec_kubelet.Client.Calls.{is_live, sigterm, Call}
use macos_exec_kubelet.Client.Process.{ProcessClient, ProcessState, reap}
use macos_exec_kubelet.Client.Exit.{Exited, reap-Exited, reap-same_processes}
use macos_exec_kubelet.Client.Delete.{
  Waiting, exits, times_out, wait_for, remove, delete_state, delete_found, delete_pod,
}
use macos_exec_kubelet.Client.Query.{get_pod, get_found}
use macos_exec_kubelet.Client.Invariant.{IsSound}

-- Whether the context of the process is alive after the `select`: the timer cancels it.
abbrev pub context_after : Waiting → Bool → Bool
context_after (exits e) live = live
context_after (times_out e) live = false

-- How often the process was sent SIGTERM.
abbrev pub signals : ℕ → List Call → ℕ
signals pid [] = 0
signals pid (sigterm q ∷ t) = let rest = signals pid t in if pid == q then rest + 1 else rest
signals pid (_ ∷ t) = signals pid t

module _ (h : ℕ) (s : ProcessState) (c : ProcessClient) where
  pub wait_for-same_processes : (w : Waiting) → (wait_for h s w c).processes ≡ c.processes
  unfolding wait_for
  wait_for-same_processes (exits e) = reap-same_processes h e _
  wait_for-same_processes (times_out e) = reap-same_processes h e _

  pub wait_for-Exited : (w : Waiting) → Exited h (wait_for h s w c)
  unfolding wait_for
  wait_for-Exited (exits e) = reap-Exited h e _
  wait_for-Exited (times_out e) = reap-Exited h e _

  signals-wait_for :
      (w : Waiting) → signals s.pid (wait_for h s w c).calls ≡ signals s.pid c.calls + 1
  unfolding wait_for reap
  signals-wait_for (exits e) = ground arith
  signals-wait_for (times_out e) = ground arith

  is_live-wait_for :
      (w : Waiting)
      → is_live s.context (wait_for h s w c).calls ≡ context_after w (is_live s.context c.calls)
  unfolding wait_for reap
  is_live-wait_for (exits e) = ground arith
  is_live-wait_for (times_out e) = ground arith

-- The second client has lost this pod and no other; its process has been sent one more SIGTERM and
-- has exited; its context is as before, or cancelled if the timer fired.
pub record Deleted (k : NamespacedName) (h : ℕ) (s : ProcessState) (w : Waiting)
    (c d : ProcessClient) : Type 0 where
  pub others :
      (j : NamespacedName)
      → Dict.lookup j d.processes ≡ (if j == k then none else Dict.lookup j c.processes)
  pub exited : Exited h d
  pub signalled : signals s.pid d.calls ≡ signals s.pid c.calls + 1
  pub context : is_live s.context d.calls ≡ context_after w (is_live s.context c.calls)

pub get_pod_unknown :
    (k : NamespacedName) (c : ProcessClient)
    → Dict.lookup k c.processes ≡ none
    → (get_pod k c).0 ≡ err (not_found "pod process not found")
unfolding get_pod
get_pod_unknown k c l = rw (l, get_found)

module _ (k : NamespacedName) (w : Waiting) (c : ProcessClient) where
  -- DeletePod of a pod that the client has succeeds: the map loses this key and no other; the
  -- process has been sent SIGTERM once more and has exited when the call returns; its context is
  -- as before if it exited in time, and cancelled, which kills it, if the timer fired.
  pub delete_pod-Deleted :
      (h : ℕ) (s : ProcessState)
      → Dict.lookup k c.processes ≡ some h
      → get_elem? c.states h ≡ some s
      → ((delete_pod k w c).0 ≡ none) × Deleted k h s w c (delete_pod k w c).1
  delete_pod-Deleted h s l p = rw delete_lem (
    refl,
    record {
      others = λ j.
          Dict.lookup-erase j k _
          ∙ ap (λ (d : Dict.Dict NamespacedName ℕ). if j == k then none else Dict.lookup j d)
              (wait_for-same_processes h s c w);
      exited = wait_for-Exited h s c w;
      signalled = signals-wait_for h s c w;
      context = is_live-wait_for h s c w;
    },
  )
    where
      gone : ProcessClient
      gone = record (wait_for h s w c) { processes = Dict.erase k (wait_for h s w c).processes }

      delete_lem : delete_pod k w c ≡ (none, gone)
      delete_lem = unfold delete_pod in rw (l, delete_found) (rw (p, delete_state))

  pub delete_pod_known :
      (h : ℕ) (s : ProcessState)
      → Dict.lookup k c.processes ≡ some h
      → get_elem? c.states h ≡ some s
      → delete_pod k w c ≡ (none, remove k (wait_for h s w c))
  unfolding delete_pod
  delete_pod_known h s l p = rw (l, delete_found) (rw (p, delete_state))

  -- DeletePod of a pod that the client does not have fails with NotFound and changes nothing.
  pub delete_pod_unknown :
      Dict.lookup k c.processes ≡ none
      → delete_pod k w c ≡ (some (not_found "pod process not found"), c)
  unfolding delete_pod
  delete_pod_unknown l = rw (l, delete_found)

  -- After DeletePod, whatever it returned, GetPod does not find the pod, if the client was sound
  -- before.
  pub get_pod-delete_pod :
      IsSound c → (get_pod k (delete_pod k w c).1).0 ≡ err (not_found "pod process not found")
  get_pod-delete_pod v = elim (Option-cases (Dict.lookup k c.processes)) [
    | inl l ↦ rw (delete_pod_unknown l) (get_pod_unknown k c l)
    | inr (h, l) ↦
        let (s, p, _) = v.described k h l in
        let d = (delete_pod-Deleted h s l p).1 in
        get_pod_unknown k (delete_pod k w c).1 (d.others k ∙ rw (==_refl k))
  ]
