-- ===== src/Client/Invariant/Steps.antt =====
-- Every operation keeps the invariant.
use macos_exec_kubelet.Base.{
  ℕ, true, false, some, NamespacedName, key_eq, ◌≡◌, sym, ap, ◌∙◌, inl, inr, get_elem?, length,
  get_elem?-append_some, get_elem?-append_one, get_elem?-append_end, Option-cases,
}
use macos_exec_kubelet.Base.Dict
use macos_exec_kubelet.Api.{Pod, pod_key}
use macos_exec_kubelet.Client.Calls.{Os, is_open}
use macos_exec_kubelet.Client.Process.{ProcessClient, ProcessState, process_key}
use macos_exec_kubelet.Client.Create.{create_pod}
use macos_exec_kubelet.Client.Create.Cleanup.{AddsNothing, create_pod_failed-AddsNothing}
use macos_exec_kubelet.Client.Create.Success.{Launched, create_pod-Launched}
use macos_exec_kubelet.Client.Invariant.{IsSound, Describes, BelongsTo, BelongsTo-same_states}

module _ {c d : ProcessClient} where
  pub AddsNothing-IsSound : AddsNothing c d → IsSound c → IsSound d
  AddsNothing-IsSound a s = record {
    nodup = rw a.same_processes s.nodup;
    described = λ k h l. rw a.same_states (s.described k h (rw a.same_processes at l));
    no_orphan = λ h t p r. rw a.same_processes (s.no_orphan h t (rw a.same_states at p) r);
    no_leak = λ f o. BelongsTo-same_states f a.same_states (s.no_leak f (a.no_new_file f o));
  }

  module _ {os : Os} {pod : Pod} (l : Launched os pod c d) (s : IsSound c) where
    at_append :
        (h : ℕ) {t : ProcessState} → get_elem? c.states h ≡ some t → get_elem? d.states h ≡ some t
    at_append h p = rw l.allocated (get_elem?-append_some c.states _ h p)

    at_end : get_elem? d.states (length c.states) ≡ some l.state
    at_end = rw l.allocated (get_elem?-append_end c.states l.state)

    described_launched :
        (k : NamespacedName) (h : ℕ)
        → Dict.lookup k d.processes ≡ some h
        → (t : ProcessState) × (get_elem? d.states h ≡ some t) × Describes k t
    described_launched k h e =
        elim (Dict.lookup-insert-some k (pod_key pod) _ c.processes (rw l.stored at e)) [
          | inl (same, end) ↦ (
            l.state,
            rw end at_end,
            record {
              same_key = l.own_key ∙ sym same;
              pod = pod;
              with_pod = l.own_pod;
              key_of_pod = sym same;
            },
          )
          | inr (_, old) ↦ let (t, p, q) = s.described k h old in (t, at_append h p, q)
        ]

    found_launched :
        (h : ℕ) (t : ProcessState)
        → get_elem? d.states h ≡ some t
        → t.wait_done ≡ false
        → Dict.lookup (process_key t.pod_process) d.processes ≡ some h
    found_launched h t p r = elim (get_elem?-append_one c.states l.state h (rw l.allocated at p)) [
      | inl old ↦
          let found = s.no_orphan h t old r in
          rw l.stored (
            Dict.lookup-insert_ne _ _ _ c.processes (λ e.
              cc (ap (λ (k : NamespacedName). Dict.lookup k c.processes) e, found, l.was_absent))
            ∙ found)
      | inr (end, same) ↦
          rw (l.stored, same, l.own_key, end) (Dict.lookup-insert_self _ _ c.processes)
    ]

    BelongsTo-launched : (f : ℕ) → BelongsTo f c → BelongsTo f d
    BelongsTo-launched f b = record {
      owner = b.owner;
      state = b.state;
      found = at_append b.owner b.found;
      running = b.running;
      one_of = b.one_of;
    }

    files_launched : (f : ℕ) → is_open f d.calls ≡ true → BelongsTo f d
    files_launched f o = elim (l.no_other_file f o) [
      | inl old ↦ BelongsTo-launched f (s.no_leak f old)
      | inr own ↦ record {
        owner = length c.states;
        state = l.state;
        found = at_end;
        running = l.running;
        one_of = own;
      }
    ]

    pub Launched-IsSound : IsSound d
    Launched-IsSound = record {
      nodup = rw l.stored (Dict.insert-NodupKeys _ _ _ s.nodup);
      described = described_launched;
      no_orphan = found_launched;
      no_leak = files_launched;
    }

-- CreatePod keeps the invariant, whether it succeeds or fails.
pub create_pod-IsSound :
    (os : Os) (pod : Pod) (c : ProcessClient) → IsSound c → IsSound (create_pod os pod c).1
create_pod-IsSound os pod c s = elim (Option-cases (create_pod os pod c).0) [
  | inl h ↦ Launched-IsSound (create_pod-Launched os pod c h) s
  | inr (e, h) ↦ AddsNothing-IsSound (create_pod_failed-AddsNothing os pod c e h) s
]
