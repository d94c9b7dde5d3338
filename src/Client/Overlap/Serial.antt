-- ===== src/Client/Overlap/Serial.antt =====
-- Calls that overlap, but never two about one pod.
use macos_exec_kubelet.Base.{
  ℕ, String, true, false, Option, none, some, List, [], ◌∷◌, ◌++◌, ok, NamespacedName, key_eq,
  nat_eq, ◌≡◌, ◌≢◌, refl, ap, sym, ◌∙◌, arith, Option-cases, inl, inr,
}
use macos_exec_kubelet.Base.Dict
use macos_exec_kubelet.Base.Dict.{Dict}
use macos_exec_kubelet.Api.{Pod, pod_key, Container}
use macos_exec_kubelet.Client.Calls.{Os, Credential}
use macos_exec_kubelet.Client.Process.{ProcessClient}
use macos_exec_kubelet.Client.Exit.{reap-same_processes}
use macos_exec_kubelet.Client.Create.{launch_parts}
use macos_exec_kubelet.Client.Create.Cleanup.{launch_parts_failed-AddsNothing}
use macos_exec_kubelet.Client.Create.Success.{launch_parts-Launched}
use macos_exec_kubelet.Client.Delete.{remove}
use macos_exec_kubelet.Client.Query.{get_pod, get_container_logs}
use macos_exec_kubelet.Client.Reach.{new_client-IsSound, get_container_logs-IsSound}
use macos_exec_kubelet.Client.Invariant.{IsSound}
use macos_exec_kubelet.Client.Invariant.Steps.{AddsNothing-IsSound, Launched-IsSound}
use macos_exec_kubelet.Client.Invariant.Exits.{
  reap-IsSound, get_pod-IsSound, remove-IsSound, signalled-IsSound, cancelled-IsSound,
}
use macos_exec_kubelet.Client.Overlap.{
  Pending, creating, deleting, pending_key, System, check, begin_create, end_create, IsFree, Step,
  begins_create, ends_create, begins_delete, kills, ends_delete, gets, reads_logs, ends, Reach,
  fresh, later,
}

-- What a pending call has found in the map is still so.
abbrev pub Agrees : Pending → ProcessClient → Type 0
Agrees (creating pod container) c =
    (Dict.lookup (pod_key pod) c.processes ≡ none)
    × ((others : List Container) × (pod.spec.containers ≡ container ∷ others))
Agrees (deleting k h killed) c = Dict.lookup k c.processes ≡ some h

pub record IsSafe (s : System) : Type 0 where
  pub sound : IsSound s.client
  -- No two calls are about one pod.
  pub apart :
      (i j : ℕ) (p q : Pending)
      → Dict.lookup i s.pending ≡ some p
      → Dict.lookup j s.pending ≡ some q
      → pending_key p ≡ pending_key q
      → i ≡ j
  pub agrees : (i : ℕ) (p : Pending) → Dict.lookup i s.pending ≡ some p → Agrees p s.client

Agrees-lookup :
    (p : Pending) (c d : ProcessClient)
    → Dict.lookup (pending_key p) d.processes ≡ Dict.lookup (pending_key p) c.processes
    → Agrees p c
    → Agrees p d
Agrees-lookup (creating pod container) c d e (a, f) = (e ∙ a, f)
Agrees-lookup (deleting k h killed) c d e a = e ∙ a

module _ {s : System} (v : IsSafe s) (d : ProcessClient) (sound : IsSound d) where
  -- The calls that are pending stay.
  kept-IsSafe :
      d.processes ≡ s.client.processes → IsSafe (record { client = d; pending = s.pending })
  kept-IsSafe e = record {
    sound = sound;
    apart = v.apart;
    agrees = λ i p l. Agrees-lookup p _ _ (ap (Dict.lookup (pending_key p)) e) (v.agrees i p l);
  }

  module _ (i : ℕ) (p : Pending) where
    -- A call is pending in a new way.
    insert-IsSafe :
        d.processes ≡ s.client.processes
        → Agrees p d
        → ((j : ℕ) (q : Pending)
            → j ≢ i
            → Dict.lookup j s.pending ≡ some q
            → pending_key q ≢ pending_key p)
        → IsSafe (record { client = d; pending = Dict.insert i p s.pending })
    insert-IsSafe e a free = record {
      sound = sound;
      apart = λ j k q r f g same. elim (Dict.lookup-insert-some j i p s.pending f) [
        | inl (m, m') ↦ elim (Dict.lookup-insert-some k i p s.pending g) [
          | inl (n, n') ↦ m ∙ sym n
          | inr (n, l) ↦ absurd (free k r n l (sym same ∙ ap pending_key m'))
        ]
        | inr (m, l) ↦ elim (Dict.lookup-insert-some k i p s.pending g) [
          | inl (n, n') ↦ absurd (free j q m l (same ∙ ap pending_key n'))
          | inr (n, l') ↦ v.apart j k q r l l' same
        ]
      ];
      agrees = λ j q f. elim (Dict.lookup-insert-some j i p s.pending f) [
        | inl (m, m') ↦ rw m' a
        | inr (m, l) ↦ Agrees-lookup q _ _ (ap (Dict.lookup (pending_key q)) e) (v.agrees j q l)
      ];
    }

    -- A call ends, which has changed nothing but the entry of its key.
    erase-IsSafe :
        Dict.lookup i s.pending ≡ some p
        → ((k : NamespacedName)
            → k ≢ pending_key p
            → Dict.lookup k d.processes ≡ Dict.lookup k s.client.processes)
        → IsSafe (record { client = d; pending = Dict.erase i s.pending })
    erase-IsSafe own others = record {
      sound = sound;
      apart = λ j k q r f g same.
          v.apart j k q r (Dict.lookup-erase-some j i s.pending f).1
            (Dict.lookup-erase-some k i s.pending g).1 same;
      agrees = λ j q f.
          let (n, l) = Dict.lookup-erase-some j i s.pending f in
          Agrees-lookup q _ _ (others (pending_key q) (λ same. n (v.apart j i q p l own same)))
            (v.agrees j q l);
    }

-- What CreatePod has checked.
begin_create-Agrees :
    (pod : Pod) (container : Container) (c : ProcessClient)
    → begin_create pod c ≡ ok container
    → Agrees (creating pod container) c
unfolding begin_create
begin_create-Agrees pod container c h = check_lem pod.spec.containers refl h
  where
    check_lem :
        (cs : List Container)
        → pod.spec.containers ≡ cs
        → check pod cs c ≡ ok container
        → Agrees (creating pod container) c
    check_lem [] f h = cc
    check_lem (first ∷ others) f h = elim (Option-cases (Dict.lookup (pod_key pod) c.processes)) [
      | inl l ↦ (l, (others, ground arith))
      | inr (k, l) ↦ absurd (ground arith)
    ]

get_pod-same_processes :
    (k : NamespacedName) (c : ProcessClient) → (get_pod k c).1.processes ≡ c.processes
unfolding get_pod
get_pod-same_processes k c = ground arith

module _ (os : Os) where
  end_create-IsSafe :
      {s : System}
      → IsSafe s
      → (i : ℕ) (pod : Pod) (container : Container)
      → Dict.lookup i s.pending ≡ some (creating pod container)
      → IsSafe (record {
        client = (end_create os pod container s.client).1;
        pending = Dict.erase i s.pending;
      })
  unfolding end_create
  end_create-IsSafe {s} v i pod container l =
      let (a, (others, f)) = v.agrees i (creating pod container) l in
      let parts = container.command ++ container.args in
      let c = s.client in
      elim (Option-cases (launch_parts os pod container parts c).0) [
        | inl h ↦
            let launched = launch_parts-Launched os pod container others parts c a f refl h in
            erase-IsSafe v _ (Launched-IsSound launched v.sound) i (creating pod container) l
              (λ k n. rw launched.stored (Dict.lookup-insert_ne k _ _ c.processes n))
        | inr (e, h) ↦
            let nothing = launch_parts_failed-AddsNothing os pod c container parts e h in
            erase-IsSafe v _ (AddsNothing-IsSound nothing v.sound) i (creating pod container) l
              (λ k n. ap (Dict.lookup k) nothing.same_processes)
      ]

  pub Step-IsSafe : {s t : System} → Step os IsFree s t → IsSafe s → IsSafe t
  unfolding remove get_container_logs
  Step-IsSafe (begins_create i pod container a free h) v =
      insert-IsSafe v _ v.sound i (creating pod container) refl
        (begin_create-Agrees pod container _ h) (λ j q n l. free j q l)
  Step-IsSafe (ends_create i pod container l) v = end_create-IsSafe v i pod container l
  Step-IsSafe (begins_delete i k h t a free l p) v =
      insert-IsSafe v _ (signalled-IsSound _ v.sound t.pid) i (deleting k h false) refl l
        (λ j q n l. free j q l)
  Step-IsSafe (kills i k h t l p) v =
      insert-IsSafe v _ (cancelled-IsSound _ v.sound t.context) i (deleting k h true) refl
        (v.agrees i _ l) (λ j q n f same. n (v.apart j i _ _ f l same))
  Step-IsSafe {s} (ends_delete i k h killed t l p r) v =
      erase-IsSafe v _
        (remove-IsSound k h _ (v.agrees i _ l) v.sound
          (λ u q. let same : u ≡ t = cc (p, q) in rw same r))
        i (deleting k h killed) l (λ j n. Dict.lookup-erase_ne j k s.client.processes n)
  Step-IsSafe (gets k) v =
      kept-IsSafe v _ (get_pod-IsSound k _ v.sound) (get_pod-same_processes k _)
  Step-IsSafe (reads_logs ns name container) v =
      kept-IsSafe v _ (get_container_logs-IsSound os ns name container _ v.sound) refl
  Step-IsSafe (ends h e) v =
      kept-IsSafe v _ (reap-IsSound h e _ v.sound) (reap-same_processes h e _)

  -- If no call begins while another about the same pod is pending, then calls may overlap in any
  -- way, and processes may exit between any two of their steps: at any moment the client lists no
  -- key twice, finds under each key the pod that was stored there, can reach every process that
  -- still runs, and keeps open only the files of such processes; no two pending calls are about
  -- one pod, and what each of them has found in the map is still so.
  pub Reach-IsSafe :
      {dir : String} {user : Option Credential} {s : System} → Reach os IsFree dir user s → IsSafe s
  unfolding Dict.lookup
  Reach-IsSafe {dir} {user} fresh = record {
    sound = new_client-IsSound os dir user;
    apart = λ i j p q f g same. cc;
    agrees = λ i p f. cc;
  }
  Reach-IsSafe (later r st) = Step-IsSafe st (Reach-IsSafe r)
