-- ===== src/Client/Contract/Refinement.antt =====
-- The process client keeps the contract.
use macos_exec_kubelet.Base.{
  Error, String, Option, none, some, List, [], ◌∷◌, Result, NamespacedName, key_eq, ◌≡◌, refl, sym,
  ap, ◌∙◌, inl, inr, Option-cases,
}
use macos_exec_kubelet.Base.Dict
use macos_exec_kubelet.Api.{Pod, pod_key}
use macos_exec_kubelet.Client.Calls.{Os, Credential}
use macos_exec_kubelet.Client.Process.{ProcessClient, ProcessState, PodProcess, new_client}
use macos_exec_kubelet.Client.Create.{create_pod}
use macos_exec_kubelet.Client.Create.Cleanup.{create_pod_failed-AddsNothing}
use macos_exec_kubelet.Client.Create.Willing.{IsWilling, create_pod_succeeds}
use macos_exec_kubelet.Client.Create.Success.{create_pod-Launched}
use macos_exec_kubelet.Client.Delete.{Waiting, wait_for}
use macos_exec_kubelet.Client.Delete.Effect.{delete_pod_known, delete_pod_unknown, get_pod_unknown}
use macos_exec_kubelet.Client.Query.{get_pod_list, refresh}
use macos_exec_kubelet.Client.Query.Views.{lookup-get_pod_list, process_of, pointed, get_pod_lem}
use macos_exec_kubelet.Client.Invariant.{IsSound}
use macos_exec_kubelet.Client.Invariant.Steps.{create_pod-IsSound}
use macos_exec_kubelet.Client.Invariant.Exits.{reap-IsSound, delete_pod-IsSound, get_pod-IsSound}
use macos_exec_kubelet.Client.Reach.{new_client-IsSound}
use macos_exec_kubelet.Client.Contract.{
  Request, create, delete, get, list, exit, Reply, serve, serve_all, Pods, pod_in, IsRunnable,
  Answers, creates, refuses, deletes, deletes_nothing, gets, gets_nothing, lists, exits, AnswersAll,
  end, answered,
}
use macos_exec_kubelet.Client.Contract.Pods.{
  pod_of, pod_at, pod_at-reap, pod_at-wait_for, pod_at-AddsNothing, pod_at-own, pod_at-other,
  pod_at-get_pod, pod_at-removed, pod_at-kept,
}

-- The map has the pods of the client.
abbrev Represents : Pods → ProcessClient → Type 0
Represents m c = (k : NamespacedName) → Dict.lookup k m ≡ pod_at k c

-- The client answers as the map allows, and goes on as a client of the next map.
abbrev Keeps : Os → Pods → Request → Reply × ProcessClient → Type 0
Keeps os m r (a, d) = (n : Pods) × Answers os m r a n × Represents n d × IsSound d

pod_in-process_of : (o : Option ProcessState) → pod_in (process_of o) ≡ pod_of o
pod_in-process_of none = refl
pod_in-process_of (some s) = refl

list_lem :
    (m : Pods) (c : ProcessClient) (k : NamespacedName)
    → IsSound c
    → Represents m c
    → pod_in (Dict.lookup k (get_pod_list c)) ≡ Dict.lookup k m
list_lem m c k v same =
    ap pod_in (lookup-get_pod_list c k v.nodup)
    ∙ pod_in-process_of (pointed c.states (Dict.lookup k c.processes))
    ∙ sym (same k)

module _ (m : Pods) (c : ProcessClient) (v : IsSound c) (same : Represents m c) where
  free_lem : (k : NamespacedName) → Dict.lookup k m ≡ none → Dict.lookup k c.processes ≡ none
  free_lem k free = elim (Option-cases (Dict.lookup k c.processes)) [
    | inl l ↦ l
    | inr (h, l) ↦
        let (s, p, t) = v.described k h l in
        let known : pod_at k c ≡ some t.pod = rw (l, p) t.with_pod in cc (free, same k, known)
  ]

  -- A pod that can be run on a willing system is not refused a free key.
  refused_lem :
      (os : Os) (pod : Pod) (e : Error)
      → (create_pod os pod c).0 ≡ some e
      → ¬ (IsWilling os × IsRunnable pod × (Dict.lookup (pod_key pod) m ≡ none))
  refused_lem os pod e h (willing, (container, others, first, runs), free) = cc (
    create_pod_succeeds os willing pod c container others first runs (free_lem (pod_key pod) free),
    h,
  )

  create_pod-Keeps : (os : Os) (pod : Pod) → Keeps os m (create pod) (serve os (create pod) c)
  unfolding serve
  create_pod-Keeps os pod = elim (Option-cases (create_pod os pod c).0) [
    | inr (e, h) ↦
        let nothing = create_pod_failed-AddsNothing os pod c e h in
        (
          m,
          rw h (refuses pod e (refused_lem os pod e h)),
          λ k. same k ∙ sym (pod_at-AddsNothing k nothing),
          create_pod-IsSound os pod c v,
        )
    | inl h ↦
        let l = create_pod-Launched os pod c h in
        (
          Dict.insert (pod_key pod) pod m,
          rw h (creates pod (same (pod_key pod) ∙ rw l.was_absent refl)),
          λ k. elim (key_eq.dec k (pod_key pod)) [
            | yes q ↦ rw q (Dict.lookup-insert_self (pod_key pod) pod m ∙ sym (pod_at-own l))
            | no n ↦
                Dict.lookup-insert_ne k (pod_key pod) pod m n ∙ same k ∙ sym (pod_at-other l v k n)
          ],
          create_pod-IsSound os pod c v,
        )
  ]

  delete_pod-Keeps :
      (os : Os) (k : NamespacedName) (w : Waiting)
      → Keeps os m (delete k w) (serve os (delete k w) c)
  unfolding serve
  delete_pod-Keeps os k w = elim (Option-cases (Dict.lookup k c.processes)) [
    | inl l ↦ rw (delete_pod_unknown k w c l) (m, deletes_nothing k w (same k ∙ rw l refl), same, v)
    | inr (h, l) ↦
        let (s, p, t) = v.described k h l in
        let known = delete_pod_known k w c h s l p in
        let sound = rw known at (delete_pod-IsSound k w c v) in
        rw known (
          Dict.erase k m,
          deletes k w t.pod (same k ∙ rw (l, p) t.with_pod),
          λ j. elim (key_eq.dec j k) [
            | yes q ↦ rw q (Dict.lookup-erase_self k m ∙ sym (pod_at-removed k (wait_for h s w c)))
            | no n ↦
                Dict.lookup-erase_ne j k m n
                ∙ same j
                ∙ sym (pod_at-wait_for h s w j c)
                ∙ sym (pod_at-kept k (wait_for h s w c) j n)
          ],
          sound,
        )
  ]

  get_pod-Keeps : (os : Os) (k : NamespacedName) → Keeps os m (get k) (serve os (get k) c)
  unfolding serve refresh
  get_pod-Keeps os k = elim (Option-cases (Dict.lookup k c.processes)) [
    | inl l ↦ (
      m,
      rw (get_pod_unknown k c l) (gets_nothing k (same k ∙ rw l refl)),
      λ j. same j ∙ sym (pod_at-get_pod j k c),
      get_pod-IsSound k c v,
    )
    | inr (h, l) ↦
        let (s, p, t) = v.described k h l in
        let reply = ap (λ (r : Result PodProcess × ProcessClient). r.0) (get_pod_lem c k h s l p) in
        (
          m,
          rw reply (gets k (refresh s) t.pod (same k ∙ rw (l, p) t.with_pod) t.with_pod t.same_key),
          λ j. same j ∙ sym (pod_at-get_pod j k c),
          get_pod-IsSound k c v,
        )
  ]

  serve-Keeps : (os : Os) (r : Request) → Keeps os m r (serve os r c)
  unfolding serve
  serve-Keeps os (create pod) = create_pod-Keeps os pod
  serve-Keeps os (delete k w) = delete_pod-Keeps os k w
  serve-Keeps os (get k) = get_pod-Keeps os k
  serve-Keeps os list = (m, lists _ (λ k. list_lem m c k v same), same, v)
  serve-Keeps os (exit h e) =
      (m, exits h e, λ k. same k ∙ sym (pod_at-reap h e k c), reap-IsSound h e c v)

serve_all-AnswersAll :
    (os : Os) (rs : List Request) {m : Pods} {c : ProcessClient}
    → IsSound c
    → Represents m c
    → AnswersAll os m rs (serve_all os rs c)
unfolding serve_all
serve_all-AnswersAll os [] v same = end
serve_all-AnswersAll os (r ∷ rs) v same =
    let (n, a, same', v') = serve-Keeps _ _ v same os r in
    answered a (serve_all-AnswersAll os rs v' same')

-- Whatever is asked of a new client, one request after the other, while its processes exit at any
-- time: its replies are those of a map from keys to pods that is empty at first. A pod is created
-- only under a key that is free, and it is created there if it has a command to run and the system
-- refuses nothing; a pod that was created and not deleted is found, listed, and can be deleted; no
-- other is.
pub new_client-AnswersAll :
    (os : Os) (dir : String) (user : Option Credential) (rs : List Request)
    → AnswersAll os [] rs (serve_all os rs (new_client dir user))
unfolding Dict.lookup
new_client-AnswersAll os dir user rs =
    serve_all-AnswersAll os rs (new_client-IsSound os dir user) (λ k. refl)
