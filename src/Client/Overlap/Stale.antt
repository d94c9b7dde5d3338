-- ===== src/Client/Overlap/Stale.antt =====
-- Two calls of DeletePod for one key that overlap, and a CreatePod between their ends. The provider
-- starts each DeletePod in the background, so that they can.
use macos_exec_kubelet.Base.{
  ℕ, String, false, Option, none, some, Error, ok, NamespacedName, key_eq, nat_eq, ◌≡◌, refl, ◌∙◌,
  arith, inl, inr, get_elem?, length, get_elem?-lt, get_elem?-append_end, get_elem?-append_some,
}
use macos_exec_kubelet.Base.Dict
use macos_exec_kubelet.Api.{Pod, pod_key, Container}
use macos_exec_kubelet.Client.Calls.{Os, Credential, sigterm}
use macos_exec_kubelet.Client.Process.{ProcessClient, ProcessState, note, reap}
use macos_exec_kubelet.Client.Exit.{reap-found, reap-Exited}
use macos_exec_kubelet.Client.Create.Success.{launch_parts-stored}
use macos_exec_kubelet.Client.Delete.{remove}
use macos_exec_kubelet.Client.Invariant.{IsSound}
use macos_exec_kubelet.Client.Invariant.Exits.{reap-IsSound, signalled-IsSound}
use macos_exec_kubelet.Client.Overlap.{
  begin_create, end_create, IsAny, begins_create, ends_create, begins_delete, ends_delete, ends,
  Reach, later,
}
use macos_exec_kubelet.Client.Overlap.Sequential.{idle}
use macos_exec_kubelet.Client.Overlap.Lost.{Lost}

module _ (os : Os) (k : NamespacedName) (h : ℕ) (s : ProcessState) (e : Option Error) (pod : Pod)
    (container : Container) (c : ProcessClient) where
  -- Both calls have sent SIGTERM, and the process has exited.
  abbrev pub exited : ProcessClient
  exited = reap h e (note (sigterm s.pid) (note (sigterm s.pid) c))

  -- The first call has ended, and then the CreatePod.
  abbrev pub renewed : ProcessClient
  renewed = (end_create os pod container (remove k exited)).1

  exited-IsSound : IsSound c → IsSound exited
  exited-IsSound v = reap-IsSound h e _ (signalled-IsSound _ (signalled-IsSound c v s.pid) s.pid)

  renewed-found :
      {t : ProcessState}
      → get_elem? exited.states h ≡ some t
      → (end_create os pod container (remove k exited)).0 ≡ none
      → get_elem? renewed.states h ≡ some t
  unfolding end_create remove
  renewed-found f created =
      let (_, _, q, _) = launch_parts-stored os pod container _ (remove k exited) created in
      rw q (get_elem?-append_some exited.states _ h f)

  renewed-Lost :
      IsSound c
      → pod_key pod ≡ k
      → (end_create os pod container (remove k exited)).0 ≡ none
      → Lost (length exited.states) (remove k renewed)
  unfolding end_create remove
  renewed-Lost v same created =
      let (t, p, q, r) = launch_parts-stored os pod container _ (remove k exited) created in
      record {
        state = t;
        found = rw q (get_elem?-append_end exited.states t);
        running = r;
        unreachable = λ j l.
            let (n, l1) = Dict.lookup-erase-some j k renewed.processes l in
            elim (Dict.lookup-insert-some j (pod_key pod) _ _ (rw p at l1)) [
              | inl (m, _) ↦ n (m ∙ same)
              | inr (_, l2) ↦
                  let (_, l3) = Dict.lookup-erase-some j k exited.processes l2 in
                  let (u, f, _) = (exited-IsSound v).described j _ l3 in
                  let lt = get_elem?-lt exited.states _ f in omega arith
            ];
      }

  -- If two calls of DeletePod for one key may overlap, then both can find the process that the
  -- client has for the key. Once it has exited, the first call frees the key, and a CreatePod of
  -- another pod of the same name can succeed. The second call, which takes the key out of the map
  -- whatever it stands for by then, loses the new process: it runs, but no key leads to it.
  pub overlapping_deletes-Lost :
      {dir : String} {user : Option Credential}
      → Reach os IsAny dir user (idle c)
      → IsSound c
      → Dict.lookup k c.processes ≡ some h
      → get_elem? c.states h ≡ some s
      → pod_key pod ≡ k
      → begin_create pod (remove k exited) ≡ ok container
      → (end_create os pod container (remove k exited)).0 ≡ none
      → Reach os IsAny dir user (idle (remove k renewed))
        × Lost (length exited.states) (remove k renewed)
  unfolding Dict.lookup Dict.insert Dict.erase nat_eq
  overlapping_deletes-Lost r v l p same begun created =
      let (t, f, _) = reap-found h e _ h {s = s} p in
      let gone = reap-Exited h e _ t f in
      let both =
        later (later r (begins_delete 0 k h s refl tt l p)) (begins_delete 1 k h s refl tt l p) in
      let freed = later (later both (ends h e)) (ends_delete 0 k h false t refl f gone) in
      let created_again =
        later (later freed (begins_create 2 pod container refl tt begun))
          (ends_create 2 pod container refl) in
      (
        later created_again (ends_delete 1 k h false t refl (renewed-found f created) gone),
        renewed-Lost v same created,
      )
