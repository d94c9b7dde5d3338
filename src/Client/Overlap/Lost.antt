-- ===== src/Client/Overlap/Lost.antt =====
-- Two calls of CreatePod for one key that overlap.
use macos_exec_kubelet.Base.{
  ℕ, String, false, Option, none, some, ok, NamespacedName, key_eq, nat_eq, ◌≡◌, ◌≢◌, refl, sym,
  ◌∙◌, arith, inl, inr, get_elem?, length, get_elem?-lt, get_elem?-append_end,
  get_elem?-append_some,
}
use macos_exec_kubelet.Base.Dict
use macos_exec_kubelet.Api.{Pod, pod_key, Container}
use macos_exec_kubelet.Client.Calls.{Os, Credential}
use macos_exec_kubelet.Client.Process.{ProcessClient, ProcessState}
use macos_exec_kubelet.Client.Create.Success.{launch_parts-stored}
use macos_exec_kubelet.Client.Invariant.{IsSound}
use macos_exec_kubelet.Client.Overlap.{
  begin_create, end_create, IsAny, begins_create, ends_create, Reach, later,
}
use macos_exec_kubelet.Client.Overlap.Sequential.{idle}

-- The process of this pointer runs, but no key leads to it, so that no DeletePod can stop it.
pub record Lost (h : ℕ) (c : ProcessClient) : Type 0 where
  pub state : ProcessState
  pub found : get_elem? c.states h ≡ some state
  pub running : state.wait_done ≡ false
  pub unreachable : (k : NamespacedName) → Dict.lookup k c.processes ≢ some h

module _ (os : Os) (pod pod' : Pod) (container container' : Container) (c : ProcessClient) where
  -- The client after the first and after both of the calls.
  abbrev pub one : ProcessClient
  one = (end_create os pod container c).1

  abbrev pub both : ProcessClient
  both = (end_create os pod' container' one).1

  both-Lost :
      IsSound c
      → pod_key pod' ≡ pod_key pod
      → (end_create os pod container c).0 ≡ none
      → (end_create os pod' container' one).0 ≡ none
      → Lost (length c.states) both
  unfolding end_create
  both-Lost v same h h' =
      let (s, p, q, r) = launch_parts-stored os pod container _ c h in
      let (s', p', q', r') = launch_parts-stored os pod' container' _ one h' in
      let here : get_elem? one.states (length c.states) ≡ some s =
        rw q (get_elem?-append_end c.states s) in
      record {
        state = s;
        found = rw q' (get_elem?-append_some one.states _ _ here);
        running = r;
        unreachable = λ k l.
            elim (Dict.lookup-insert-some k (pod_key pod') _ one.processes (rw p' at l)) [
              | inl (_, m) ↦ let lt = get_elem?-lt one.states _ here in omega arith
              | inr (n, l') ↦
                  elim (Dict.lookup-insert-some k (pod_key pod) _ c.processes (rw p at l')) [
                    | inl (m, _) ↦ n (m ∙ sym same)
                    | inr (_, old) ↦
                        let (t, f, _) = v.described k _ old in
                        let lt = get_elem?-lt c.states _ f in omega arith
                  ]
            ];
      }

  -- If two calls of CreatePod for one key may overlap, then on a sound client that lacks the key
  -- both can look it up before either stores its process. If both then succeed, the process of
  -- the first one runs, but the client has no key for it any more.
  pub overlapping_creates-Lost :
      {dir : String} {user : Option Credential}
      → Reach os IsAny dir user (idle c)
      → IsSound c
      → pod_key pod' ≡ pod_key pod
      → begin_create pod c ≡ ok container
      → begin_create pod' c ≡ ok container'
      → (end_create os pod container c).0 ≡ none
      → (end_create os pod' container' one).0 ≡ none
      → Reach os IsAny dir user (idle both) × Lost (length c.states) both
  unfolding Dict.lookup Dict.insert Dict.erase nat_eq
  overlapping_creates-Lost r v same b b' h h' = (
    later
        (later
          (later (later r (begins_create 0 pod container refl tt b))
            (begins_create 1 pod' container' refl tt b'))
          (ends_create 0 pod container refl))
        (ends_create 1 pod' container' refl),
    both-Lost v same h h',
  )
