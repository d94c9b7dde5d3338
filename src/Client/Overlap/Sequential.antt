-- ===== src/Client/Overlap/Sequential.antt =====
-- Calls one after the other are a case of calls that overlap.
use macos_exec_kubelet.Base.{
  ℕ, String, Bool, true, false, Option, none, some, [], ◌∷◌, Error, Result, ok, err, NamespacedName,
  key_eq, nat_eq, get_elem?, ◌≡◌, refl,
}
use macos_exec_kubelet.Base.Dict
use macos_exec_kubelet.Api.{Pod, Container}
use macos_exec_kubelet.Client.Calls.{Os, Credential, cancel, sigterm}
use macos_exec_kubelet.Client.Process.{ProcessClient, ProcessState, note, reap}
use macos_exec_kubelet.Client.Exit.{reap-Exited, reap-found}
use macos_exec_kubelet.Client.Create.{create_pod}
use macos_exec_kubelet.Client.Delete.{
  Waiting, exits, times_out, wait_for, remove, delete_pod, delete_found, delete_state,
}
use macos_exec_kubelet.Client.Reach as Calls
use macos_exec_kubelet.Client.Overlap.{
  deleting, System, begin_create, in_turn, create_pod-in_turn, IsFree, begins_create, ends_create,
  begins_delete, kills, ends_delete, gets, reads_logs, ends, Reach, fresh, later,
}

abbrev pub idle : ProcessClient → System
idle c = record { client = c; pending = [] }

module _ (os : Os) (dir : String) (user : Option Credential) where
  abbrev Idle : ProcessClient → Type 0
  Idle c = Reach os IsFree dir user (idle c)

  create_pod-Idle : (pod : Pod) {c : ProcessClient} → Idle c → Idle (create_pod os pod c).1
  unfolding Dict.lookup Dict.insert Dict.erase nat_eq
  create_pod-Idle pod {c} r = rw (create_pod-in_turn os pod c) (turn_lem (begin_create pod c) refl)
    where
      turn_lem : (o : Result Container) → begin_create pod c ≡ o → Idle (in_turn os pod o c).1
      turn_lem (err e) h = r
      turn_lem (ok container) h =
          later (later r (begins_create 0 pod container refl (λ i p l. cc) h))
            (ends_create 0 pod container refl)

  module _ (k : NamespacedName) (h : ℕ) {s : ProcessState} {c : ProcessClient} (r : Idle c)
      (l : Dict.lookup k c.processes ≡ some h) (p : get_elem? c.states h ≡ some s) where
    signalled :
        Reach os IsFree dir user
          (record { client = note (sigterm s.pid) c; pending = (0, deleting k h false) ∷ [] })
    unfolding Dict.lookup Dict.insert nat_eq
    signalled = later r (begins_delete 0 k h s refl (λ i p l. cc) l p)

    killed : Reach os IsFree dir user (record {
      client = note (cancel s.context) (note (sigterm s.pid) c);
      pending = (0, deleting k h true) ∷ [];
    })
    unfolding Dict.lookup Dict.insert nat_eq
    killed = later signalled (kills 0 k h s refl p)

    -- The process exits, and the call goes on.
    returned :
        (e : Option Error) (b : Bool) (d : ProcessClient)
        → d.states ≡ c.states
        → Reach os IsFree dir user (record { client = d; pending = (0, deleting k h b) ∷ [] })
        → Idle (remove k (reap h e d))
    unfolding Dict.lookup Dict.erase nat_eq
    returned e b d same q =
        let (t, f, _) = reap-found h e d h {s = s} (rw same p) in
        later (later q (ends h e)) (ends_delete 0 k h b t refl f (reap-Exited h e d t f))

    waited : (w : Waiting) → Idle (remove k (wait_for h s w c))
    unfolding wait_for
    waited (exits e) = returned e false _ refl signalled
    waited (times_out e) = returned e true _ refl killed

  delete_pod-Idle :
      (k : NamespacedName) (w : Waiting) {c : ProcessClient} → Idle c → Idle (delete_pod k w c).1
  unfolding delete_pod
  delete_pod-Idle k w {c} r = found_lem (Dict.lookup k c.processes) refl
    where
      state_lem :
          (h : ℕ)
          → Dict.lookup k c.processes ≡ some h
          → (o : Option ProcessState) → get_elem? c.states h ≡ o
          → Idle (delete_state k h w o c).1
      state_lem h l none p = r
      state_lem h l (some s) p = waited k h r l p w

      found_lem : (o : Option ℕ) → Dict.lookup k c.processes ≡ o → Idle (delete_found k w o c).1
      found_lem none l = r
      found_lem (some h) l = state_lem h l (get_elem? c.states h) refl

  Step-Idle : {c d : ProcessClient} → Calls.Step os c d → Idle c → Idle d
  Step-Idle (Calls.creates pod) r = create_pod-Idle pod r
  Step-Idle (Calls.deletes k w) r = delete_pod-Idle k w r
  Step-Idle (Calls.gets k) r = later r (gets k)
  Step-Idle (Calls.reads_logs ns name container) r = later r (reads_logs ns name container)
  Step-Idle (Calls.ends h e) r = later r (ends h e)

  -- Whatever calls one after the other come to, calls that may overlap come to it as well, with
  -- none of them pending.
  pub Reach-Idle :
      {c : ProcessClient} → Calls.Reach os dir user c → Reach os IsFree dir user (idle c)
  Reach-Idle Calls.fresh = fresh
  Reach-Idle (Calls.later r st) = Step-Idle st (Reach-Idle r)
