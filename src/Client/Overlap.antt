-- ===== src/Client/Overlap.antt =====
-- Calls of the process client that overlap (pkg/client/process.go). The map of processes is a
-- sync.Map, each use of which is atomic; a call uses it twice. What a call does between two uses that
-- other calls can see is taken as one step, so that a process exits only after it is stored.
pub mod Sequential
pub mod Serial
pub mod Lost
pub mod Stale
pub mod Progress
use macos_exec_kubelet.Base.{
  ℕ, String, Bool, true, false, Option, none, some, List, [], ◌∷◌, ◌++◌, Error, message, Result, ok,
  err, NamespacedName, key_eq, nat_eq, if◌then◌else◌, get_elem?, ◌≡◌, ◌≢◌, refl, arith,
}
use macos_exec_kubelet.Base.Dict
use macos_exec_kubelet.Base.Dict.{Dict, is_some}
use macos_exec_kubelet.Api.{Pod, pod_key, Container}
use macos_exec_kubelet.Client.Calls.{Os, Credential, cancel, sigterm}
use macos_exec_kubelet.Client.Process.{ProcessClient, ProcessState, new_client, note, reap}
use macos_exec_kubelet.Client.Create.{create_pod, launch_parts}
use macos_exec_kubelet.Client.Delete.{remove}
use macos_exec_kubelet.Client.Query.{get_pod, get_container_logs}

-- A call between two uses of the map: a CreatePod that has not found the key of its pod, and a
-- DeletePod that has found the pointer and sent SIGTERM; whether it has also cancelled the context.
pub data Pending : Type 0 where
  creating : Pod → Container → Pending
  deleting : NamespacedName → ℕ → Bool → Pending

abbrev pub pending_key : Pending → NamespacedName
pending_key (creating pod container) = pod_key pod
pending_key (deleting k h killed) = k

pub record System : Type 0 where
  pub client : ProcessClient
  pub pending : Dict ℕ Pending

checked : Container → Bool → Result Container
checked container true = err (message "pod process already exists")
checked container false = ok container

unfoldable pub check : Pod → List Container → ProcessClient → Result Container
unfolding checked
check pod [] c = err (message "no containers in pod spec")
check pod (container ∷ _) c = checked container (is_some (Dict.lookup (pod_key pod) c.processes))

-- CreatePod up to the look-up of the key.
unfoldable pub begin_create : Pod → ProcessClient → Result Container
unfolding check
begin_create pod c = check pod pod.spec.containers c

module _ (os : Os) where
  -- CreatePod after the look-up of the key.
  unfoldable pub end_create : Pod → Container → ProcessClient → Option Error × ProcessClient
  end_create pod container c = launch_parts os pod container (container.command ++ container.args) c

  abbrev pub in_turn : Pod → Result Container → ProcessClient → Option Error × ProcessClient
  in_turn pod (err e) c = (some e, c)
  in_turn pod (ok container) c = end_create pod container c

  -- CreatePod is the two parts one after the other.
  pub create_pod-in_turn :
      (pod : Pod) (c : ProcessClient) → create_pod os pod c ≡ in_turn pod (begin_create pod c) c
  unfolding create_pod begin_create end_create
  create_pod-in_turn pod c = ground arith

-- A call is free to begin if no pending one is about its key.
abbrev pub IsFree : NamespacedName → Dict ℕ Pending → Type 0
IsFree k calls = (i : ℕ) (p : Pending) → Dict.lookup i calls ≡ some p → pending_key p ≢ k

-- Any call may begin at any time.
abbrev pub IsAny : NamespacedName → Dict ℕ Pending → Type 0
IsAny k calls = Unit

-- The steps of the calls, each with a number of its own, and of the processes that exit. A call
-- begins only if `Admits` lets it; one that ends at once, with or without an error, leaves nothing
-- pending.
module _ (os : Os) (Admits : NamespacedName → Dict ℕ Pending → Type 0) where
  pub data Step (s : System) : System → Type 0 where
    begins_create :
        (i : ℕ) (pod : Pod) (container : Container)
        → Dict.lookup i s.pending ≡ none
        → Admits (pod_key pod) s.pending
        → begin_create pod s.client ≡ ok container
        → Step s (record s { pending = Dict.insert i (creating pod container) s.pending })
    ends_create :
        (i : ℕ) (pod : Pod) (container : Container)
        → Dict.lookup i s.pending ≡ some (creating pod container)
        → Step s (record {
          client = (end_create os pod container s.client).1;
          pending = Dict.erase i s.pending;
        })
    begins_delete :
        (i : ℕ) (k : NamespacedName) (h : ℕ) (t : ProcessState)
        → Dict.lookup i s.pending ≡ none
        → Admits k s.pending
        → Dict.lookup k s.client.processes ≡ some h
        → get_elem? s.client.states h ≡ some t
        → Step s (record {
          client = note (sigterm t.pid) s.client;
          pending = Dict.insert i (deleting k h false) s.pending;
        })
    kills :
        (i : ℕ) (k : NamespacedName) (h : ℕ) (t : ProcessState)
        → Dict.lookup i s.pending ≡ some (deleting k h false)
        → get_elem? s.client.states h ≡ some t
        → Step s (record {
          client = note (cancel t.context) s.client;
          pending = Dict.insert i (deleting k h true) s.pending;
        })
    ends_delete :
        (i : ℕ) (k : NamespacedName) (h : ℕ) (killed : Bool) (t : ProcessState)
        → Dict.lookup i s.pending ≡ some (deleting k h killed)
        → get_elem? s.client.states h ≡ some t
        → t.wait_done ≡ true
        → Step s (record { client = remove k s.client; pending = Dict.erase i s.pending })
    gets : (k : NamespacedName) → Step s (record s { client = (get_pod k s.client).1 })
    reads_logs :
        (ns name container : String)
        → Step s (record s { client = (get_container_logs os ns name container s.client).1 })
    ends : (h : ℕ) (e : Option Error) → Step s (record s { client = reap h e s.client })

  pub data Reach (dir : String) (user : Option Credential) : System → Type 0 where
    fresh : Reach dir user (record { client = new_client dir user; pending = [] })
    later : {s t : System} → Reach dir user s → Step s t → Reach dir user t
