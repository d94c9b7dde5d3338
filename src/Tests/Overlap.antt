-- ===== src/Tests/Overlap.antt =====
-- Runs of the process client, with calls that overlap and with calls one after the other.
use macos_exec_kubelet.Base.{
  List, [], ◌∷◌, none, false, key_eq, nat_eq, string_eq, arith, ◌≢◌, refl, sym, ap, ◌∙◌, inl, inr,
}
use macos_exec_kubelet.Base.Dict
use macos_exec_kubelet.Api.{Pod, pod_key}
use macos_exec_kubelet.Client.Process.{ProcessClient, note, new_client, reap}
use macos_exec_kubelet.Client.Delete.{exits, remove}
use macos_exec_kubelet.Client.Contract.{
  Request, create, get, exit, list, delete, serve_all, AnswersAll,
}
use macos_exec_kubelet.Client.Contract.Refinement.{new_client-AnswersAll}
use macos_exec_kubelet.Client.Reach.{Reach-IsSound}
use macos_exec_kubelet.Client.Reach as Calls
use macos_exec_kubelet.Client.Overlap.{
  System, begin_create, end_create, creating, pending_key, IsFree, IsAny, Reach, fresh, later,
  begins_create, ends_create, deleting, begins_delete,
}
use macos_exec_kubelet.Client.Calls.{sigterm}
use macos_exec_kubelet.Client.Create.{create_pod, launch_parts}
use macos_exec_kubelet.Client.Overlap.Sequential.{idle}
use macos_exec_kubelet.Client.Overlap.Serial.{IsSafe, Reach-IsSafe}
use macos_exec_kubelet.Client.Overlap.Lost.{Lost, both, overlapping_creates-Lost}
use macos_exec_kubelet.Client.Overlap.Progress.{KilledIn, Steps, Reach-Ends}
use macos_exec_kubelet.Client.Overlap.Stale.{renewed, overlapping_deletes-Lost}
use macos_exec_kubelet.Tests.Client.{first_state, first_found}
use macos_exec_kubelet.Tests.Data.{job, busy, good_os, runner, fresh_client}

-- Another pod, and another pod of the same name.
abbrev other : Pod
other = record job { name = "other" }

abbrev again : Pod
again = record job { uid = "u2" }

abbrev two_pending : System
two_pending = record {
  client = fresh_client;
  pending = Dict.insert 1 (creating other busy) (Dict.insert 0 (creating job busy) []);
}

-- The first call ends while the second one is pending.
abbrev one_pending : System
one_pending = record {
  client = (end_create good_os job busy fresh_client).1;
  pending = Dict.erase 0 two_pending.pending;
}

job_differs : pod_key job ≢ pod_key other
job_differs e = cc

other_free : IsFree (pod_key other) (Dict.insert 0 (creating job busy) [])
unfolding Dict.lookup
other_free i p l e = elim (Dict.lookup-insert-some i 0 (creating job busy) [] l) [
  | inl (m, same) ↦ job_differs (ap pending_key (sym same) ∙ e)
  | inr (m, f) ↦ cc
]

overlapped : Reach good_os IsFree "/logs" runner one_pending
unfolding begin_create Dict.lookup Dict.insert key_eq nat_eq string_eq
overlapped =
    later
      (later (later fresh (begins_create 0 job busy refl (λ i p l. cc) refl))
        (begins_create 1 other busy refl other_free refl))
      (ends_create 0 job busy refl)

Reach-IsSafe_example : IsSafe one_pending
Reach-IsSafe_example = Reach-IsSafe good_os overlapped

unused : Calls.Reach good_os "/logs" runner fresh_client
unused = Calls.fresh

overlapping_creates-Lost_example :
    Reach good_os IsAny "/logs" runner (idle (both good_os job again busy busy fresh_client))
    × Lost 0 (both good_os job again busy busy fresh_client)
unfolding begin_create end_create create_pod Dict.lookup Dict.insert key_eq nat_eq string_eq
overlapping_creates-Lost_example =
    overlapping_creates-Lost good_os job again busy busy fresh_client fresh
      (Reach-IsSound good_os unused) refl refl refl refl refl

-- A pod is created, found, exits, is listed, and is deleted twice.
abbrev requests : List Request
requests =
    create job
    ∷ get (pod_key job)
    ∷ exit 0 none
    ∷ list
    ∷ delete (pod_key job) (exits none)
    ∷ delete (pod_key job) (exits none)
    ∷ []

new_client-AnswersAll_example :
    AnswersAll good_os [] requests (serve_all good_os requests (new_client "/logs" runner))
new_client-AnswersAll_example = new_client-AnswersAll good_os "/logs" runner requests

-- The first process exits, and another pod of the name is created between the ends of two deletes.
abbrev before : ProcessClient
before = (create_pod good_os job fresh_client).1

began : Calls.Reach good_os "/logs" runner before
began = Calls.later unused (Calls.creates job)

began_freely : Reach good_os IsAny "/logs" runner (idle before)
unfolding begin_create end_create create_pod Dict.lookup Dict.insert Dict.erase key_eq nat_eq
    string_eq
began_freely =
    later (later fresh (begins_create 0 job busy refl tt refl)) (ends_create 0 job busy refl)

overlapping_deletes-Lost_example :
    Reach good_os IsAny "/logs" runner (
      idle
        (remove (pod_key job) (renewed good_os (pod_key job) 0 first_state none again busy before)))
    × Lost 1
        (remove (pod_key job) (renewed good_os (pod_key job) 0 first_state none again busy before))
unfolding begin_create end_create create_pod remove reap Dict.lookup Dict.insert Dict.erase key_eq
    nat_eq string_eq
overlapping_deletes-Lost_example =
    overlapping_deletes-Lost good_os (pod_key job) 0 first_state none again busy before began_freely
      (Reach-IsSound good_os began) first_found.0 first_found.1 refl refl refl

-- While one call creates a pod, another deletes the one that runs.
abbrev delete_pending : System
delete_pending = record {
  client = note (sigterm first_state.pid) one_pending.client;
  pending = Dict.insert 2 (deleting (pod_key job) 0 false) one_pending.pending;
}

job_free : IsFree (pod_key job) one_pending.pending
unfolding Dict.lookup Dict.insert Dict.erase nat_eq
job_free i p l e = ground (arith, job_differs)

delete_overlapped : Reach good_os IsFree "/logs" runner delete_pending
unfolding end_create launch_parts Dict.lookup Dict.insert Dict.erase key_eq nat_eq string_eq
delete_overlapped =
    later overlapped (begins_delete 2 (pod_key job) 0 first_state refl job_free refl refl)

Reach-Ends_example :
    (d : ProcessClient) × Steps good_os (KilledIn delete_pending) delete_pending (idle d)
Reach-Ends_example = Reach-Ends good_os delete_overlapped
