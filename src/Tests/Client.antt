-- ===== src/Tests/Client.antt =====
-- The process client on concrete pods.
use macos_exec_kubelet.Base.{
  none, some, [], ◌∷◌, external, exit_error, minus_one, get_elem?, ◌≡◌, refl, key_eq, nat_eq,
  string_eq, message,
}
use macos_exec_kubelet.Base.Dict
use macos_exec_kubelet.Api.{pod_key}
use macos_exec_kubelet.Client.Calls.{started}
use macos_exec_kubelet.Client.Process.{ProcessClient, ProcessState, reap}
use macos_exec_kubelet.Client.Create.{Launch, create_pod, state_of}
use macos_exec_kubelet.Client.Create.Cleanup.{AddsNothing, create_pod_failed-AddsNothing}
use macos_exec_kubelet.Client.Create.Success.{Launched, create_pod-Launched}
use macos_exec_kubelet.Client.Create.Willing.{IsWilling, create_pod_succeeds}
use macos_exec_kubelet.Client.Delete.{times_out, delete_pod}
use macos_exec_kubelet.Client.Delete.Effect.{Deleted, delete_pod-Deleted}
use macos_exec_kubelet.Client.Reach.{Reach, fresh, later, creates, ends, RunsAs, Reach-RunsAs}
use macos_exec_kubelet.Tests.Data.{job, busy, pod_with, good_os, bad_os, runner, fresh_client}

-- The client after the pod was created.
abbrev pub running_client : ProcessClient
running_client = (create_pod good_os job fresh_client).1

pub run : Reach good_os "/logs" runner running_client
run = later fresh (creates job)

finished : Reach good_os "/logs" runner (reap 0 none running_client)
finished = later run (ends 0 none)

Reach-RunsAs_example : RunsAs runner (reap 0 none running_client)
Reach-RunsAs_example = Reach-RunsAs good_os finished

create_pod_failed-AddsNothing_example :
    AddsNothing fresh_client (create_pod bad_os job fresh_client).1
unfolding create_pod Dict.lookup
create_pod_failed-AddsNothing_example =
    create_pod_failed-AddsNothing bad_os job fresh_client (external "exec format error") refl

create_pod-Launched_example : Launched good_os job fresh_client running_client
unfolding create_pod Dict.lookup
create_pod-Launched_example = create_pod-Launched good_os job fresh_client refl

-- A second pod of the same key is refused.
again_refused :
    (create_pod good_os job running_client).0 ≡ some (message "pod process already exists")
unfolding create_pod Dict.lookup Dict.insert key_eq
again_refused = refl

no_command_refused :
    (create_pod good_os (pod_with []) fresh_client).0 ≡ some (message "no containers in pod spec")
unfolding create_pod
no_command_refused = refl

one_process : started running_client.calls ≡ 105 ∷ []
unfolding create_pod Dict.lookup
one_process = refl

abbrev launch : Launch
launch = record {
  pod = job;
  container = busy;
  command = "/bin/sleep";
  args = "5" ∷ [];
  context = 0;
}

abbrev pub first_state : ProcessState
first_state = state_of good_os launch 3 4 105 7

pub first_found :
    (Dict.lookup (pod_key job) running_client.processes ≡ some 0)
    × (get_elem? running_client.states 0 ≡ some first_state)
unfolding create_pod Dict.lookup Dict.insert key_eq
first_found = (refl, refl)

-- The process does not answer SIGTERM and is killed.
delete_pod-Deleted_example :
    ((delete_pod (pod_key job) (times_out (some (exit_error minus_one))) running_client).0 ≡ none)
    × Deleted
        (pod_key job)
        0
        first_state
        (times_out (some (exit_error minus_one)))
        running_client
        (delete_pod (pod_key job) (times_out (some (exit_error minus_one))) running_client).1
delete_pod-Deleted_example =
    delete_pod-Deleted (pod_key job) (times_out (some (exit_error minus_one))) running_client 0
      first_state first_found.0 first_found.1

willing : IsWilling good_os
willing = record {
  makes_dirs = λ t p. refl;
  changes_owners = λ t p c. refl;
  creates = λ t p. (_, refl);
  starts = λ t cmd. (_, refl);
}

create_pod_succeeds_example : (create_pod good_os job fresh_client).0 ≡ none
unfolding Dict.lookup
create_pod_succeeds_example =
    create_pod_succeeds good_os willing job fresh_client busy [] refl (λ e. cc) refl
