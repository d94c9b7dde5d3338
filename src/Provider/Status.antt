-- ===== src/Provider/Status.antt =====
-- getPodStatusFromProcess of pkg/provider/macos_exec.go.
pub mod Phases
use macos_exec_kubelet.Base.{
  ℕ, String, Bool, true, false, Option, none, some, List, [], ◌∷◌, ℤ, pos, negsuc, int32, ◌==◌,
  nat_eq, if◌then◌else◌, not, ◌≡◌, refl, arith, ◌↔◌, minus_one,
}
use macos_exec_kubelet.Api.{
  Phase, pending, running, succeeded, failed, Time, Terminated, ContainerState, ContainerStatus,
  PodStatus, Pod, Container,
}
use macos_exec_kubelet.Client.Process.{PodProcess}

-- time.Time.IsZero
abbrev is_zero : Time → Bool
is_zero t = t == 0

unfoldable pub phase_of : ℤ → Time → Phase
phase_of (pos n) started = if n == 0 then succeeded else failed
phase_of (negsuc n) started = if not (is_zero started) then running else pending

container_name_of : List Container → String
container_name_of [] = "main"
container_name_of (container ∷ _) = container.name

unfoldable pub name_of : Option Pod → String
unfolding container_name_of
name_of none = "main"
name_of (some pod) = container_name_of pod.spec.containers

abbrev is_running : Phase → Bool
is_running running = true
is_running _ = false

-- `now` is what metav1.Now gives.
unfoldable pub state_of : Phase → Time → PodProcess → ContainerState
state_of running now p = record { running_since = some p.started_at; terminated = none }
state_of _ now p = record {
  running_since = none;
  terminated =
      some (record { exit_code = int32 p.exit_code; started_at = p.started_at; finished_at = now });
}

-- The status, once the phase is known.
unfoldable pub status_in : String → Time → PodProcess → Phase → PodStatus
unfolding name_of state_of
status_in internal_ip now p phase = record {
  phase = phase;
  host_ip = internal_ip;
  pod_ip = internal_ip;
  start_time = p.started_at;
  container_statuses =
      record {
        name = name_of p.pod;
        state = state_of phase now p;
        ready = is_running phase;
        restart_count = 0;
        image = "host-process";
        image_id = "";
      }
      ∷ [];
}

unfoldable pub get_pod_status_from_process : String → Time → PodProcess → PodStatus
unfolding phase_of status_in
get_pod_status_from_process internal_ip now p =
    status_in internal_ip now p (phase_of p.exit_code p.started_at)
