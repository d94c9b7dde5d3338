-- ===== src/Resources/Containers.antt =====
-- pkg/resource/container.go and pkg/resource/types.go: plain types.
use macos_exec_kubelet.Base.{ℕ, ℤ, String, List}
use macos_exec_kubelet.Api.{Time}

pub data ContainerStatus : Type 0 where
  waiting created running paused restarting oom_killed dead unknown : ContainerStatus

-- The constants count from 0 (iota).
abbrev pub value_of_status : ContainerStatus → ℕ
value_of_status waiting = 0
value_of_status created = 1
value_of_status running = 2
value_of_status paused = 3
value_of_status restarting = 4
value_of_status oom_killed = 5
value_of_status dead = 6
value_of_status unknown = 7

pub record ContainerState : Type 0 where
  pub status : ContainerStatus
  pub started_at : Time
  pub finished_at : Time
  pub exit_code : ℤ
  pub error : String

pub record Container : Type 0 where
  pub id : String
  pub name : String
  pub state : ContainerState

abbrev pub mac_os_runtime : String
mac_os_runtime = "vz"

abbrev pub container_runtime : String
container_runtime = "docker"

-- The time is in nanoseconds.
pub record ExecAction : Type 0 where
  pub command : List String
  pub timeout_duration : ℤ
