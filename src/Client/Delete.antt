-- ===== src/Client/Delete.antt =====
-- DeletePod of pkg/client/process.go.
pub mod Effect
use macos_exec_kubelet.Base.{
  ℕ, String, Option, none, some, Error, not_found, NamespacedName, key_eq, get_elem?,
}
use macos_exec_kubelet.Base.Dict
use macos_exec_kubelet.Client.Calls.{cancel, sigterm}
use macos_exec_kubelet.Client.Process.{ProcessClient, ProcessState, note, reap}

-- Which case of the `select` is taken: the process exits with the given error before the grace
-- period ends, or the timer fires first, and the process exits with that error once it is killed.
-- For a process that has exited already the error plays no role.
pub data Waiting : Type 0 where
  exits times_out : Option Error → Waiting

-- The call of Signal, which sends SIGTERM unless the process has exited, and then the `select`.
-- Cancelling the context kills the process.
unfoldable pub wait_for : ℕ → ProcessState → Waiting → ProcessClient → ProcessClient
wait_for h s (exits e) c = reap h e (note (sigterm s.pid) c)
wait_for h s (times_out e) c = reap h e (note (cancel s.context) (note (sigterm s.pid) c))

unfoldable pub remove : NamespacedName → ProcessClient → ProcessClient
remove k c = record c { processes = Dict.erase k c.processes }

-- A pointer of the map always has its target; without one nothing is done.
unfoldable pub delete_state :
    NamespacedName
    → ℕ
    → Waiting
    → Option ProcessState
    → ProcessClient
    → Option Error × ProcessClient
unfolding wait_for remove
delete_state k h w none c = (none, c)
delete_state k h w (some s) c = (none, remove k (wait_for h s w c))

unfoldable pub delete_found :
    NamespacedName → Waiting → Option ℕ → ProcessClient → Option Error × ProcessClient
unfolding delete_state
delete_found k w none c = (some (not_found "pod process not found"), c)
delete_found k w (some h) c = delete_state k h w (get_elem? c.states h) c

unfoldable pub delete_pod : NamespacedName → Waiting → ProcessClient → Option Error × ProcessClient
unfolding delete_found
delete_pod k w c = delete_found k w (Dict.lookup k c.processes) c
