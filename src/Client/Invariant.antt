-- ===== src/Client/Invariant.antt =====
-- What holds of the process client between two of its operations.
pub mod Steps
pub mod Exits
use macos_exec_kubelet.Base.{
  ℕ, true, false, Option, none, some, List, NamespacedName, key_eq, ◌≡◌, ◌⊎◌, get_elem?,
}
use macos_exec_kubelet.Base.Dict
use macos_exec_kubelet.Api.{Pod, pod_key}
use macos_exec_kubelet.Client.Calls.{is_open}
use macos_exec_kubelet.Client.Process.{ProcessClient, ProcessState, process_key}

-- A state holds the pod of the key under which it was stored.
pub record Describes (k : NamespacedName) (s : ProcessState) : Type 0 where
  pub same_key : process_key s.pod_process ≡ k
  pub pod : Pod
  pub with_pod : s.pod_process.pod ≡ some pod
  pub key_of_pod : pod_key pod ≡ k

-- A file belongs to a process that still runs.
pub record BelongsTo (f : ℕ) (c : ProcessClient) : Type 0 where
  pub owner : ℕ
  pub state : ProcessState
  pub found : get_elem? c.states owner ≡ some state
  pub running : state.wait_done ≡ false
  pub one_of : (f ≡ state.stdout) ⊎ (f ≡ state.stderr)

pub record IsSound (c : ProcessClient) : Type 0 where
  -- The map lists no key twice.
  pub nodup : Dict.NodupKeys c.processes
  -- Its pointers lead to states that describe the key.
  pub described :
      (k : NamespacedName) (h : ℕ)
      → Dict.lookup k c.processes ≡ some h
      → (s : ProcessState) × (get_elem? c.states h ≡ some s) × Describes k s
  -- A running process can be reached: the map has it under its key.
  pub no_orphan :
      (h : ℕ) (s : ProcessState)
      → get_elem? c.states h ≡ some s
      → s.wait_done ≡ false
      → Dict.lookup (process_key s.pod_process) c.processes ≡ some h
  -- An open file belongs to a running process.
  pub no_leak : (f : ℕ) → is_open f c.calls ≡ true → BelongsTo f c

pub BelongsTo-same_states :
    (f : ℕ) {c d : ProcessClient} → d.states ≡ c.states → BelongsTo f c → BelongsTo f d
BelongsTo-same_states f e b = record {
  owner = b.owner;
  state = b.state;
  found = rw e b.found;
  running = b.running;
  one_of = b.one_of;
}
