-- ===== src/Client/Create/Cleanup.antt =====
-- A CreatePod that fails leaves nothing behind.
use macos_exec_kubelet.Base.{ℕ, ◌≡◌, true, some, Error, List, String, arith}
use macos_exec_kubelet.Api.{Pod, Container}
use macos_exec_kubelet.Client.Calls.{Os, is_open, is_live, started, StartsAs}
use macos_exec_kubelet.Client.Process.{ProcessClient}
use macos_exec_kubelet.Client.Create.{create_pod, launch_parts}

-- The second client has the first one's pods, and no process, open file or live context that the
-- first one lacks.
pub record AddsNothing (c d : ProcessClient) : Type 0 where
  pub same_processes : d.processes ≡ c.processes
  pub same_states : d.states ≡ c.states
  pub same_started : started d.calls ≡ started c.calls
  pub no_new_file : (f : ℕ) → is_open f d.calls ≡ true → is_open f c.calls ≡ true
  pub no_new_context : (x : ℕ) → is_live x d.calls ≡ true → is_live x c.calls ≡ true

module _ (os : Os) (pod : Pod) (c : ProcessClient) where
  -- A CreatePod that returns an error, at whichever step, has kept the map of pods and their
  -- states, has started no process, has closed every file that it created and has cancelled the
  -- context that it made.
  pub create_pod_failed-AddsNothing :
      (e : Error) → (create_pod os pod c).0 ≡ some e → AddsNothing c (create_pod os pod c).1
  unfolding create_pod
  create_pod_failed-AddsNothing e h = record {
    same_processes = ground arith;
    same_states = ground arith;
    same_started = ground arith;
    no_new_file = λ f o. ground arith;
    no_new_context = λ x o. ground arith;
  }

  -- CreatePod starts processes only as the user of the client.
  pub create_pod-StartsAs :
      StartsAs c.credential c.calls
      → StartsAs (create_pod os pod c).1.credential (create_pod os pod c).1.calls
  unfolding create_pod
  create_pod-StartsAs s = ground arith

  -- The same for what follows the look-up of the key.
  pub launch_parts_failed-AddsNothing :
      (container : Container) (parts : List String) (e : Error)
      → (launch_parts os pod container parts c).0 ≡ some e
      → AddsNothing c (launch_parts os pod container parts c).1
  unfolding launch_parts
  launch_parts_failed-AddsNothing container parts e h = record {
    same_processes = ground arith;
    same_states = ground arith;
    same_started = ground arith;
    no_new_file = λ f o. ground arith;
    no_new_context = λ x o. ground arith;
  }
