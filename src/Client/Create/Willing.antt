-- ===== src/Client/Create/Willing.antt =====
-- When CreatePod succeeds.
use macos_exec_kubelet.Base.{
  ℕ, String, Option, none, some, List, [], ◌∷◌, ◌++◌, ok, ◌≡◌, ◌≢◌, refl, key_eq, string_eq,
}
use macos_exec_kubelet.Base.Dict
use macos_exec_kubelet.Base.Dict.{is_some}
use macos_exec_kubelet.Api.{Pod, pod_key, Container}
use macos_exec_kubelet.Client.Calls.{Os, Call, Cmd, Credential}
use macos_exec_kubelet.Client.Process.{ProcessClient}
use macos_exec_kubelet.Client.Create.{
  Launch, log_dir, command_of, store, start_step, stderr_step, stdout_step, chown_step, mkdir_step,
  launch_parts, create_pod,
}

-- The system refuses nothing: directories and files can be made, and the command can be started.
pub record IsWilling (os : Os) : Type 0 where
  pub makes_dirs : (t : List Call) (p : String) → os.mkdir_all_reply t p ≡ none
  pub changes_owners : (t : List Call) (p : String) (c : Credential) → os.chown_reply t p c ≡ none
  pub creates : (t : List Call) (p : String) → (f : ℕ) × (os.create_reply t p ≡ ok f)
  pub starts : (t : List Call) (cmd : Cmd) → (pid : ℕ) × (os.start_reply t cmd ≡ ok pid)

module _ (os : Os) (w : IsWilling os) where
  start_succeeds :
      (l : Launch) (out errs : ℕ) (c : ProcessClient) → (start_step os l out errs c).0 ≡ none
  unfolding start_step store
  start_succeeds l out errs c =
      let (pid, e) = w.starts c.calls (command_of os l c out errs) in rw e refl

  stderr_succeeds : (l : Launch) (out : ℕ) (c : ProcessClient) → (stderr_step os l out c).0 ≡ none
  unfolding stderr_step
  stderr_succeeds l out c =
      let (errs, e) = w.creates c.calls (os.join (log_dir os l c ∷ "stderr.log" ∷ [])) in
      rw e (start_succeeds l out errs _)

  stdout_succeeds : (l : Launch) (c : ProcessClient) → (stdout_step os l c).0 ≡ none
  unfolding stdout_step
  stdout_succeeds l c =
      let (out, e) = w.creates c.calls (os.join (log_dir os l c ∷ "stdout.log" ∷ [])) in
      rw e (stderr_succeeds l out _)

  chown_succeeds :
      (l : Launch) (user : Option Credential) (c : ProcessClient)
      → (chown_step os l user c).0 ≡ none
  unfolding chown_step
  chown_succeeds l none c = stdout_succeeds l c
  chown_succeeds l (some user) c =
      rw (w.changes_owners c.calls (log_dir os l c) user) (stdout_succeeds l _)

  mkdir_succeeds : (l : Launch) (c : ProcessClient) → (mkdir_step os l c).0 ≡ none
  unfolding mkdir_step
  mkdir_succeeds l c = rw (w.makes_dirs c.calls (log_dir os l c)) (chown_succeeds l c.credential _)

  parts_succeed :
      (pod : Pod) (container : Container) (parts : List String) (c : ProcessClient)
      → parts ≢ []
      → (launch_parts os pod container parts c).0 ≡ none
  unfolding launch_parts
  parts_succeed pod container [] c runs = absurd (runs refl)
  parts_succeed pod container (command ∷ args) c runs =
      mkdir_succeeds
        (record {
          pod = pod;
          container = container;
          command = command;
          args = args;
          context = c.contexts;
        })
        _

  -- On a system that refuses nothing, CreatePod succeeds for every pod that has a container, whose
  -- first container has a command or arguments, and whose key has no process.
  pub create_pod_succeeds :
      (pod : Pod) (c : ProcessClient) (container : Container) (others : List Container)
      → pod.spec.containers ≡ container ∷ others
      → container.command ++ container.args ≢ []
      → Dict.lookup (pod_key pod) c.processes ≡ none
      → (create_pod os pod c).0 ≡ none
  unfolding create_pod
  create_pod_succeeds pod c container others first runs new =
      rw (first, new) (parts_succeed _ container _ c runs)
