-- ===== src/Client/Create/Success.antt =====
-- What a CreatePod that succeeds has stored and left running.
use macos_exec_kubelet.Base.{
  ℕ, String, ◌≡◌, refl, true, false, none, some, List, [], ◌∷◌, ◌++◌, ◌<>◌, map, length, pos, arith,
  key_eq, Result, ok, err, Option, Error, suc, sym, message, if◌then◌else◌, ==_refl, nat_eq, ◌∙◌,
  ◌⊎◌,
}
use macos_exec_kubelet.Base.Dict
use macos_exec_kubelet.Api.{Pod, Container, pod_key}
use macos_exec_kubelet.Client.Calls.{
  Os, Call, Cmd, newest_start, is_open, is_live, started, create, start, chown, mkdir_all,
  with_cancel, Credential,
}
use macos_exec_kubelet.Client.Process.{ProcessClient, ProcessState, process_key, note}
use macos_exec_kubelet.Client.Create.{
  Launch, create_pod, after_stderr, after_start, after_stdout, after_chown, chown_step, after_mkdir,
  launch_parts, launch, state_of, command_of,
}

-- The command that is given to exec: these words, the system's environment with the variables of
-- the container behind it, the credential, the two output files and the context.
pub record IsCommandOf (os : Os) (words : List String) (container : Container)
    (credential : Option Credential) (context out errs : ℕ) (cmd : Cmd) : Type 0 where
  pub own_words : cmd.path ∷ cmd.args ≡ words
  pub moment : List Call
  pub own_env : cmd.env ≡ os.environ moment ++ map (λ v. v.name <> ("=" <> v.value)) container.env
  pub own_credential : cmd.credential ≡ credential
  pub own_context : cmd.context ≡ context
  pub own_stdout : cmd.stdout ≡ out
  pub own_stderr : cmd.stderr ≡ errs

-- The second client has, next to what the first one had, a running process for the pod: it runs
-- the command and arguments of the first container, its files are open and its context is alive.
pub record Launched (os : Os) (pod : Pod) (c d : ProcessClient) : Type 0 where
  pub was_absent : Dict.lookup (pod_key pod) c.processes ≡ none
  pub container : Container
  pub others : List Container
  pub first_container : pod.spec.containers ≡ container ∷ others
  pub state : ProcessState
  pub stored : d.processes ≡ Dict.insert (pod_key pod) (length c.states) c.processes
  pub allocated : d.states ≡ c.states ++ state ∷ []
  pub cmd : Cmd
  pub own_cmd :
      IsCommandOf os
        (container.command ++ container.args)
        container
        c.credential
        state.context
        state.stdout
        state.stderr
        cmd
  pub newest_call : newest_start d.calls ≡ some (cmd, ok state.pid)
  pub newest : started d.calls ≡ state.pid ∷ started c.calls
  pub running : state.wait_done ≡ false
  pub own_key : process_key state.pod_process ≡ pod_key pod
  pub own_pod : state.pod_process.pod ≡ some pod
  pub own_pid : state.pod_process.pid ≡ state.pid
  pub moment : List Call
  pub own_start : state.pod_process.started_at ≡ os.now moment
  pub own_command : state.pod_process.command ≡ container.command ++ container.args
  pub unset_exit_code : state.pod_process.exit_code ≡ pos 0
  pub stdout_open : is_open state.stdout d.calls ≡ true
  pub stderr_open : is_open state.stderr d.calls ≡ true
  pub context_live : is_live state.context d.calls ≡ true
  pub no_other_file :
      (f : ℕ)
      → is_open f d.calls ≡ true
      → (is_open f c.calls ≡ true) ⊎ ((f ≡ state.stdout) ⊎ (f ≡ state.stderr))

-- An open file of the client, or one of two others.
abbrev IsOneOf : ℕ → ℕ → ℕ → ProcessClient → Type 0
IsOneOf f out errs c = (is_open f c.calls ≡ true) ⊎ ((f ≡ out) ⊎ (f ≡ errs))

module _ (os : Os) where
  -- The same for a step that comes after the checks, by the values that the system gave.
  abbrev RanWith : Launch → ℕ → ProcessClient → ProcessClient → Type 0
  RanWith l out c d =
      (errs pid : ℕ) × (moment : List Call) × (cmd : Cmd) × IsCommandOf os (l.command ∷ l.args)
        l.container c.credential l.context out errs cmd
      × (newest_start d.calls ≡ some (cmd, ok pid))
      × (d.processes ≡ Dict.insert (pod_key l.pod) (length c.states) c.processes)
      × (d.states ≡ c.states ++ state_of os l out errs pid (os.now moment) ∷ [])
      × (started d.calls ≡ pid ∷ started c.calls)
      × (is_open out d.calls ≡ true)
      × (is_open errs d.calls ≡ true)
      × (is_live l.context d.calls ≡ is_live l.context c.calls)
      × ((f : ℕ) → is_open f d.calls ≡ true → IsOneOf f out errs c)

  abbrev Ran : Launch → ProcessClient → ProcessClient → Type 0
  Ran l c d = (out : ℕ) × RanWith l out c d

  command_of-IsCommandOf :
      (l : Launch) (c : ProcessClient) (out errs : ℕ)
      → IsCommandOf os
          (l.command ∷ l.args)
          l.container
          c.credential
          l.context
          out
          errs
          (command_of os l c out errs)
  command_of-IsCommandOf l c out errs = record {
    own_words = ground arith;
    moment = c.calls;
    own_env = ground arith;
    own_credential = ground arith;
    own_context = ground arith;
    own_stdout = ground arith;
    own_stderr = ground arith;
  }

  after_stderr-RanWith :
      (l : Launch) (out : ℕ) (r : Result ℕ) (path : String) (c : ProcessClient)
      → is_open out c.calls ≡ true
      → (after_stderr os l out r (note (create path r) c)).0 ≡ none
      → RanWith l out c (after_stderr os l out r (note (create path r) c)).1
  unfolding after_stderr
  after_stderr-RanWith l out (err e) path c o h = cc
  after_stderr-RanWith l out (ok errs) path c o h = start_lem (os.start_reply _ _) h
    where
      d : ProcessClient
      d = note (create path (ok errs)) c

      start_lem :
          (r : Result ℕ)
          → (after_start os l out errs r (note (start (command_of os l d out errs) r) d)).0 ≡ none
          → RanWith l out c
              (after_start os l out errs r (note (start (command_of os l d out errs) r) d)).1
      start_lem (err e) h = cc
      start_lem (ok pid) h = (
        errs,
        pid,
        _,
        _,
        command_of-IsCommandOf l d out errs,
        refl,
        refl,
        refl,
        refl,
        ground arith,
        ground arith,
        refl,
        λ f p. ground arith,
      )

  after_stdout-Ran :
      (l : Launch) (r : Result ℕ) (path : String) (c : ProcessClient)
      → (after_stdout os l r (note (create path r) c)).0 ≡ none
      → Ran l c (after_stdout os l r (note (create path r) c)).1
  unfolding after_stdout
  after_stdout-Ran l (err e) path c h = cc
  after_stdout-Ran l (ok out) path c h =
      let (errs, pid, moment, cmd, m, x, p, s, n, o, r, v, w) =
        after_stderr-RanWith l out (os.create_reply _ _) _ (note (create path (ok out)) c)
          (ground arith) h in
      (out, (errs, pid, moment, cmd, m, x, p, s, n, o, r, v, λ f q. ground (arith, w f q)))

  after_chown-Ran :
      (l : Launch) (r : Option Error) (c : ProcessClient)
      → (after_chown os l r c).0 ≡ none
      → Ran l c (after_chown os l r c).1
  unfolding after_chown
  after_chown-Ran l (some e) c h = cc
  after_chown-Ran l none c h = after_stdout-Ran l (os.create_reply _ _) _ c h

  after_mkdir-Ran :
      (l : Launch) (r : Option Error) (c : ProcessClient)
      → (after_mkdir os l r c).0 ≡ none
      → Ran l c (after_mkdir os l r c).1
  unfolding after_mkdir
  after_mkdir-Ran l (some e) c h = cc
  after_mkdir-Ran l none c h = chown_lem c.credential h
    where
      chown_lem :
          (cred : Option Credential)
          → (chown_step os l cred c).0 ≡ none
          → Ran l c (chown_step os l cred c).1
      chown_lem none h = after_chown-Ran l none c h
      chown_lem (some cred) h = after_chown-Ran l _ (note (chown _ cred) c) h

  -- What follows the look-up stores a process that runs, whatever the map holds by then.
  pub launch_parts-stored :
      (pod : Pod) (container : Container) (parts : List String) (c : ProcessClient)
      → (launch_parts os pod container parts c).0 ≡ none
      → (state : ProcessState) × ((launch_parts os pod container parts c).1.processes
          ≡ Dict.insert (pod_key pod) (length c.states) c.processes)
        × ((launch_parts os pod container parts c).1.states ≡ c.states ++ state ∷ [])
        × (state.wait_done ≡ false)
  unfolding launch_parts
  launch_parts-stored pod container [] c h = cc
  launch_parts-stored pod container (command ∷ args) c h =
      let (out, (errs, pid, moment, cmd, m, x, p, s, n, o, r, v, w)) =
        after_mkdir-Ran
          (record {
            pod = pod;
            container = container;
            command = command;
            args = args;
            context = c.contexts;
          })
          (os.mkdir_all_reply _ _)
          (note (mkdir_all _)
            (note (with_cancel c.contexts) (record c { contexts = suc c.contexts })))
          h in
      (_, p, s, refl)

  pub launch_parts-Launched :
      (pod : Pod) (container : Container) (others : List Container) (parts : List String)
      (c : ProcessClient)
      → Dict.lookup (pod_key pod) c.processes ≡ none
      → pod.spec.containers ≡ container ∷ others
      → container.command ++ container.args ≡ parts
      → (launch_parts os pod container parts c).0 ≡ none
      → Launched os pod c (launch_parts os pod container parts c).1
  unfolding launch_parts
  launch_parts-Launched pod container others [] c a f q h = cc
  launch_parts-Launched pod container others (command ∷ args) c a f q h =
      let l : Launch = record {
        pod = pod;
        container = container;
        command = command;
        args = args;
        context = c.contexts;
      } in
      let (out, (errs, pid, moment, cmd, m, x, p, s, n, o, r, v, w)) =
        after_mkdir-Ran l (os.mkdir_all_reply _ _)
          (note (mkdir_all _)
            (note (with_cancel c.contexts) (record c { contexts = suc c.contexts })))
          h in
      record {
        was_absent = a;
        container = container;
        others = others;
        first_container = f;
        state = state_of os l out errs pid (os.now moment);
        stored = p;
        allocated = s;
        cmd = cmd;
        own_cmd = rw q m;
        newest_call = x;
        newest = n;
        running = refl;
        own_key = refl;
        own_pod = refl;
        own_pid = refl;
        moment = moment;
        own_start = refl;
        own_command = sym q;
        unset_exit_code = refl;
        stdout_open = o;
        stderr_open = r;
        context_live = v ∙ rw (==_refl c.contexts);
        no_other_file = w;
      }

  -- A CreatePod that succeeds has found no process of the pod's key, and has started one process:
  -- its last call of exec is answered with the identifier, and is for the command and arguments of
  -- the pod's first container, in the system's environment with the container's variables behind
  -- it, as the client's user, to the two log files and under a context of its own. It has stored that process under
  -- the key, running, with the pod itself, the reported identifier and exit code 0, and has left
  -- its two files open and its context alive.
  pub create_pod-Launched :
      (pod : Pod) (c : ProcessClient)
      → (create_pod os pod c).0 ≡ none
      → Launched os pod c (create_pod os pod c).1
  unfolding create_pod
  create_pod-Launched pod c h = launch_lem pod.spec.containers refl h
    where
      launch_lem :
          (cs : List Container)
          → pod.spec.containers ≡ cs
          → (launch os pod cs c).0 ≡ none
          → Launched os pod c (launch os pod cs c).1
      launch_lem [] f h = cc
      launch_lem (container ∷ others) f h = found_lem (Dict.lookup (pod_key pod) c.processes) refl h
        where
          attempt : Option ℕ → Option Error × ProcessClient
          attempt r =
              if Dict.is_some r
              then (some (message "pod process already exists"), c)
              else launch_parts os pod container (container.command ++ container.args) c

          found_lem :
              (r : Option ℕ)
              → Dict.lookup (pod_key pod) c.processes ≡ r
              → (attempt r).0 ≡ none
              → Launched os pod c (attempt r).1
          found_lem (some k) a h = cc
          found_lem none a h = launch_parts-Launched pod container others _ c a f refl h
