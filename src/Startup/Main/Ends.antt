-- ===== src/Startup/Main/Ends.antt =====
-- How the program ends.
use macos_exec_kubelet.Base.{
  Bool, true, Option, none, some, List, [], ◌∷◌, Error, wrap, Result, ok, err, ◌≡◌, ◌⊎◌, ◌↔◌, refl,
  arith, inl, inr, String, Bool-cases, string_eq,
}
use macos_exec_kubelet.Startup.Run.{
  NodeCall, go_run, wait_ready, NodeEvent, run_returned, context_done, Node, run, run_node,
  after_ready,
}
use macos_exec_kubelet.Startup.Settings.{Settings, CommandLine, initial, parse_flags}
use macos_exec_kubelet.Startup.Main.{
  Host, Exit, finished, is_canceled, main, exit_of, execute, after_hostname, after_clientset,
  after_level, kube_config, Run,
}

abbrev pub Calls : NodeCall → List NodeCall → Type 0
Calls c [] = ⊥
Calls c (d ∷ ds) = (d ≡ c) ⊎ Calls c ds

-- Main stops before the node is run, or ends as the run ends.
module _ (host : Host) (start : Run) where
  abbrev Runs : Exit × List NodeCall → Type 0
  Runs r = (r.1 ≡ []) ⊎ ((s : Settings) × (r ≡ (exit_of host start (start s).0, (start s).1)))

  execute-Runs :
      (s : Settings) (name : String) (args : Result (Option CommandLine))
      → Runs (execute host start s name args)
  unfolding execute
  execute-Runs s name (err e) = inl refl
  execute-Runs s name (ok none) = inl refl
  execute-Runs s name (ok (some args)) =
      level_lem (parse_flags host.env name args s) (host.parse_level _)
    where
      level_lem : (t : Settings) (o : Option Error) → Runs (after_level host start t o)
      level_lem t none = inr (t, refl)
      level_lem t (some e) = inl refl

  main-Runs : Runs (main host start)
  unfolding main initial
  main-Runs =
      let s = initial host.env in
      let path = kube_config host start s.kube_config_path in
      clientset_lem (record s { kube_config_path = path }) (host.clientset_from_env path)
    where
      hostname_lem : (s : Settings) (r : Result String) → Runs (after_hostname host start s r)
      hostname_lem s (err e) = inl refl
      hostname_lem s (ok name) = execute-Runs s name host.command_line

      clientset_lem : (s : Settings) (o : Option Error) → Runs (after_clientset host start s o)
      clientset_lem s (some e) = inl refl
      clientset_lem s none = hostname_lem s host.hostname

-- Nothing went wrong, but for a context that was canceled.
abbrev pub IsQuiet : Bool → Option Error → Type 0
IsQuiet u none = Unit
IsQuiet u (some e) = is_canceled u e ≡ true

-- The same of what the node was waited for, in the order of the waiting.
abbrev pub QuietReady : Bool → Option Error → Option Error → Type 0
QuietReady u (some e) last = is_canceled u e ≡ true
QuietReady u none last = IsQuiet u last

abbrev pub QuietEvent : Bool → Node → NodeEvent → Type 0
QuietEvent u n (context_done e) = is_canceled u e ≡ true
QuietEvent u n (run_returned (some e)) = is_canceled u e ≡ true
QuietEvent u n (run_returned none) = QuietReady u n.wait_ready_reply n.err_reply

module _ {T : Type 0} (host : Host) (tracer : Settings → Result T) (node : Settings → Result Node)
    (event : NodeEvent) where
  abbrev pub run_with : Run
  run_with s = run (tracer s) (node s) event

  abbrev pub Ends : Exit × List NodeCall → Type 0
  Ends r =
      (Calls wait_ready r.1 → event ≡ run_returned none)
      × (Calls go_run r.1
          → (s : Settings) × (n : Node) × (node s ≡ ok n)
            × ((r.0 ≡ finished) ↔ QuietEvent host.invalid_input_unwraps n event))

  quiet_lem :
      (o : Option Error)
      → (exit_of host run_with o ≡ finished) ↔ IsQuiet host.invalid_input_unwraps o
  unfolding exit_of
  quiet_lem none = ground arith
  quiet_lem (some e) = elim (Bool-cases (is_canceled host.invalid_input_unwraps e)) [
    | inl p ↦ rw p ground arith
    | inr p ↦ rw p ground arith
  ]

  run-Ends : (s : Settings) → Ends (exit_of host run_with (run_with s).0, (run_with s).1)
  unfolding run is_canceled
  run-Ends s = ended_lem (tracer s) (node s) refl event
    where
      Ended : Option Error × List NodeCall → NodeEvent → Type 0
      Ended r ev =
          (Calls wait_ready r.1 → ev ≡ run_returned none)
          × (Calls go_run r.1
              → (s : Settings) × (n : Node) × (node s ≡ ok n)
                × ((exit_of host run_with r.0 ≡ finished)
                    ↔ QuietEvent host.invalid_input_unwraps n ev))

      ready_lem :
          (n : Node)
          → node s ≡ ok n
          → (o : Option Error) → n.wait_ready_reply ≡ o
          → Ended (after_ready n o) (run_returned none)
      ready_lem n l none r = (λ c. refl, λ c. (s, n, l, rw r (quiet_lem n.err_reply)))
      ready_lem n l (some e) r = (λ c. refl, λ c. (s, n, l, rw r (quiet_lem (some (wrap _ e)))))

      event_lem : (n : Node) → node s ≡ ok n → (ev : NodeEvent) → Ended (run_node n ev) ev
      event_lem n l (context_done e) = (λ c. ground arith, λ c. (s, n, l, quiet_lem (some e)))
      event_lem n l (run_returned (some e)) =
          (λ c. ground arith, λ c. (s, n, l, quiet_lem (some (wrap _ e))))
      event_lem n l (run_returned none) = ready_lem n l n.wait_ready_reply refl

      ended_lem :
          (t : Result T) (m : Result Node) → node s ≡ m → (ev : NodeEvent) → Ended (run t m ev) ev
      ended_lem (err e) m l ev = (λ c. elim c [ ], λ c. elim c [ ])
      ended_lem (ok t) (err e) l ev = (λ c. elim c [ ], λ c. elim c [ ])
      ended_lem (ok t) (ok n) l ev = event_lem n l ev

  -- Whatever the host and the libraries reply: the program waits for the node to be ready only once
  -- node.Run has returned without an error, and so never while the node starts. Once it has
  -- started the node it returns from main, and does not exit with an error, exactly if what it
  -- waited for brought no error but that of a canceled context: node.Run or the context; and after
  -- a node.Run without an error, WaitReady; and after that, the error of the node.
  pub main-Ends : Ends (main host run_with)
  main-Ends = elim (main-Runs host run_with) [
    | inl p ↦ rw p (λ c. elim c [ ], λ c. elim c [ ])
    | inr (s, p) ↦ rw p (run-Ends s)
  ]
