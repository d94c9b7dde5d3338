-- ===== src/Startup/Run.antt =====
-- run and envOrDefault of cmd/virtual-kubelet/main.go.
use macos_exec_kubelet.Base.{
  String, Option, none, some, List, [], ◌∷◌, Error, wrap, Result, ok, err, if◌then◌else◌, ◌==◌,
  string_eq, not,
}

-- What the `select` receives: what node.Run returned, or the error of the context.
pub data NodeEvent : Type 0 where
  run_returned : Option Error → NodeEvent
  context_done : Error → NodeEvent

-- node.Run in a goroutine, WaitReady, and the receive from Done.
pub data NodeCall : Type 0 where
  go_run wait_ready wait_done : NodeCall

pub record Node : Type 0 where
  pub wait_ready_reply : Option Error
  pub err_reply : Option Error

pub after_ready : Node → Option Error → Option Error × List NodeCall
after_ready node (some e) =
    (some (wrap "error waiting for node to be ready" e), go_run ∷ wait_ready ∷ [])
after_ready node none = (node.err_reply, go_run ∷ wait_ready ∷ wait_done ∷ [])

unfoldable pub run_node : Node → NodeEvent → Option Error × List NodeCall
unfolding after_ready
run_node node (context_done e) = (some e, go_run ∷ [])
run_node node (run_returned (some e)) = (some (wrap "error running the node" e), go_run ∷ [])
run_node node (run_returned none) = after_ready node node.wait_ready_reply

-- The name of the service for traces; the argument is the variable OTEL_SERVICE_NAME.
unfoldable pub service_name : String → String → String
service_name node_name otel = if not (otel == "") then otel else node_name

run_created : Result Node → NodeEvent → Option Error × List NodeCall
unfolding run_node
run_created (err e) event = (some e, [])
run_created (ok node) event = run_node node event

-- The replies of configureTracing and NewNode, and what the `select` receives.
unfoldable pub run :
    {T : Type 0} → Result T → Result Node → NodeEvent → Option Error × List NodeCall
unfolding run_created
run (err e) node event = (some e, [])
run (ok tracer) node event = run_created node event

-- The first argument is what os.LookupEnv found.
unfoldable pub env_or_default : Option String → String → String
env_or_default none default_value = default_value
env_or_default (some v) default_value = v
