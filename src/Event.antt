-- ===== src/Event.antt =====
-- The event recorder, pkg/event/kuberecorder.go: what each method passes to the recorder of
-- Kubernetes.
pub mod Emitted
pub mod Context
pub mod Log
use macos_exec_kubelet.Base.{
  String, ◌<>◌, Option, none, some, List, [], ◌∷◌, Error, ◌==◌, string_eq, if◌then◌else◌,
}

pub data EventType : Type 0 where
  normal warning : EventType

-- The reasons are constants of k8s.io/kubernetes/pkg/kubelet/events, but for the last, which the
-- program declares.
pub data Reason : Type 0 where
  pulling pulled inspect_failed pull_failed back_off created started create_failed : Reason
  start_failed post_start_failed pre_stop_failed pull_secrets_failed : Reason

pub record ObjectReference : Type 0 where
  pub namespace : String
  pub name : String
  pub uid : String
  pub field_path : String

-- The methods of EventRecorder with their arguments; the image comes before the container.
pub data Event : Type 0 where
  pulling_image : String → String → Event
  pulled_image : String → String → String → Event
  failed_to_validate_oci : String → Event
  failed_to_pull_image back_off_pull_image : String → String → Error → Event
  created_container started_container : String → Event
  failed_to_create_container failed_to_start_container : String → Error → Event
  failed_post_start_hook failed_pre_stop_hook : String → List String → Error → Event
  failed_to_resolve_image_pull_secrets : Error → Event

pub record Recorded : Type 0 where
  pub reference : ObjectReference
  pub type : EventType
  pub reason : Reason
  pub text : String

-- strings.Join(cmd, ", ")
abbrev pub join_comma : List String → String
join_comma [] = ""
join_comma (s ∷ []) = s
join_comma (s ∷ t ∷ rest) = s <> (", " <> join_comma (t ∷ rest))

abbrev pub container_of : Event → String
container_of (pulling_image image c) = c
container_of (pulled_image image c d) = c
container_of (failed_to_validate_oci s) = ""
container_of (failed_to_pull_image image c e) = c
container_of (back_off_pull_image image c e) = c
container_of (created_container c) = c
container_of (started_container c) = c
container_of (failed_to_create_container c e) = c
container_of (failed_to_start_container c e) = c
container_of (failed_post_start_hook c cmd e) = c
container_of (failed_pre_stop_hook c cmd e) = c
container_of (failed_to_resolve_image_pull_secrets e) = ""

-- recordEvent: nothing without an object reference in the context.
unfoldable pub record_event :
    Option ObjectReference → String → EventType → Reason → String → Option Recorded
record_event none c ty r text = none
record_event (some ref) c ty r text = some (record {
  reference = if c == "" then ref else record ref { field_path = "spec.containers{" <> (c <> "}") };
  type = ty;
  reason = r;
  text = text;
})

unfoldable pub quoted : String → String
quoted s = "\"" <> (s <> "\"")

-- `show` is what `%v` prints of an error.
module _ (show : Error → String) where
  hook_text : String → List String → Error → String
  unfolding quoted
  hook_text c cmd e =
      "Exec lifecycle hook (["
      <> (join_comma cmd <> ("]) for Container " <> (quoted c <> (" failed - error: " <> show e))))

  unfoldable pub emit : Option ObjectReference → Event → Option Recorded
  unfolding record_event hook_text quoted
  emit ref (pulling_image image c) =
      record_event ref c normal pulling ("Pulling image " <> quoted image)
  emit ref (pulled_image image c d) =
      record_event ref c normal pulled
        ("Successfully pulled image " <> (quoted image <> (" in " <> d)))
  emit ref (failed_to_validate_oci s) =
      record_event ref "" warning inspect_failed ("Failed to validate OCI content: " <> s)
  emit ref (failed_to_pull_image image c e) =
      record_event ref c warning pull_failed
        ("Failed to pull image " <> (quoted image <> (": " <> show e)))
  emit ref (back_off_pull_image image c e) =
      record_event ref c warning back_off
        ("Back-off pulling image " <> (quoted image <> (": " <> show e)))
  emit ref (created_container c) = record_event ref c normal created ("Created container " <> c)
  emit ref (started_container c) = record_event ref c normal started ("Started container " <> c)
  emit ref (failed_to_create_container c e) =
      record_event ref c warning create_failed
        ("Failed to create container " <> (c <> (": " <> show e)))
  emit ref (failed_to_start_container c e) =
      record_event ref c warning start_failed
        ("Failed to start container " <> (c <> (": " <> show e)))
  emit ref (failed_post_start_hook c cmd e) =
      record_event ref c warning post_start_failed (hook_text c cmd e)
  emit ref (failed_pre_stop_hook c cmd e) =
      record_event ref c warning pre_stop_failed (hook_text c cmd e)
  emit ref (failed_to_resolve_image_pull_secrets e) =
      record_event ref "" warning pull_secrets_failed
        ("Failed to resolve image pull secrets: " <> show e)
