-- ===== src/Event/Log/Agreement.antt =====
-- Both recorders tell the same of an event.
use macos_exec_kubelet.Base.{
  String, ◌<>◌, Bool, true, false, Option, none, some, Error, string_eq, if◌then◌else◌, ◌≡◌, refl,
  sym,
}
use text.Mathlib.TextLemmas.{append_assoc}
use macos_exec_kubelet.Event.{
  Event, EventType, normal, warning, ObjectReference, Recorded, record_event, emit, pulling_image,
  pulled_image, failed_to_validate_oci, failed_to_pull_image, back_off_pull_image,
  created_container, started_container, failed_to_create_container, failed_to_start_container,
  failed_post_start_hook, failed_pre_stop_hook, failed_to_resolve_image_pull_secrets,
}
use macos_exec_kubelet.Event.Emitted.{IsRecorded, emit_lem}
use macos_exec_kubelet.Event.Context.{Context, get_object_ref, with_object_ref, value, emit_in}
use macos_exec_kubelet.Event.Log.{Level, info, warn, error, LogLine, log}

-- The text of these has its error in it.
abbrev pub is_hook : Event → Bool
is_hook (failed_post_start_hook c cmd e) = true
is_hook (failed_pre_stop_hook c cmd e) = true
is_hook _ = false

-- The error that a method is called with.
abbrev pub error_of : Event → Option Error
error_of (failed_to_pull_image image c e) = some e
error_of (back_off_pull_image image c e) = some e
error_of (failed_to_create_container c e) = some e
error_of (failed_to_start_container c e) = some e
error_of (failed_post_start_hook c cmd e) = some e
error_of (failed_pre_stop_hook c cmd e) = some e
error_of (failed_to_resolve_image_pull_secrets e) = some e
error_of _ = none

abbrev pub type_of_level : Level → EventType
type_of_level info = normal
type_of_level warn = warning
type_of_level error = warning

module _ (show : Error → String) where
  -- A line with its error behind it.
  abbrev pub with_field : String → Option Error → String
  with_field text none = text
  with_field text (some e) = text <> (": " <> show e)

  abbrev pub whole : Event → LogLine → String
  whole e l = if is_hook e then l.text else with_field l.text l.field

  -- The event that is recorded is that of the line.
  abbrev pub Agrees : ObjectReference → Event → Type 0
  Agrees ref e =
      (r : Recorded) × (emit show (some ref) e ≡ some r)
      × (r.text ≡ whole e (log show e))
      × (r.type ≡ type_of_level (log show e).level)
      × ((log show e).field ≡ error_of e)

  agrees_lem : (ref : ObjectReference) (e : Event) → Agrees ref e
  unfolding emit record_event log
  agrees_lem ref (pulling_image image c) = (_, refl, refl, refl, refl)
  agrees_lem ref (pulled_image image c d) = (_, refl, refl, refl, refl)
  agrees_lem ref (failed_to_validate_oci s) = (_, refl, refl, refl, refl)
  agrees_lem ref (failed_to_pull_image image c e) =
      (_, refl, sym (append_assoc "Failed to pull image " _ _), refl, refl)
  agrees_lem ref (back_off_pull_image image c e) =
      (_, refl, sym (append_assoc "Back-off pulling image " _ _), refl, refl)
  agrees_lem ref (created_container c) = (_, refl, refl, refl, refl)
  agrees_lem ref (started_container c) = (_, refl, refl, refl, refl)
  agrees_lem ref (failed_to_create_container c e) =
      (_, refl, sym (append_assoc "Failed to create container " c _), refl, refl)
  agrees_lem ref (failed_to_start_container c e) =
      (_, refl, sym (append_assoc "Failed to start container " c _), refl, refl)
  agrees_lem ref (failed_post_start_hook c cmd e) = (_, refl, refl, refl, refl)
  agrees_lem ref (failed_pre_stop_hook c cmd e) = (_, refl, refl, refl, refl)
  agrees_lem ref (failed_to_resolve_image_pull_secrets e) =
      (_, refl, append_assoc "Failed to resolve image pull secrets" ": " (show e), refl, refl)

  -- Whichever method of the recorder of Kubernetes is called: in a context without an object
  -- reference nothing is recorded; in one that WithObjectRef has made, whatever it was made from,
  -- exactly one event is, about the reference that was added, which points to the container if the
  -- method names one, and which is a warning unless it reports progress. The recorder of the log
  -- adds the error that the method is given, if any, as a field of its line. Its text is that of
  -- the event, which has the error behind it, except that the two lifecycle hooks have the error in
  -- the text of both. The event is normal exactly if the level of the line is info.
  pub emit-log :
      (e : Event) (ctx : Context)
      → (get_object_ref ctx ≡ none → emit_in show ctx e ≡ none)
        × ((ref : ObjectReference)
            → (emit_in show (with_object_ref ref ctx) e ≡ emit show (some ref) e)
              × IsRecorded show ref e
              × Agrees ref e)
  unfolding emit_in get_object_ref with_object_ref value
  emit-log e ctx =
      (λ l. rw l (emit_lem show e).0, λ ref. (refl, (emit_lem show e).1 ref, agrees_lem ref e))
