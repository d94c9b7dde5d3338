-- ===== src/Event/Emitted.antt =====
-- What is recorded of an event.
use macos_exec_kubelet.Base.{
  String, ◌<>◌, Bool, true, false, none, some, Error, ◌==◌, string_eq, if◌then◌else◌, ◌≡◌, refl,
}
use macos_exec_kubelet.Event.{
  Event, normal, warning, ObjectReference, Recorded, container_of, record_event, emit,
  pulling_image, pulled_image, failed_to_validate_oci, failed_to_pull_image, back_off_pull_image,
  created_container, started_container, failed_to_create_container, failed_to_start_container,
  failed_post_start_hook, failed_pre_stop_hook, failed_to_resolve_image_pull_secrets,
}

-- The events of progress.
abbrev pub is_progress : Event → Bool
is_progress (pulling_image image c) = true
is_progress (pulled_image image c d) = true
is_progress (created_container c) = true
is_progress (started_container c) = true
is_progress _ = false

-- The part of the pod that an event is about.
abbrev pub pointed : ObjectReference → String → ObjectReference
pointed ref c =
    if c == "" then ref else record ref { field_path = "spec.containers{" <> (c <> "}") }

module _ (show : Error → String) where
  -- One event is recorded, about the container if there is one, normal exactly for progress.
  abbrev pub IsRecorded : ObjectReference → Event → Type 0
  IsRecorded ref e =
      (r : Recorded) × (emit show (some ref) e ≡ some r)
      × (r.reference ≡ pointed ref (container_of e))
      × (r.type ≡ (if is_progress e then normal else warning))

  recorded_lem : (ref : ObjectReference) (e : Event) → IsRecorded ref e
  unfolding emit record_event
  recorded_lem ref (pulling_image image c) = (_, refl, refl, refl)
  recorded_lem ref (pulled_image image c d) = (_, refl, refl, refl)
  recorded_lem ref (failed_to_validate_oci s) = (_, refl, refl, refl)
  recorded_lem ref (failed_to_pull_image image c e) = (_, refl, refl, refl)
  recorded_lem ref (back_off_pull_image image c e) = (_, refl, refl, refl)
  recorded_lem ref (created_container c) = (_, refl, refl, refl)
  recorded_lem ref (started_container c) = (_, refl, refl, refl)
  recorded_lem ref (failed_to_create_container c e) = (_, refl, refl, refl)
  recorded_lem ref (failed_to_start_container c e) = (_, refl, refl, refl)
  recorded_lem ref (failed_post_start_hook c cmd e) = (_, refl, refl, refl)
  recorded_lem ref (failed_pre_stop_hook c cmd e) = (_, refl, refl, refl)
  recorded_lem ref (failed_to_resolve_image_pull_secrets e) = (_, refl, refl, refl)

  silent_lem : (e : Event) → emit show none e ≡ none
  unfolding emit record_event
  silent_lem (pulling_image image c) = refl
  silent_lem (pulled_image image c d) = refl
  silent_lem (failed_to_validate_oci s) = refl
  silent_lem (failed_to_pull_image image c e) = refl
  silent_lem (back_off_pull_image image c e) = refl
  silent_lem (created_container c) = refl
  silent_lem (started_container c) = refl
  silent_lem (failed_to_create_container c e) = refl
  silent_lem (failed_to_start_container c e) = refl
  silent_lem (failed_post_start_hook c cmd e) = refl
  silent_lem (failed_pre_stop_hook c cmd e) = refl
  silent_lem (failed_to_resolve_image_pull_secrets e) = refl

  -- Whichever method of the recorder is called: without an object reference in the context nothing
  -- is recorded; with one, exactly one event is, which points to the container if the method names
  -- one, and which is a warning unless it reports progress.
  pub emit_lem :
      (e : Event) → (emit show none e ≡ none) × ((ref : ObjectReference) → IsRecorded ref e)
  emit_lem e = (silent_lem e, λ ref. recorded_lem ref e)
