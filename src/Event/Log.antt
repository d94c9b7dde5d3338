-- ===== src/Event/Log.antt =====
-- The recorder that only writes to the log, pkg/event/logrecorder.go.
pub mod Agreement
use macos_exec_kubelet.Base.{String, ◌<>◌, Option, none, some, List, Error}
use macos_exec_kubelet.Event.{
  Event, join_comma, quoted, pulling_image, pulled_image, failed_to_validate_oci,
  failed_to_pull_image, back_off_pull_image, created_container, started_container,
  failed_to_create_container, failed_to_start_container, failed_post_start_hook,
  failed_pre_stop_hook, failed_to_resolve_image_pull_secrets,
}

pub data Level : Type 0 where
  info warn error : Level

-- A line of the log, with the error that WithError adds to it.
pub record LogLine : Type 0 where
  pub level : Level
  pub text : String
  pub field : Option Error

abbrev line : Level → String → LogLine
line level text = record { level = level; text = text; field = none }

abbrev line_with : Error → Level → String → LogLine
line_with e level text = record { level = level; text = text; field = some e }

-- `show` is what `%v` prints of an error.
module _ (show : Error → String) where
  hook_line : String → List String → Error → LogLine
  unfolding quoted
  hook_line c cmd e = line_with e error (
      "Exec lifecycle hook (["
      <> (join_comma cmd <> ("]) for Container " <> (quoted c <> (" failed - error: " <> show e)))))

  unfoldable pub log : Event → LogLine
  unfolding quoted hook_line
  log (pulling_image image c) = line info ("Pulling image " <> quoted image)
  log (pulled_image image c d) =
      line info ("Successfully pulled image " <> (quoted image <> (" in " <> d)))
  log (failed_to_validate_oci s) = line warn ("Failed to validate OCI content: " <> s)
  log (failed_to_pull_image image c e) = line_with e warn ("Failed to pull image " <> quoted image)
  log (back_off_pull_image image c e) =
      line_with e error ("Back-off pulling image " <> quoted image)
  log (created_container c) = line info ("Created container " <> c)
  log (started_container c) = line info ("Started container " <> c)
  log (failed_to_create_container c e) = line_with e error ("Failed to create container " <> c)
  log (failed_to_start_container c e) = line_with e error ("Failed to start container " <> c)
  log (failed_post_start_hook c cmd e) = hook_line c cmd e
  log (failed_pre_stop_hook c cmd e) = hook_line c cmd e
  log (failed_to_resolve_image_pull_secrets e) =
      line_with e warn "Failed to resolve image pull secrets"
