-- ===== src/Tests/Event.antt =====
-- An event on a concrete reference.
use macos_exec_kubelet.Base.{String, none, some, [], Error, external, ◌≡◌, refl}
use macos_exec_kubelet.Event.{Event, ObjectReference, back_off_pull_image, emit, quoted}
use macos_exec_kubelet.Event.Context.{get_object_ref, with_object_ref, emit_in}
use macos_exec_kubelet.Event.Emitted.{IsRecorded}
use macos_exec_kubelet.Event.Log.{log}
use macos_exec_kubelet.Event.Log.Agreement.{Agrees, emit-log}

abbrev show : Error → String
show (external s) = s
show _ = "error"

abbrev back_off : Event
back_off = back_off_pull_image "a/b" "main" (external "denied")

emit-log_example :
    (get_object_ref [] ≡ none → emit_in show [] back_off ≡ none)
    × ((ref : ObjectReference)
        → (emit_in show (with_object_ref ref []) back_off ≡ emit show (some ref) back_off)
          × IsRecorded show ref back_off
          × Agrees show ref back_off)
emit-log_example = emit-log show back_off []

back_off_text : (log show back_off).text ≡ "Back-off pulling image \"a/b\""
unfolding log quoted
back_off_text = refl
