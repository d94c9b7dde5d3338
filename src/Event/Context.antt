-- ===== src/Event/Context.antt =====
-- The object reference that a context carries, pkg/event/kuberecorder.go.
use macos_exec_kubelet.Base.{ℕ, String, Option, none, some, List, [], ◌∷◌, Error}
use macos_exec_kubelet.Event.{Event, ObjectReference, Recorded, emit}

-- The key is of a type that only this package has, so that no key of another package is equal to it.
pub data Key : Type 0 where
  object_ref_key : Key
  foreign : ℕ → Key

pub data Value : Type 0 where
  object_reference : ObjectReference → Value
  foreign_value : ℕ → Value

-- The values that context.WithValue has added, the newest first.
abbrev pub Context : Type 0
Context = List (Key × Value)

-- ctx.Value(objectRefKey)
unfoldable pub value : Context → Option Value
value [] = none
value ((object_ref_key, v) ∷ ctx) = some v
value ((foreign n, v) ∷ ctx) = value ctx

unfoldable pub with_object_ref : ObjectReference → Context → Context
with_object_ref ref ctx = (object_ref_key, object_reference ref) ∷ ctx

as_reference : Option Value → Option ObjectReference
as_reference none = none
as_reference (some (object_reference ref)) = some ref
as_reference (some (foreign_value n)) = none

unfoldable pub get_object_ref : Context → Option ObjectReference
unfolding value as_reference
get_object_ref ctx = as_reference (value ctx)

-- A method of the recorder, called with a context.
unfoldable pub emit_in : (Error → String) → Context → Event → Option Recorded
emit_in show ctx e = emit show (get_object_ref ctx) e
