-- ===== src/Data/Machines.antt =====
-- internal/data/vm/vmdata.go. The operations do not look into a VirtualMachineInfo, so that its type
-- is a parameter.
pub mod Refinement
pub mod Counter
use macos_exec_kubelet.Base.{
  ℕ, ◌+◌, ◌%◌, ◌^◌, Bool, true, false, Option, none, some, [], ℤ, pos, minus_one, from_word,
  to_word, NamespacedName, key_eq, if◌then◌else◌,
}
use macos_exec_kubelet.Base.Dict
use macos_exec_kubelet.Base.Dict.{Dict, is_some}

-- VirtualMachineData. The counter is the pattern of an int32.
pub record Machines {ℓ} (Info : Type ℓ) : Type ℓ where
  pub machines : Dict NamespacedName Info
  pub counter : ℕ

-- atomic.AddInt32
unfoldable pub add_int32 : ℤ → ℕ → ℕ
add_int32 z n = (n + to_word 32 z) % 2 ^ 32

module _ {ℓ} {Info : Type ℓ} where
  abbrev pub no_machines : Machines Info
  no_machines = record { machines = []; counter = 0 }

  unfoldable pub increment_counter : Machines Info → Machines Info
  unfolding add_int32
  increment_counter d = record d { counter = add_int32 (pos 1) d.counter }

  unfoldable pub decrement_counter : Machines Info → Machines Info
  unfolding add_int32
  decrement_counter d = record d { counter = add_int32 minus_one d.counter }

  -- Count
  unfoldable pub count : Machines Info → ℤ
  count d = from_word 32 d.counter

  unfoldable pub get_machine : NamespacedName → Machines Info → Option Info
  get_machine k d = Dict.lookup k d.machines

  -- Load, then Store of what the function makes of the value.
  abbrev pub store_machine : NamespacedName → Info → Machines Info → Machines Info
  store_machine k info d = record d { machines = Dict.insert k info d.machines }

  update_found :
      NamespacedName → (Info → Info) → Option Info → Machines Info → Option Info × Machines Info
  update_found k f none d = (none, d)
  update_found k f (some info) d = (some (f info), store_machine k (f info) d)

  unfoldable pub update_machine :
      NamespacedName → (Info → Info) → Machines Info → Option Info × Machines Info
  unfolding update_found
  update_machine k f d = update_found k f (Dict.lookup k d.machines) d

  -- LoadOrStore; the counter goes up if nothing was loaded.
  create_unless :
      NamespacedName → Info → Option Info → Machines Info → (Info × Bool) × Machines Info
  unfolding increment_counter
  create_unless k info (some old) d = ((old, true), d)
  create_unless k info none d = ((info, false), increment_counter (store_machine k info d))

  unfoldable pub get_or_create_machine :
      NamespacedName → Info → Machines Info → (Info × Bool) × Machines Info
  unfolding create_unless
  get_or_create_machine k info d = create_unless k info (Dict.lookup k d.machines) d

  -- LoadAndDelete; the counter goes down if something was loaded.
  abbrev pub delete_machine : NamespacedName → Machines Info → Machines Info
  delete_machine k d = record d { machines = Dict.erase k d.machines }

  unfoldable pub remove_machine : NamespacedName → Machines Info → Machines Info
  unfolding decrement_counter
  remove_machine k d =
      if is_some (Dict.lookup k d.machines) then decrement_counter (delete_machine k d) else d

  -- ListVirtualMachines
  abbrev pub list_machines : Machines Info → Dict NamespacedName Info
  list_machines d = d.machines
