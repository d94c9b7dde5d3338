-- ===== src/Tests/Stores.antt =====
-- What the node remembers, on concrete calls.
use macos_exec_kubelet.Base.{
  ℕ, none, some, List, [], ◌∷◌, ◌+◌, length, pos, NamespacedName, key_eq, string_eq, nat_eq, ◌≡◌,
  refl, ◌<◌, ◌^◌, arith, minus_one,
}
use macos_exec_kubelet.Base.Dict
use macos_exec_kubelet.Data.Machines.{
  Machines, no_machines, count, add_int32, increment_counter, store_machine, remove_machine,
}
use macos_exec_kubelet.Data.Machines.Refinement.{
  Request, get, update, get_or_create, remove, serve_all, replies_of, serve_all_lem,
}
use macos_exec_kubelet.Data.Machines.Counter.{
  creates, increments_counter, Reach, start, later, Reach-count, store_machine-remove_machine, idle,
}
use macos_exec_kubelet.Data.Containers.{ContainerInfo}
use macos_exec_kubelet.Data.Containers.Refinement as Containers

abbrev vm_key : NamespacedName
vm_key = record { namespace = "ns"; name = "vm" }

abbrev machine_calls : List (Request ℕ)
machine_calls =
    get_or_create vm_key 7 ∷ update vm_key (λ n. n + 1) ∷ get vm_key ∷ remove vm_key ∷ []

serve_all_lem_example :
    let (replies, d) = serve_all machine_calls no_machines in
    (replies ≡ replies_of machine_calls (λ _. none))
    × Dict.NodupKeys d.machines
    × (length d.machines < 2 ^ 31 → count d ≡ pos (length d.machines))
serve_all_lem_example = serve_all_lem machine_calls

abbrev one_machine : Machines ℕ
one_machine = increment_counter (store_machine vm_key 7 no_machines)

one_created : Reach (idle one_machine)
unfolding Dict.lookup
one_created = later (later start (creates vm_key 7 refl)) increments_counter

Reach-count_example : count one_machine ≡ pos (length one_machine.machines)
unfolding increment_counter Dict.insert
Reach-count_example = Reach-count one_created (omega arith)

store_machine-remove_machine_example :
    let after = store_machine vm_key 8 (remove_machine vm_key one_machine) in
    (Dict.lookup vm_key after.machines ≡ some 8)
    × (length after.machines ≡ length one_machine.machines)
    × (after.counter ≡ add_int32 minus_one one_machine.counter)
unfolding increment_counter Dict.insert Dict.lookup key_eq string_eq
store_machine-remove_machine_example =
    store_machine-remove_machine vm_key 7 8 one_machine (refl, tt) refl

-- The entry is there, and Count says that there is none.
count_after_race : count (store_machine vm_key 8 (remove_machine vm_key one_machine)) ≡ pos 0
unfolding count remove_machine increment_counter add_int32 Dict.insert Dict.lookup Dict.erase key_eq
    string_eq
count_after_race = refl

abbrev info : ContainerInfo
info = record { id = "c1"; error = none }

abbrev container_calls : List Containers.Request
container_calls =
    Containers.set vm_key "main" info
    ∷ Containers.get vm_key "main"
    ∷ Containers.get_all vm_key
    ∷ Containers.remove_all vm_key
    ∷ []

serve_all-refines_example :
    ((Containers.serve_all container_calls []).0
      ≡ Containers.replies_of container_calls (λ _. none))
    × Containers.HasContainers (Containers.serve_all container_calls []).1
serve_all-refines_example = Containers.serve_all-refines container_calls
