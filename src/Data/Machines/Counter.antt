-- ===== src/Data/Machines/Counter.antt =====
-- VirtualMachineData under concurrent calls: sync.Map and the counter change in separate atomic
-- steps, so that a call can be caught between two of them.
use macos_exec_kubelet.Base.{
  ℕ, suc, ◌+◌, ◌%◌, ◌^◌, ◌<◌, none, some, pos, length, NamespacedName, key_eq, ◌≡◌, refl, arith,
  minus_one,
}
use macos_exec_kubelet.Base.Dict
use macos_exec_kubelet.Base.Dict.{is_some}
use macos_exec_kubelet.Data.Machines.{
  Machines, no_machines, add_int32, increment_counter, decrement_counter, store_machine,
  delete_machine, count, remove_machine,
}

-- The data, with the number of calls that have yet to increment or to decrement the counter.
pub record Shared {ℓ} (Info : Type ℓ) : Type ℓ where
  pub machines_data : Machines Info
  pub increments : ℕ
  pub decrements : ℕ

module _ {ℓ} {Info : Type ℓ} where
  abbrev pub idle : Machines Info → Shared Info
  idle d = record { machines_data = d; increments = 0; decrements = 0 }

  -- The atomic steps. `stores` is the second half of an update whose key is still there.
  pub data Step : Shared Info → Shared Info → Type ℓ where
    creates :
        (k : NamespacedName) (info : Info) {s : Shared Info}
        → Dict.lookup k s.machines_data.machines ≡ none
        → Step s (record s {
          machines_data = store_machine k info s.machines_data;
          increments = suc s.increments;
        })
    increments_counter :
        {d : Machines Info} {i j : ℕ}
        → Step
            (record { machines_data = d; increments = suc i; decrements = j })
            (record { machines_data = increment_counter d; increments = i; decrements = j })
    deletes :
        (k : NamespacedName) (info : Info) {s : Shared Info}
        → Dict.lookup k s.machines_data.machines ≡ some info
        → Step s (record s {
          machines_data = delete_machine k s.machines_data;
          decrements = suc s.decrements;
        })
    decrements_counter :
        {d : Machines Info} {i j : ℕ}
        → Step
            (record { machines_data = d; increments = i; decrements = suc j })
            (record { machines_data = decrement_counter d; increments = i; decrements = j })
    stores :
        (k : NamespacedName) (old info : Info) {s : Shared Info}
        → Dict.lookup k s.machines_data.machines ≡ some old
        → Step s (record s { machines_data = store_machine k info s.machines_data })

  pub data Reach : Shared Info → Type ℓ where
    start : Reach (idle no_machines)
    later : {s t : Shared Info} → Reach s → Step s t → Reach t

  -- What the counter will have been told about is what the map holds.
  record IsBalanced (s : Shared Info) : Type ℓ where
    nodup : Dict.NodupKeys s.machines_data.machines
    balanced :
        (s.machines_data.counter + s.increments) % 2 ^ 32
        ≡ (length s.machines_data.machines + s.decrements) % 2 ^ 32
    in_word : s.machines_data.counter < 2 ^ 32

  Step-IsBalanced : {s t : Shared Info} → Step s t → IsBalanced s → IsBalanced t
  unfolding increment_counter decrement_counter add_int32
  Step-IsBalanced {s} (creates k info l) v = record {
    nodup = Dict.insert-NodupKeys k info s.machines_data.machines v.nodup;
    balanced = ground (arith, v.balanced, Dict.length-insert k info s.machines_data.machines);
    in_word = v.in_word;
  }
  Step-IsBalanced increments_counter v = record {
    nodup = v.nodup;
    balanced = ground (arith, v.balanced);
    in_word = ground arith;
  }
  Step-IsBalanced {s} (deletes k info l) v = record {
    nodup = Dict.erase-NodupKeys k s.machines_data.machines v.nodup;
    balanced = ground (arith, v.balanced, Dict.length-erase k s.machines_data.machines v.nodup);
    in_word = v.in_word;
  }
  Step-IsBalanced decrements_counter v = record {
    nodup = v.nodup;
    balanced = ground (arith, v.balanced);
    in_word = ground arith;
  }
  Step-IsBalanced {s} (stores k old info l) v = record {
    nodup = Dict.insert-NodupKeys k info s.machines_data.machines v.nodup;
    balanced = ground (arith, v.balanced, Dict.length-insert k info s.machines_data.machines);
    in_word = v.in_word;
  }

  Reach-IsBalanced : {s : Shared Info} → Reach s → IsBalanced s
  Reach-IsBalanced start = record { nodup = tt; balanced = refl; in_word = ground arith }
  Reach-IsBalanced (later r st) = Step-IsBalanced st (Reach-IsBalanced r)

  -- However creations, removals and updates interleave, as long as no update stores a key that was
  -- removed after it was loaded: once no call is under way, Count is the number of entries, if
  -- that is below 2 ^ 31.
  pub Reach-count :
      {d : Machines Info}
      → Reach (idle d)
      → length d.machines < 2 ^ 31
      → count d ≡ pos (length d.machines)
  unfolding count
  Reach-count {d} r small = let v = Reach-IsBalanced r in ground (arith, v.balanced, v.in_word)

  -- If a removal comes between the load and the store of an update, the removed entry is there
  -- again, and the counter is one lower than before, although the number of entries is the same,
  -- if the map lists no key twice.
  pub store_machine-remove_machine :
      (k : NamespacedName) (old info : Info) (d : Machines Info)
      → Dict.NodupKeys d.machines
      → Dict.lookup k d.machines ≡ some old
      → let after = store_machine k info (remove_machine k d) in
        (Dict.lookup k after.machines ≡ some info)
        × (length after.machines ≡ length d.machines)
        × (after.counter ≡ add_int32 minus_one d.counter)
  unfolding remove_machine decrement_counter
  store_machine-remove_machine k old info d u l = ground (
    arith,
    u,
    l,
    Dict.lookup-insert_self k info (Dict.erase k d.machines),
    Dict.length-insert k info (Dict.erase k d.machines),
    Dict.length-erase k d.machines u,
    Dict.lookup-erase_self k d.machines,
  )
