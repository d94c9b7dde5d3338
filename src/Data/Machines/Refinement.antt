-- ===== src/Data/Machines/Refinement.antt =====
-- VirtualMachineData as a map and the number of its keys.
use macos_exec_kubelet.Base.{
  ◌%◌, ◌^◌, ◌<◌, Bool, false, Option, none, some, List, [], ◌∷◌, pos, length, NamespacedName,
  key_eq, ◌==◌, if◌then◌else◌, ◌≡◌, refl, ap, ◌∙◌, inl, inr, Option-cases, fun_ext, arith,
}
use macos_exec_kubelet.Base.Dict
use macos_exec_kubelet.Base.Dict.{Dict, is_some}
use macos_exec_kubelet.Data.Machines.{
  Machines, no_machines, add_int32, increment_counter, decrement_counter, count, get_machine,
  update_machine, get_or_create_machine, remove_machine,
}

-- The calls, and what they return: an info or none, with the flag of GetOrCreate.
pub data Request {ℓ} (Info : Type ℓ) : Type ℓ where
  get : NamespacedName → Request Info
  update : NamespacedName → (Info → Info) → Request Info
  get_or_create : NamespacedName → Info → Request Info
  remove : NamespacedName → Request Info

abbrev pub Map {ℓ} : Type ℓ → Type ℓ
Map Info = NamespacedName → Option Info

abbrev pub Reply {ℓ} : Type ℓ → Type ℓ
Reply Info = Option Info × Bool

module _ {ℓ} {Info : Type ℓ} where
  -- The abstract map: what each call returns, and what it makes of the map.
  abbrev pub or_else : Option Info → Info → Info
  or_else none info = info
  or_else (some old) info = old

  abbrev pub apply : (Info → Info) → Option Info → Option Info
  apply f none = none
  apply f (some info) = some (f info)

  abbrev pub reply_of : Request Info → Map Info → Reply Info
  reply_of (get k) m = (m k, is_some (m k))
  reply_of (update k f) m = (apply f (m k), is_some (m k))
  reply_of (get_or_create k info) m = (some (or_else (m k) info), is_some (m k))
  reply_of (remove k) m = (none, false)

  abbrev pub next_of : Request Info → Map Info → Map Info
  next_of (get k) m j = m j
  next_of (update k f) m j = if j == k then apply f (m k) else m j
  next_of (get_or_create k info) m j = if j == k then some (or_else (m k) info) else m j
  next_of (remove k) m j = if j == k then none else m j

  abbrev pub replies_of : List (Request Info) → Map Info → List (Reply Info)
  replies_of [] m = []
  replies_of (r ∷ rs) m = reply_of r m ∷ replies_of rs (next_of r m)

  -- The code, one call at a time.
  abbrev found : Option Info → Reply Info
  found o = (o, is_some o)

  abbrev with_flag : Info × Bool → Reply Info
  with_flag (info, loaded) = (some info, loaded)

  unfoldable pub serve : Request Info → Machines Info → Reply Info × Machines Info
  serve (get k) d = (found (get_machine k d), d)
  serve (update k f) d = let (o, e) = update_machine k f d in (found o, e)
  serve (get_or_create k info) d = let (p, e) = get_or_create_machine k info d in (with_flag p, e)
  serve (remove k) d = ((none, false), remove_machine k d)

  unfoldable pub serve_all : List (Request Info) → Machines Info → List (Reply Info) × Machines Info
  serve_all [] d = ([], d)
  serve_all (r ∷ rs) d = let (a, e) = serve r d in let (rest, f) = serve_all rs e in (a ∷ rest, f)

  abbrev pub view : Machines Info → Map Info
  view d k = Dict.lookup k d.machines

  -- No key is listed twice, and the counter is the number of entries, modulo 2 ^ 32.
  pub record IsCounted (d : Machines Info) : Type ℓ where
    pub nodup : Dict.NodupKeys d.machines
    pub counted : d.counter ≡ length d.machines % 2 ^ 32

  pub no_machines-IsCounted : IsCounted no_machines
  no_machines-IsCounted = record { nodup = tt; counted = refl }

  serve-reply : (r : Request Info) (d : Machines Info) → (serve r d).0 ≡ reply_of r (view d)
  unfolding serve get_machine update_machine get_or_create_machine
  serve-reply (get k) d = refl
  serve-reply (update k f) d = ground arith
  serve-reply (get_or_create k info) d = ground arith
  serve-reply (remove k) d = refl

  serve-view :
      (r : Request Info) (d : Machines Info) (j : NamespacedName)
      → view (serve r d).1 j ≡ next_of r (view d) j
  unfolding serve update_machine get_or_create_machine remove_machine increment_counter
      decrement_counter
  serve-view (get k) d j = refl
  serve-view (update k f) d j = elim (Option-cases (Dict.lookup k d.machines)) [
    | inl l ↦ ground arith
    | inr (old, l) ↦ ground (arith, Dict.lookup-insert j k (f old) d.machines)
  ]
  serve-view (get_or_create k info) d j = ground (arith, Dict.lookup-insert j k info d.machines)
  serve-view (remove k) d j = ground (arith, Dict.lookup-erase j k d.machines)

  serve-IsCounted : (r : Request Info) (d : Machines Info) → IsCounted d → IsCounted (serve r d).1
  unfolding serve update_machine get_or_create_machine remove_machine increment_counter
      decrement_counter add_int32
  serve-IsCounted (get k) d v = v
  serve-IsCounted (update k f) d v = elim (Option-cases (Dict.lookup k d.machines)) [
    | inl l ↦ record { nodup = ground (arith, v.nodup); counted = ground (arith, v.counted) }
    | inr (old, l) ↦ record {
      nodup = ground (arith, Dict.insert-NodupKeys k (f old) d.machines v.nodup);
      counted = ground (arith, v.counted, Dict.length-insert k (f old) d.machines);
    }
  ]
  serve-IsCounted (get_or_create k info) d v = record {
    nodup = ground (arith, v.nodup, Dict.insert-NodupKeys k info d.machines v.nodup);
    counted = ground (arith, v.counted, Dict.length-insert k info d.machines);
  }
  serve-IsCounted (remove k) d v = record {
    nodup = ground (arith, v.nodup, Dict.erase-NodupKeys k d.machines v.nodup);
    counted = ground (arith, v.counted, Dict.length-erase k d.machines v.nodup);
  }

  serve_all-IsCounted :
      (rs : List (Request Info)) (d : Machines Info) → IsCounted d → IsCounted (serve_all rs d).1
  unfolding serve_all
  serve_all-IsCounted [] d v = v
  serve_all-IsCounted (r ∷ rs) d v = serve_all-IsCounted rs (serve r d).1 (serve-IsCounted r d v)

  serve_all-replies_of :
      (rs : List (Request Info)) (d : Machines Info) → (serve_all rs d).0 ≡ replies_of rs (view d)
  unfolding serve_all
  serve_all-replies_of [] d = refl
  serve_all-replies_of (r ∷ rs) d =
      rw (serve_all-replies_of rs (serve r d).1, serve-reply r d, fun_ext (serve-view r d)) refl

  -- The counter shows the number of entries as long as that fits an int32.
  count_lem :
      (d : Machines Info)
      → IsCounted d
      → length d.machines < 2 ^ 31
      → count d ≡ pos (length d.machines)
  unfolding count
  count_lem d v small = ground (arith, v.counted)

  -- Any sequence of calls on a new VirtualMachineData returns what the same calls on a map return,
  -- no key is listed twice, and Count is the number of entries, as long as that is below 2 ^ 31.
  pub serve_all_lem :
      (rs : List (Request Info))
      → let (replies, d) = serve_all rs no_machines in
        (replies ≡ replies_of rs (λ _. none))
        × Dict.NodupKeys d.machines
        × (length d.machines < 2 ^ 31 → count d ≡ pos (length d.machines))
  serve_all_lem rs =
      let v = serve_all-IsCounted rs no_machines no_machines-IsCounted in
      (
        serve_all-replies_of rs no_machines ∙ ap (replies_of rs) (fun_ext (λ k. Dict.lookup-nil k)),
        v.nodup,
        count_lem _ v,
      )
