-- ===== src/Volumes/Planned.antt =====
-- The mounts of a container, said of the pod alone.
use macos_exec_kubelet.Base.{
  String, false, Option, none, some, List, [], ◌∷◌, ◌≡◌, ◌≢◌, refl, sym, ◌∙◌, ◌⊎◌, inl, inr, arith,
  Option-cases, Bool-cases, if◌then◌else◌, string_eq,
}
use macos_exec_kubelet.Base.Dict.{Dict, is_some}
use macos_exec_kubelet.Api.{Pod, Container, VolumeSource, VolumeMount, VolumeProjection, ConfigMap}
use macos_exec_kubelet.Volumes.{
  FileSystem, Mount, Stop, Trace, find_volume, Mounted, skipped, mounted, stopped, Outcome, done,
  ended, prepend, write_sources, at_path, mount_projected, mount_created, mount_volume, mount_spec,
  mount_at, create_mounts, create_container_mounts,
}
use macos_exec_kubelet.Volumes.Mounts.{AllGiven, next-none, write_sources-AllGiven}

Mounted-cases :
    (r : Mounted)
    → (r ≡ skipped) ⊎ (((p : String) × (r ≡ mounted p)) ⊎ ((s : Stop) × (r ≡ stopped s)))
Mounted-cases skipped = inl refl
Mounted-cases (mounted p) = inr (inl (p, refl))
Mounted-cases (stopped s) = inr (inr (s, refl))

some_inj : {a b : List VolumeProjection} → some a ≡ some b → a ≡ b
some_inj h = cc

module _ (fs : FileSystem) (root : String) (pod : Pod) (token : String)
    (maps : Dict String ConfigMap) where
  -- The path on the host: that of the volume, or a directory of the pod's own for an empty
  -- directory and for projections; no other kind of volume is mounted.
  abbrev pub own_path : VolumeMount → VolumeSource → Option String
  own_path m v =
      if v.empty_dir
      then some (fs.join (root ∷ m.name ∷ []))
      else if is_some v.projected
      then some (fs.join (root ∷ m.name ∷ []))
      else none

  abbrev pub path_of : VolumeMount → Option VolumeSource → Option String
  path_of m none = none
  path_of m (some v) = elim v.host_path [ some path ↦ some path | none ↦ own_path m v ]

  abbrev keep : VolumeMount → Option String → List Mount → List Mount
  keep m none rest = rest
  keep m (some path) rest = mount_at fs root pod token maps m path ∷ rest

  -- One mount for each volume mount that has a volume with a path, in order.
  abbrev pub planned : List VolumeMount → List Mount
  planned [] = []
  planned (m ∷ rest) = keep m (path_of m (find_volume pod.spec.volumes m.name)) (planned rest)

  -- A volume whose projections are written has all that they name.
  abbrev pub Given : Option VolumeSource → Type 0
  Given none = Unit
  Given (some v) =
      v.host_path ≡ none
      → v.empty_dir ≡ false
      → (sources : List VolumeProjection) → v.projected ≡ some sources
      → AllGiven maps sources

  abbrev pub AllVolumesGiven : List VolumeMount → Type 0
  AllVolumesGiven [] = Unit
  AllVolumesGiven (m ∷ rest) = Given (find_volume pod.spec.volumes m.name) × AllVolumesGiven rest

  at_path-mounted :
      (path q : String) (r : Option Stop × Trace)
      → (at_path fs root pod token maps path r).0 ≡ mounted q
      → (q ≡ path) × (r.0 ≡ none)
  unfolding at_path
  at_path-mounted path q (none, t) h = (ground arith, refl)
  at_path-mounted path q (some s, t) h = cc

  at_path-skipped :
      (path : String) (r : Option Stop × Trace)
      → (at_path fs root pod token maps path r).0 ≢ skipped
  unfolding at_path
  at_path-skipped path (none, t) h = cc
  at_path-skipped path (some s, t) h = cc

  mount_spec-mounted :
      (m : VolumeMount) (o : Option VolumeSource) (q : String) (t : Trace)
      → (mount_spec fs root pod token maps m o t).0 ≡ mounted q
      → (path_of m o ≡ some q) × Given o
  unfolding mount_spec mount_volume mount_created mount_projected
  mount_spec-mounted m none q t h = cc
  mount_spec-mounted m (some v) q t h = elim (Option-cases v.host_path) [
    | inr (path, l) ↦
        let (e, _) = at_path-mounted path q _ (rw l at h) in
        (rw (l, e) refl, λ n. absurd (ground arith))
    | inl l ↦ elim (Bool-cases v.empty_dir) [
      | inl b ↦
          let (e, _) = at_path-mounted _ q _ (rw (l, b) at h) in
          (rw (l, b, e) refl, λ _ n. absurd (ground arith))
      | inr b ↦ elim (Option-cases v.projected) [
        | inl p ↦ absurd (ground arith)
        | inr (sources, p) ↦
            let (e, w) = at_path-mounted _ q _ (rw (l, b, p) at h) in
            let (_, all) = next-none _ (write_sources fs root pod token maps _ sources) w in
            (
              rw (l, b, p, e) refl,
              λ _ _ given s.
                  let same : given ≡ sources = some_inj (sym s ∙ p) in
                  rw same (write_sources-AllGiven fs root pod token maps _ sources _ all),
            )
      ]
    ]
  ]

  mount_spec-skipped :
      (m : VolumeMount) (o : Option VolumeSource) (t : Trace)
      → (mount_spec fs root pod token maps m o t).0 ≡ skipped
      → (path_of m o ≡ none) × Given o
  unfolding mount_spec mount_volume mount_created mount_projected
  mount_spec-skipped m none t h = (refl, tt)
  mount_spec-skipped m (some v) t h = elim (Option-cases v.host_path) [
    | inr (path, l) ↦ absurd (at_path-skipped path _ (rw l at h))
    | inl l ↦ elim (Bool-cases v.empty_dir) [
      | inl b ↦ absurd (at_path-skipped _ _ (rw (l, b) at h))
      | inr b ↦ elim (Option-cases v.projected) [
        | inl p ↦ (rw (l, b, p) refl, λ _ _ given s. absurd (ground arith))
        | inr (sources, p) ↦ absurd (at_path-skipped _ _ (rw (l, b, p) at h))
      ]
    ]
  ]

  prepend-done :
      (m : Mount) (r : Outcome × Trace) (mounts : List Mount)
      → (prepend m r).0 ≡ done mounts
      → (rest : List Mount) × (r.0 ≡ done rest) × (mounts ≡ m ∷ rest)
  unfolding prepend
  prepend-done m (done rest, t) mounts h = (rest, refl, ground arith)
  prepend-done m (ended s, t) mounts h = cc

  create_mounts-planned :
      (ms : List VolumeMount) (t : Trace) (mounts : List Mount)
      → (create_mounts fs root pod token maps ms t).0 ≡ done mounts
      → (mounts ≡ planned ms) × AllVolumesGiven ms
  unfolding create_mounts
  create_mounts-planned [] t mounts h = (ground arith, tt)
  create_mounts-planned (m ∷ rest) t mounts h =
      let o = find_volume pod.spec.volumes m.name in
      let u = (mount_spec fs root pod token maps m o t).1 in
      elim (Mounted-cases (mount_spec fs root pod token maps m o t).0) [
        | inl l ↦
            let (path, given) = mount_spec-skipped m o t l in
            let (same, all) = create_mounts-planned rest u mounts (rw (l, create_mounts) at h) in
            (rw path same, (given, all))
        | inr (inl (q, l)) ↦
            let (path, given) = mount_spec-mounted m o q t l in
            let (others, e, first) =
              prepend-done (mount_at fs root pod token maps m q)
                (create_mounts fs root pod token maps rest u) mounts (rw (l, create_mounts) at h) in
            let (same, all) = create_mounts-planned rest u others e in
            (rw (path, first, same) refl, (given, all))
        | inr (inr (s, l)) ↦ absurd (ended_lem (rw (l, create_mounts) at h))
      ]
    where
      ended_lem : {s : Stop} → ended s ≢ done mounts
      ended_lem e = cc

  -- Mounts that are created are exactly those that the pod's volumes ask for: one for each volume
  -- mount that names a volume with a host path, an empty directory or projections, in order. And
  -- they are created only if each config map that a mounted volume projects is given, and each
  -- item of a downward API projection has a field reference.
  pub create_container_mounts-planned :
      (container : Container) (t : Trace) (mounts : List Mount)
      → (create_container_mounts fs root pod token maps container t).0 ≡ done mounts
      → (mounts ≡ planned container.volume_mounts) × AllVolumesGiven container.volume_mounts
  unfolding create_container_mounts
  create_container_mounts-planned container t mounts h =
      create_mounts-planned container.volume_mounts t mounts h
