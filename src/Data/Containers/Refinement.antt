-- ===== src/Data/Containers/Refinement.antt =====
-- ContainerData as a map of pods to maps of containers, without order or representation.
use macos_exec_kubelet.Base.{
  String, Bool, true, false, Option, none, some, List, [], ◌∷◌, NamespacedName, key_eq, string_eq,
  ◌==◌, if◌then◌else◌, ◌≡◌, ◌≢◌, refl, sym, ap, ◌∙◌, fun_ext, inl, inr, arith, Option-cases,
}
use macos_exec_kubelet.Base.Dict
use macos_exec_kubelet.Base.Dict.{Dict, is_some}
use macos_exec_kubelet.Data.Containers.{
  ContainerInfo, Containers, inner, get_container_info, set_container_info,
  get_or_create_container_info, get_all_container_info, remove_all_container_info,
}

pub data Request : Type 0 where
  get : NamespacedName → String → Request
  get_or_create set : NamespacedName → String → ContainerInfo → Request
  get_all remove_all : NamespacedName → Request

abbrev pub Infos : Type 0
Infos = String → Option ContainerInfo

abbrev pub Map : Type 0
Map = NamespacedName → Option Infos

-- One info with a flag, all infos of a pod, or nothing.
pub data Reply : Type 0 where
  one : Option ContainerInfo → Bool → Reply
  all : Option Infos → Reply
  nothing : Reply

-- The abstract map: what each call returns, and what it makes of the map.
abbrev pub infos_of : Option Infos → Infos
infos_of none c = none
infos_of (some infos) c = infos c

abbrev pub or_else : Option ContainerInfo → ContainerInfo → ContainerInfo
or_else none info = info
or_else (some old) info = old

abbrev pub reply_of : Request → Map → Reply
reply_of (get k c) m = one (infos_of (m k) c) (is_some (infos_of (m k) c))
reply_of (get_or_create k c info) m =
    one (some (or_else (infos_of (m k) c) info)) (is_some (infos_of (m k) c))
reply_of (set k c info) m = nothing
reply_of (get_all k) m = all (m k)
reply_of (remove_all k) m = all (m k)

abbrev pub put : NamespacedName → String → ContainerInfo → Map → Map
put k c info m j =
    if j == k then some (λ (a : String). if a == c then some info else infos_of (m k) a) else m j

abbrev pub next_of : Request → Map → Map
next_of (get k c) m = m
next_of (get_or_create k c info) m = if is_some (infos_of (m k) c) then m else put k c info m
next_of (set k c info) m = put k c info m
next_of (get_all k) m = m
next_of (remove_all k) m = λ j. if j == k then none else m j

abbrev pub replies_of : List Request → Map → List Reply
replies_of [] m = []
replies_of (r ∷ rs) m = reply_of r m ∷ replies_of rs (next_of r m)

-- The code, one call at a time.
abbrev view_infos : Option (Dict String ContainerInfo) → Option Infos
view_infos none = none
view_infos (some infos) = some (λ (c : String). Dict.lookup c infos)

abbrev view : Containers → Map
view d k = view_infos (Dict.lookup k d)

unfoldable pub serve : Request → Containers → Reply × Containers
serve (get k c) d = let o = get_container_info k c d in (one o (is_some o), d)
serve (get_or_create k c info) d =
    let (p, e) = get_or_create_container_info k c info d in (one (some p.0) p.1, e)
serve (set k c info) d = (nothing, set_container_info k c info d)
serve (get_all k) d = (all (view_infos (get_all_container_info k d)), d)
serve (remove_all k) d = let (o, e) = remove_all_container_info k d in (all (view_infos o), e)

unfoldable pub serve_all : List Request → Containers → List Reply × Containers
serve_all [] d = ([], d)
serve_all (r ∷ rs) d = let (a, e) = serve r d in let (rest, f) = serve_all rs e in (a ∷ rest, f)

-- A pod is known only with at least one container.
abbrev pub HasContainers : Containers → Type 0
HasContainers d =
    (k : NamespacedName) (infos : Dict String ContainerInfo)
    → Dict.lookup k d ≡ some infos
    → infos ≢ []

lookup-inner :
    (c : String) (o : Option (Dict String ContainerInfo))
    → Dict.lookup c (inner o) ≡ infos_of (view_infos o) c
lookup-inner c none = Dict.lookup-nil c
lookup-inner c (some infos) = refl

view_infos-if :
    (b : Bool) (new : Dict String ContainerInfo) (o : Option (Dict String ContainerInfo))
    → view_infos (if b then some new else o)
      ≡ (if b then some (λ (a : String). Dict.lookup a new) else view_infos o)
view_infos-if true new o = refl
view_infos-if false new o = refl

view_infos-if_none :
    (b : Bool) (o : Option (Dict String ContainerInfo))
    → view_infos (if b then none else o) ≡ (if b then none else view_infos o)
view_infos-if_none true o = refl
view_infos-if_none false o = refl

set_container_info-put :
    (k : NamespacedName) (c : String) (info : ContainerInfo) (d : Containers)
    → view (set_container_info k c info d) ≡ put k c info (view d)
unfolding set_container_info
set_container_info-put k c info d =
    let old = Dict.lookup k d in
    let new = Dict.insert c info (inner old) in
    let same : ◌≡◌ {A = Infos} (λ a. Dict.lookup a new)
        (λ a. if a == c then some info else infos_of (view_infos old) a) =
      fun_ext (λ a.
        Dict.lookup-insert a c info (inner old)
        ∙ ap (λ (o : Option ContainerInfo). if a == c then some info else o)
            (lookup-inner a old)) in
    fun_ext (λ j.
      ap view_infos (Dict.lookup-insert j k new d)
      ∙ view_infos-if (j == k) new (Dict.lookup j d)
      ∙ ap (λ (f : Infos). if j == k then some f else view d j) same)

serve-reply : (r : Request) (d : Containers) → (serve r d).0 ≡ reply_of r (view d)
unfolding serve get_container_info get_or_create_container_info get_all_container_info
    remove_all_container_info
serve-reply (get k c) d = ground arith
serve-reply (get_or_create k c info) d = ground (arith, lookup-inner c (Dict.lookup k d))
serve-reply (set k c info) d = refl
serve-reply (get_all k) d = refl
serve-reply (remove_all k) d = refl

serve-view : (r : Request) (d : Containers) → view (serve r d).1 ≡ next_of r (view d)
unfolding serve get_or_create_container_info remove_all_container_info
serve-view (get k c) d = refl
serve-view (get_or_create k c info) d =
    elim (Option-cases (Dict.lookup c (inner (Dict.lookup k d)))) [
      | inl l ↦
          rw (l, sym (lookup-inner c (Dict.lookup k d)), l) (set_container_info-put k c info d)
      | inr (old, l) ↦ rw (l, sym (lookup-inner c (Dict.lookup k d)), l) refl
    ]
serve-view (set k c info) d = set_container_info-put k c info d
serve-view (get_all k) d = refl
serve-view (remove_all k) d =
    fun_ext
      (λ j. ap view_infos (Dict.lookup-erase j k d) ∙ view_infos-if_none (j == k) (Dict.lookup j d))

insert_nonempty :
    (c : String) (info : ContainerInfo) (infos : Dict String ContainerInfo)
    → Dict.insert c info infos ≢ []
insert_nonempty c info infos e =
    ground (arith, Dict.lookup-insert_self c info infos, e, Dict.lookup-nil {V = ContainerInfo} c)

set_container_info-HasContainers :
    (k : NamespacedName) (c : String) (info : ContainerInfo) (d : Containers)
    → HasContainers d
    → HasContainers (set_container_info k c info d)
unfolding set_container_info
set_container_info-HasContainers k c info d v j infos l =
    elim (Dict.lookup-insert-some j k (Dict.insert c info (inner (Dict.lookup k d))) d l) [
      | inl (same, new) ↦ rw new (insert_nonempty c info (inner (Dict.lookup k d)))
      | inr (other, old) ↦ v j infos old
    ]

serve-HasContainers : (r : Request) (d : Containers) → HasContainers d → HasContainers (serve r d).1
unfolding serve get_or_create_container_info remove_all_container_info
serve-HasContainers (get k c) d v = v
serve-HasContainers (get_or_create k c info) d v =
    elim (Option-cases (Dict.lookup c (inner (Dict.lookup k d)))) [
      | inl l ↦ rw l (set_container_info-HasContainers k c info d v)
      | inr (old, l) ↦ rw l v
    ]
serve-HasContainers (set k c info) d v = set_container_info-HasContainers k c info d v
serve-HasContainers (get_all k) d v = v
serve-HasContainers (remove_all k) d v = λ j infos l. v j infos (Dict.lookup-erase-some j k d l).1

serve_all-replies_of :
    (rs : List Request) (d : Containers) → (serve_all rs d).0 ≡ replies_of rs (view d)
unfolding serve_all
serve_all-replies_of [] d = refl
serve_all-replies_of (r ∷ rs) d =
    rw (serve_all-replies_of rs (serve r d).1, serve-reply r d, serve-view r d) refl

serve_all-HasContainers :
    (rs : List Request) (d : Containers) → HasContainers d → HasContainers (serve_all rs d).1
unfolding serve_all
serve_all-HasContainers [] d v = v
serve_all-HasContainers (r ∷ rs) d v =
    serve_all-HasContainers rs (serve r d).1 (serve-HasContainers r d v)

-- Any sequence of calls on a new ContainerData returns what the same calls on a map of pods to maps
-- of containers return, and a pod is known only with at least one container.
pub serve_all-refines :
    (rs : List Request)
    → ((serve_all rs []).0 ≡ replies_of rs (λ _. none)) × HasContainers (serve_all rs []).1
serve_all-refines rs = (
  serve_all-replies_of rs []
      ∙ ap (replies_of rs) (fun_ext (λ k. ap view_infos (Dict.lookup-nil k))),
  serve_all-HasContainers rs []
      (λ k infos l. absurd (ground (arith, Dict.lookup-nil {V = Dict String ContainerInfo} k))),
)
