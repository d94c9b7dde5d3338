-- ===== src/Provider/PullSecrets/References.antt =====
-- Which secrets are fetched, and in which order.
use macos_exec_kubelet.Base.{
  String, true, false, List, [], ◌∷◌, ◌++◌, ◌==◌, string_eq, contains, if◌then◌else◌, ◌≡◌, refl,
  ◌∙◌, sym, ap, arith, Bool-cases, inl, inr,
}
use mathlib.Core.List.{append_assoc, append-nil}
use macos_exec_kubelet.Provider.PullSecrets.{Refs, add_refs, secret_refs}

-- A list without a name, and without the names of a list.
pub remove : String → List String → List String
remove x [] = []
remove x (y ∷ ys) = let rest = remove x ys in if x == y then rest else y ∷ rest

pub remove_all : List String → List String → List String
remove_all seen [] = []
remove_all seen (y ∷ ys) =
    let rest = remove_all seen ys in if contains seen y then rest else y ∷ rest

-- Each name once, where it occurs first.
pub first_occurrences : List String → List String
first_occurrences [] = []
first_occurrences (x ∷ xs) = x ∷ remove x (first_occurrences xs)

abbrev pub Distinct : List String → Type 0
Distinct [] = Unit
Distinct (x ∷ xs) = (contains xs x ≡ false) × Distinct xs

remove_all-remove_seen :
    (seen : List String) (x : String) (l : List String)
    → contains seen x ≡ true
    → remove_all seen (remove x l) ≡ remove_all seen l
unfolding remove remove_all
remove_all-remove_seen seen x [] h = refl
remove_all-remove_seen seen x (y ∷ l) h = ground (arith, remove_all-remove_seen seen x l h)

remove_all-cons :
    (seen : List String) (x : String) (l : List String)
    → remove_all (x ∷ seen) l ≡ remove_all seen (remove x l)
unfolding remove remove_all
remove_all-cons seen x [] = refl
remove_all-cons seen x (y ∷ l) = ground (arith, remove_all-cons seen x l)

remove_all-nil : (l : List String) → remove_all [] l ≡ l
unfolding remove_all
remove_all-nil [] = refl
remove_all-nil (y ∷ l) = ap (λ (m : List String). y ∷ m) (remove_all-nil l)

-- Both loops at once.
add_refs-append : (l m : List String) (r : Refs) → add_refs m (add_refs l r) ≡ add_refs (l ++ m) r
unfolding add_refs
add_refs-append [] m r = refl
add_refs-append (x ∷ l) m r = add_refs-append l m _

kept-add_refs :
    (l : List String) (r : Refs)
    → (add_refs l r).kept ≡ r.kept ++ remove_all r.seen (first_occurrences l)
unfolding add_refs remove_all first_occurrences
kept-add_refs [] r = sym (append-nil _)
kept-add_refs (x ∷ l) r = elim (Bool-cases (contains r.seen x)) [
  | inl old ↦
      rw (old, add_refs)
        (kept-add_refs l r
          ∙ ap (λ (m : List String). r.kept ++ m) (sym (remove_all-remove_seen r.seen x _ old)))
  | inr new ↦
      rw (new, add_refs)
        (kept-add_refs l (record { seen = x ∷ r.seen; kept = r.kept ++ x ∷ [] })
          ∙ rw (remove_all-cons r.seen x (first_occurrences l), append_assoc))
]

contains-remove_self : (x : String) (l : List String) → contains (remove x l) x ≡ false
unfolding remove
contains-remove_self x [] = refl
contains-remove_self x (y ∷ l) = ground (arith, contains-remove_self x l)

contains-remove :
    (x y : String) (l : List String) → contains l y ≡ false → contains (remove x l) y ≡ false
unfolding remove
contains-remove x y [] h = refl
contains-remove x y (z ∷ l) h = ground (arith, contains-remove x y l)

remove-Distinct : (x : String) (l : List String) → Distinct l → Distinct (remove x l)
unfolding remove
remove-Distinct x [] d = tt
remove-Distinct x (y ∷ l) (n, d) = ground (arith, remove-Distinct x l d, contains-remove x y l n)

first_occurrences-Distinct : (l : List String) → Distinct (first_occurrences l)
unfolding first_occurrences
first_occurrences-Distinct [] = tt
first_occurrences-Distinct (x ∷ l) =
    (contains-remove_self x _, remove-Distinct x _ (first_occurrences-Distinct l))

refs_lem :
    (of_pod of_account : List String)
    → secret_refs of_pod of_account ≡ first_occurrences (of_pod ++ of_account)
unfolding secret_refs
refs_lem of_pod of_account =
    ap (λ (r : Refs). r.kept) (add_refs-append of_pod of_account _)
    ∙ kept-add_refs (of_pod ++ of_account) _
    ∙ remove_all-nil _

-- The secrets that are fetched are those of the pod and then those of its service account, each
-- once, where it is named first.
pub secret_refs-first_occurrences :
    (of_pod of_account : List String)
    → (secret_refs of_pod of_account ≡ first_occurrences (of_pod ++ of_account))
      × Distinct (secret_refs of_pod of_account)
secret_refs-first_occurrences of_pod of_account =
    let e = refs_lem of_pod of_account in (e, rw e (first_occurrences-Distinct _))
