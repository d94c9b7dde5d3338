-- ===== src/Client/Overlap/Progress.antt =====
-- No call of the process client waits for ever on another one.
use macos_exec_kubelet.Base.{
  ℕ, zero, suc, ◌≤◌, String, Option, none, some, [], ◌∷◌, NamespacedName, key_eq, nat_eq, ==_refl,
  ◌≡◌, ◌⊎◌, ◌∙◌, ap, true, false, inl, inr, get_elem?, refl, arith, length,
}
use macos_exec_kubelet.Base.Dict
use macos_exec_kubelet.Base.Dict.{Dict}
use macos_exec_kubelet.Client.Calls.{Os, Credential, cancel, is_live}
use macos_exec_kubelet.Client.Process.{ProcessClient, ProcessState, note}
use macos_exec_kubelet.Client.Exit.{reap-found, reap-Exited}
use macos_exec_kubelet.Client.Overlap.{
  Pending, creating, deleting, System, IsFree, Step, ends_create, ends_delete, kills, ends, Reach,
}
use macos_exec_kubelet.Client.Overlap.Sequential.{idle}
use macos_exec_kubelet.Client.Overlap.Serial.{IsSafe, Step-IsSafe, Reach-IsSafe}

-- No call may begin.
abbrev pub IsNone : NamespacedName → Dict ℕ Pending → Type 0
IsNone k calls = ⊥

-- A process exits only if the predicate tells so, or if its context is cancelled, which kills it: it
-- ignores SIGTERM. No other step is restricted.
abbrev pub IsForced : (os : Os) (Before : ℕ → Type 0) {s t : System} → Step os IsNone s t → Type 0
IsForced os Before {s} (ends h e) =
    Before h
    ⊎ ((p : ProcessState) × (get_elem? s.client.states h ≡ some p)
        × (is_live p.context s.client.calls ≡ false))
IsForced os Before _ = Unit

-- A sequence of such steps from one state to another, in which no call begins.
pub data Steps (os : Os) (Before : ℕ → Type 0) : System → System → Type 0 where
  stay : {s : System} → Steps os Before s s
  go :
      {s t u : System} (st : Step os IsNone s t)
      → IsForced os Before st
      → Steps os Before t u
      → Steps os Before s u

-- A call that is pending in the state has killed the process already.
abbrev pub KilledIn : System → ℕ → Type 0
KilledIn s h = (i : ℕ) × (k : NamespacedName) × (Dict.lookup i s.pending ≡ some (deleting k h true))

erase-insert :
    (i : ℕ) (p : Pending) (calls : Dict ℕ Pending)
    → Dict.erase i (Dict.insert i p calls) ≡ Dict.erase i calls
unfolding Dict.erase Dict.insert
erase-insert i p [] = rw (==_refl i) refl
erase-insert i p ((j, q) ∷ calls) = ground (arith, erase-insert i p calls, ==_refl i)

length-erase_le : (i : ℕ) (calls : Dict ℕ Pending) → length (Dict.erase i calls) ≤ length calls
unfolding Dict.erase
length-erase_le i [] = omega arith
length-erase_le i ((j, p) ∷ calls) = ground (arith, length-erase_le i calls)

length-erase_own :
    (i : ℕ) (p : Pending) (calls : Dict ℕ Pending) (n : ℕ)
    → length ((i, p) ∷ calls) ≤ suc n
    → length (Dict.erase i ((i, p) ∷ calls)) ≤ n
unfolding Dict.erase
length-erase_own i p calls n small =
    rw (==_refl i) (let le = length-erase_le i calls in omega arith)

module _ (os : Os) (Before : ℕ → Type 0) where
  -- From the state some steps lead to one where the call `i` is no longer pending, and the others
  -- are as they were.
  abbrev Ends : System → ℕ → Type 0
  Ends s i =
      (d : ProcessClient) × IsSafe (record { client = d; pending = Dict.erase i s.pending })
      × ((u : System)
          → Steps os Before (record { client = d; pending = Dict.erase i s.pending }) u
          → Steps os Before s u)

  killed-Ends :
      (s : System) (i : ℕ) (k : NamespacedName) (h : ℕ) (t : ProcessState)
      → IsSafe s
      → Dict.lookup i s.pending ≡ some (deleting k h true)
      → get_elem? s.client.states h ≡ some t
      → IsForced os Before {s = s} (ends h none)
      → Ends s i
  killed-Ends s i k h t v l p forced =
      let (t', p', _) = reap-found h none s.client h {s = t} p in
      let gone = reap-Exited h none s.client t' p' in
      (
        _,
        Step-IsSafe os (ends_delete i k h true t' l p' gone) (Step-IsSafe os (ends h none) v),
        λ u r. go (ends h none) forced (go (ends_delete i k h true t' l p' gone) tt r),
      )

  -- The process ignores SIGTERM, and the call kills it.
  waiting-Ends :
      (s : System) (i : ℕ) (k : NamespacedName) (h : ℕ) (t : ProcessState)
      → IsSafe s
      → Dict.lookup i s.pending ≡ some (deleting k h false)
      → get_elem? s.client.states h ≡ some t
      → Ends s i
  waiting-Ends s i k h t v l p =
      let after : System = record {
        client = note (cancel t.context) s.client;
        pending = Dict.insert i (deleting k h true) s.pending;
      } in
      let dead : is_live t.context after.client.calls ≡ false = rw (==_refl t.context) refl in
      let (d, v', steps) =
        killed-Ends after i k h t (Step-IsSafe os (kills i k h t l p) v)
          (Dict.lookup-insert_self i _ s.pending) p (inr (t, p, dead)) in
      let same = erase-insert i (deleting k h true) s.pending in
      (d, rw same at v', λ u r. go (kills i k h t l p) tt (steps u (rw same r)))

  call-Ends :
      (s : System) (i : ℕ) (p : Pending)
      → IsSafe s
      → Dict.lookup i s.pending ≡ some p
      → ((k : NamespacedName) (h : ℕ) → p ≡ deleting k h true → Before h)
      → Ends s i
  call-Ends s i (creating pod container) v l before = (
    _,
    Step-IsSafe os (ends_create i pod container l) v,
    λ u r. go (ends_create i pod container l) tt r,
  )
  call-Ends s i (deleting k h true) v l before =
      let (t, p, _) = v.sound.described k h (v.agrees i _ l) in
      killed-Ends s i k h t v l p (inl (before k h refl))
  call-Ends s i (deleting k h false) v l before =
      let (t, p, _) = v.sound.described k h (v.agrees i _ l) in waiting-Ends s i k h t v l p

  all-Ends :
      (n : ℕ) (c : ProcessClient) (calls : Dict ℕ Pending)
      → length calls ≤ n
      → IsSafe (record { client = c; pending = calls })
      → ((h : ℕ) → KilledIn (record { client = c; pending = calls }) h → Before h)
      → (d : ProcessClient) × Steps os Before (record { client = c; pending = calls }) (idle d)
  all-Ends n c [] small v before = (c, stay)
  all-Ends zero c ((i, p) ∷ calls) small v before = absurd (omega arith)
  all-Ends (suc n) c ((i, p) ∷ calls) small v before =
      let found : Dict.lookup i ((i, p) ∷ calls) ≡ some p =
        rw (Dict.lookup-cons i i p calls, ==_refl i) refl in
      let (d, v', steps) =
        call-Ends (record { client = c; pending = (i, p) ∷ calls }) i p v found
          (λ k h e. before h (i, k, found ∙ ap some e)) in
      let (e, r) =
        all-Ends n d (Dict.erase i ((i, p) ∷ calls)) (length-erase_own i p calls n small) v'
          (λ h (j, k, l). before h (j, k, (Dict.lookup-erase-some j i ((i, p) ∷ calls) l).1)) in
      (e, steps (idle e) r)

module _ (os : Os) where
  -- Wherever calls have come to that overlap, but never two about one pod: there are steps, in which
  -- no call begins, after which none is pending any more, even if each process ignores SIGTERM and
  -- exits only once its context is cancelled, or has been killed already by a DeletePod that is
  -- pending at the start.
  pub Reach-Ends :
      {dir : String} {user : Option Credential} {s : System}
      → Reach os IsFree dir user s
      → (d : ProcessClient) × Steps os (KilledIn s) s (idle d)
  Reach-Ends {s = s} r =
      all-Ends os (KilledIn s) (length s.pending) s.client s.pending (omega arith)
        (Reach-IsSafe os r) (λ h k. k)
