-- ===== src/Client/Exit.antt =====
-- What the exit of a process changes.
use macos_exec_kubelet.Base.{
  ℕ, true, false, Option, some, ◌∷◌, Error, ◌≡◌, refl, inl, inr, arith, get_elem?, set,
  Option-cases, Bool-cases, get_elem?-set_self, get_elem?-set_ne, get_elem?-lt, ℕ_discrete, ◌∙◌,
}
use macos_exec_kubelet.Client.Calls.{close}
use macos_exec_kubelet.Client.Process.{ProcessClient, ProcessState, reap}

-- The process under a pointer has exited, if there is one.
abbrev pub Exited : ℕ → ProcessClient → Type 0
Exited h c = (s : ProcessState) → get_elem? c.states h ≡ some s → s.wait_done ≡ true

abbrev pub ended : ProcessState → Option Error → ProcessState
ended s e = record s { exit_error = e; wait_done = true }

module _ (h : ℕ) (e : Option Error) where
  -- A process that still runs is marked, and its files are closed. Any other is left alone.
  abbrev pub after_exit : ProcessClient → ProcessState → ProcessClient
  after_exit c s = record c {
    states = set c.states h (ended s e);
    calls = close s.stderr ∷ close s.stdout ∷ c.calls;
  }

  pub reap_running :
      (c : ProcessClient) (s : ProcessState)
      → get_elem? c.states h ≡ some s
      → s.wait_done ≡ false
      → reap h e c ≡ after_exit c s
  unfolding reap
  reap_running c s p r = ground arith

  pub reap_done : (c : ProcessClient) → Exited h c → reap h e c ≡ c
  unfolding reap
  reap_done c x = elim (Option-cases (get_elem? c.states h)) [
    | inl p ↦ ground arith
    | inr (s, p) ↦ ground (arith, x s p)
  ]

  pub reap-same_processes : (c : ProcessClient) → (reap h e c).processes ≡ c.processes
  unfolding reap
  reap-same_processes c = ground arith

  pub reap-Exited : (c : ProcessClient) → Exited h (reap h e c)
  reap-Exited c = elim (Option-cases (get_elem? c.states h)) [
    | inl p ↦ rw (reap_done c (λ s q. cc)) (λ s q. cc)
    | inr (s, p) ↦ elim (Bool-cases s.wait_done) [
      | inl r ↦ let x : Exited h c = λ u q. ground arith in rw (reap_done c x) x
      | inr r ↦ rw (reap_running c s p r) (λ u q.
          ground (arith, get_elem?-set_self c.states h (ended s e) (get_elem?-lt c.states h p)))
    ]
  ]

  -- A state stays under its pointer when a process exits.
  pub reap-found :
      (c : ProcessClient) (i : ℕ) {s : ProcessState}
      → get_elem? c.states i ≡ some s
      → (t : ProcessState) × (get_elem? (reap h e c).states i ≡ some t)
        × (s.wait_done ≡ true → t.wait_done ≡ true)
  reap-found c i {s} p = elim (Option-cases (get_elem? c.states h)) [
    | inl q ↦ rw (reap_done c (λ u r. cc)) (s, p, λ r. r)
    | inr (u, q) ↦ elim (Bool-cases u.wait_done) [
      | inl r ↦ let x : Exited h c = λ v f. ground arith in rw (reap_done c x) (s, p, λ y. y)
      | inr r ↦ elim (ℕ_discrete h i) [
        | yes m ↦
            let x = get_elem?-set_self c.states h (ended u e) (get_elem?-lt c.states h q) in
            rw (reap_running c u q r) (ended u e, rw (← m) x, λ y. refl)
        | no n ↦
            let x = get_elem?-set_ne c.states h i (ended u e) n in
            rw (reap_running c u q r) (s, x ∙ p, λ y. y)
      ]
    ]
  ]
