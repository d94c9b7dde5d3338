-- ===== src/Client/Invariant/Exits.antt =====
-- The exit of a process, DeletePod and GetPod keep the invariant.
use macos_exec_kubelet.Base.{
  ℕ, true, false, Option, none, some, Error, NamespacedName, key_eq, ◌≡◌, ◌≢◌, refl, ap, ◌∙◌, ◌⊎◌,
  inl, inr, arith, get_elem?, set, get_elem?-set, get_elem?-set_self, get_elem?-set_ne,
  get_elem?-lt, Option-cases, Bool-cases, nat_eq, ℕ_discrete,
}
use macos_exec_kubelet.Base.Dict
use macos_exec_kubelet.Client.Calls.{is_open, sigterm, cancel}
use macos_exec_kubelet.Client.Process.{ProcessClient, ProcessState, process_key, note, reap}
use macos_exec_kubelet.Client.Exit.{Exited, ended, after_exit, reap_running, reap_done}
use macos_exec_kubelet.Client.Delete.{
  Waiting, exits, times_out, wait_for, delete_state, delete_found, delete_pod,
}
use macos_exec_kubelet.Client.Delete.Effect.{wait_for-same_processes, wait_for-Exited}
use macos_exec_kubelet.Client.Query.{get_pod, get_found, get_state, refresh}
use macos_exec_kubelet.Client.Invariant.{IsSound, Describes, BelongsTo, BelongsTo-same_states}

-- The second client has another state `t` in place of `s` under the pointer `h`; it is that of the
-- same pod, and its files are open only as long as it runs.
record Rewrites (h : ℕ) (s t : ProcessState) (c d : ProcessClient) : Type 0 where
  old : get_elem? c.states h ≡ some s
  written : d.states ≡ set c.states h t
  same_processes : d.processes ≡ c.processes
  same_key : process_key t.pod_process ≡ process_key s.pod_process
  same_pod : t.pod_process.pod ≡ s.pod_process.pod
  still_ran : t.wait_done ≡ false → s.wait_done ≡ false
  still_open : (f : ℕ) → is_open f d.calls ≡ true → is_open f c.calls ≡ true
  own_files :
      (f : ℕ)
      → is_open f d.calls ≡ true
      → s.wait_done ≡ false
      → (f ≡ s.stdout) ⊎ (f ≡ s.stderr)
      → (t.wait_done ≡ false) × ((f ≡ t.stdout) ⊎ (f ≡ t.stderr))

module _ {h : ℕ} {s t : ProcessState} {c d : ProcessClient} (w : Rewrites h s t c d) where
  at_rewritten : get_elem? d.states h ≡ some t
  at_rewritten = rw w.written (get_elem?-set_self c.states h t (get_elem?-lt c.states h w.old))

  at_other : (i : ℕ) → h ≢ i → get_elem? d.states i ≡ get_elem? c.states i
  at_other i n = rw w.written (get_elem?-set_ne c.states h i t n)

  module _ (v : IsSound c) where
    described_rewritten :
        (k : NamespacedName) (i : ℕ)
        → Dict.lookup k d.processes ≡ some i
        → (u : ProcessState) × (get_elem? d.states i ≡ some u) × Describes k u
    described_rewritten k i e =
        let (u, p, q) = v.described k i (rw w.same_processes at e) in
        elim (ℕ_discrete h i) [
          | no n ↦ (u, at_other i n ∙ p, q)
          | yes m ↦
              let same : s ≡ u = cc (w.old, p, m) in
              (
                t,
                rw (← m) at_rewritten,
                record {
                  same_key = w.same_key ∙ rw same q.same_key;
                  pod = q.pod;
                  with_pod = w.same_pod ∙ rw same q.with_pod;
                  key_of_pod = q.key_of_pod;
                },
              )
        ]

    found_rewritten :
        (i : ℕ) (u : ProcessState)
        → get_elem? d.states i ≡ some u
        → u.wait_done ≡ false
        → Dict.lookup (process_key u.pod_process) d.processes ≡ some i
    found_rewritten i u p r = elim (get_elem?-set c.states h t i (rw w.written at p)) [
      | inl (m, same) ↦
          rw (w.same_processes, same, w.same_key, m)
            (v.no_orphan h s w.old (w.still_ran (rw same at r)))
      | inr (n, q) ↦ rw w.same_processes (v.no_orphan i u q r)
    ]

    files_rewritten : (f : ℕ) → is_open f d.calls ≡ true → BelongsTo f d
    files_rewritten f o =
        let b = v.no_leak f (w.still_open f o) in
        elim (ℕ_discrete h b.owner) [
          | no n ↦ record {
            owner = b.owner;
            state = b.state;
            found = at_other b.owner n ∙ b.found;
            running = b.running;
            one_of = b.one_of;
          }
          | yes m ↦
              let same : b.state ≡ s = cc (w.old, b.found, m) in
              let (runs, own) = w.own_files f o (rw same at b.running) (rw same at b.one_of) in
              record { owner = h; state = t; found = at_rewritten; running = runs; one_of = own }
        ]

    Rewrites-IsSound : IsSound d
    Rewrites-IsSound = record {
      nodup = rw w.same_processes v.nodup;
      described = described_rewritten;
      no_orphan = found_rewritten;
      no_leak = files_rewritten;
    }

module _ (h : ℕ) (e : Option Error) where
  after_exit-Rewrites :
      (c : ProcessClient) (s : ProcessState)
      → get_elem? c.states h ≡ some s
      → s.wait_done ≡ false
      → Rewrites h s (ended s e) c (after_exit h e c s)
  after_exit-Rewrites c s p r = record {
    old = p;
    written = refl;
    same_processes = refl;
    same_key = refl;
    same_pod = refl;
    still_ran = λ x. cc;
    still_open = λ f o. ground arith;
    own_files = λ f o x own. absurd (ground arith);
  }

  -- The exit of a process keeps the invariant.
  pub reap-IsSound : (c : ProcessClient) → IsSound c → IsSound (reap h e c)
  reap-IsSound c v = elim (Option-cases (get_elem? c.states h)) [
    | inl p ↦ rw (reap_done h e c (λ s q. cc)) v
    | inr (s, p) ↦ elim (Bool-cases s.wait_done) [
      | inl r ↦ rw (reap_done h e c (λ u q. ground arith)) v
      | inr r ↦ rw (reap_running h e c s p r) (Rewrites-IsSound (after_exit-Rewrites c s p r) v)
    ]
  ]

-- The map without a key whose process has exited.
pub remove-IsSound :
    (k : NamespacedName) (h : ℕ) (c : ProcessClient)
    → Dict.lookup k c.processes ≡ some h
    → IsSound c
    → Exited h c
    → IsSound (record c { processes = Dict.erase k c.processes })
remove-IsSound k h c l v x = record {
  nodup = Dict.erase-NodupKeys k c.processes v.nodup;
  described = λ j i e. v.described j i (Dict.lookup-erase-some j k c.processes e).1;
  no_orphan = λ i s p r.
      let found = v.no_orphan i s p r in
      Dict.lookup-erase_ne _ k c.processes (λ same.
        let here : i ≡ h =
          cc (ap (λ (j : NamespacedName). Dict.lookup j c.processes) same, found, l) in
        cc (x s (rw (← here) p), r))
      ∙ found;
  no_leak = λ f o. BelongsTo-same_states f refl (v.no_leak f o);
}

-- A signal and a cancelled context open no file.
module _ (c : ProcessClient) (v : IsSound c) where
  pub signalled-IsSound : (pid : ℕ) → IsSound (note (sigterm pid) c)
  signalled-IsSound pid = record {
    nodup = v.nodup;
    described = v.described;
    no_orphan = v.no_orphan;
    no_leak = λ f o. BelongsTo-same_states f refl (v.no_leak f o);
  }

  pub cancelled-IsSound : (x : ℕ) → IsSound (note (cancel x) c)
  cancelled-IsSound x = record {
    nodup = v.nodup;
    described = v.described;
    no_orphan = v.no_orphan;
    no_leak = λ f o. BelongsTo-same_states f refl (v.no_leak f o);
  }

wait_for-IsSound :
    (h : ℕ) (s : ProcessState) (w : Waiting) (c : ProcessClient)
    → IsSound c
    → IsSound (wait_for h s w c)
unfolding wait_for
wait_for-IsSound h s (exits e) c v = reap-IsSound h e _ (signalled-IsSound c v s.pid)
wait_for-IsSound h s (times_out e) c v =
    reap-IsSound h e _ (cancelled-IsSound _ (signalled-IsSound c v s.pid) s.context)

-- DeletePod keeps the invariant, whether the process exits in time or is killed.
pub delete_pod-IsSound :
    (k : NamespacedName) (w : Waiting) (c : ProcessClient)
    → IsSound c
    → IsSound (delete_pod k w c).1
unfolding delete_pod
delete_pod-IsSound k w c v = found_lem (Dict.lookup k c.processes) refl
  where
    state_lem :
        (h : ℕ)
        → Dict.lookup k c.processes ≡ some h
        → (o : Option ProcessState) → IsSound (delete_state k h w o c).1
    state_lem h l none = v
    state_lem h l (some s) =
        remove-IsSound k h _ (ap (Dict.lookup k) (wait_for-same_processes h s c w) ∙ l)
          (wait_for-IsSound h s w c v) (wait_for-Exited h s c w)

    found_lem : (o : Option ℕ) → Dict.lookup k c.processes ≡ o → IsSound (delete_found k w o c).1
    found_lem none l = v
    found_lem (some h) l = state_lem h l (get_elem? c.states h)

-- GetPod keeps the invariant.
pub get_pod-IsSound : (k : NamespacedName) (c : ProcessClient) → IsSound c → IsSound (get_pod k c).1
unfolding get_pod refresh
get_pod-IsSound k c v = found_lem (Dict.lookup k c.processes)
  where
    state_lem :
        (h : ℕ) (o : Option ProcessState) → get_elem? c.states h ≡ o → IsSound (get_state h o c).1
    state_lem h none p = v
    state_lem h (some s) p =
        Rewrites-IsSound {s = s} {t = record s { pod_process = refresh s }}
          (record {
            old = p;
            written = refl;
            same_processes = refl;
            same_key = refl;
            same_pod = refl;
            still_ran = λ r. r;
            still_open = λ f o. o;
            own_files = λ f o r own. (r, own);
          })
          v

    found_lem : (o : Option ℕ) → IsSound (get_found o c).1
    found_lem none = v
    found_lem (some h) = state_lem h (get_elem? c.states h) refl
