-- ===== src/Ssh/Dial/Progress.antt =====
-- DialContext comes to an end.
use macos_exec_kubelet.Base.{
  ℕ, suc, ◌+◌, ◌≤◌, Bool, true, false, message, ◌≡◌, ◌≢◌, ◌⊎◌, inl, inr, refl, arith,
}
use macos_exec_kubelet.Ssh.Dial.{
  Caller, waiting, returned_client, returned_error, Worker, in_handshake, offers_client,
  offers_error, sent, gave_up, Client, Dial, Step, context_ends, handshake_succeeds,
  handshake_fails, sends_client, sends_error, closes_client, drops_error, returns_cause, Reach,
  start, later,
}
use macos_exec_kubelet.Ssh.Dial.Leaks.{HasEnded, Consistent, Reach-IsConsistent}

-- The steps that are left at most.
abbrev caller_left : Caller → ℕ
caller_left waiting = 1
caller_left _ = 0

abbrev worker_left : Worker → ℕ
worker_left in_handshake = 2
worker_left offers_client = 1
worker_left (offers_error e) = 1
worker_left _ = 0

abbrev context_left : Bool → ℕ
context_left true = 0
context_left false = 1

abbrev left : Dial → ℕ
left s = caller_left s.caller + (worker_left s.worker + context_left s.done)

Step-left : {s t : Dial} → Step s t → suc (left t) ≤ left s
Step-left (context_ends {c} {w}) = omega arith
Step-left (handshake_succeeds {c} {d}) = omega arith
Step-left (handshake_fails e {c} {cl} {d}) = omega arith
Step-left (sends_client {cl} {d}) = omega arith
Step-left (sends_error e {cl} {d}) = omega arith
Step-left (closes_client {c}) = omega arith
Step-left (drops_error e {c}) = omega arith
Step-left (returns_cause cause {w}) = omega arith

Reach-left : {n : ℕ} {s : Dial} → Reach n s → n + left s ≤ 4
Reach-left start = omega arith
Reach-left (later r st) = omega (arith, Reach-left r, Step-left st)

-- The caller has returned, and the goroutine has ended.
abbrev pub IsFinished : Dial → Type 0
IsFinished s = (s.caller ≢ waiting) × HasEnded s.worker

-- A step of the caller or of the goroutine, and not of the context.
abbrev pub HasStep : Dial → Type 0
HasStep s = (t : Dial) × Step s t × (t.done ≡ s.done)

-- A step by which the caller returns.
abbrev pub CanReturn : Dial → Type 0
CanReturn s = (t : Dial) × Step s t × (t.caller ≢ waiting)

step_lem :
    (c : Caller) (w : Worker) (cl : Client) (d : Bool)
    → Consistent c w cl d
    → let s : Dial = record { caller = c; worker = w; client = cl; done = d } in
      IsFinished s ⊎ ((w ≡ in_handshake) ⊎ HasStep s)
step_lem c in_handshake cl d v = inr (inl refl)
step_lem waiting offers_client cl d v = inr (inr (_, sends_client, refl))
step_lem returned_client offers_client cl d v = absurd (ground arith)
step_lem (returned_error e) offers_client cl true v = inr (inr (_, closes_client, refl))
step_lem (returned_error e) offers_client cl false v = absurd (ground arith)
step_lem waiting (offers_error e) cl d v = inr (inr (_, sends_error e, refl))
step_lem returned_client (offers_error e) cl d v = absurd (ground arith)
step_lem (returned_error e) (offers_error f) cl true v = inr (inr (_, drops_error f, refl))
step_lem (returned_error e) (offers_error f) cl false v = absurd (ground arith)
step_lem waiting sent cl d v = absurd v
step_lem returned_client sent cl d v = inl (λ p. cc, tt)
step_lem (returned_error e) sent cl d v = inl (λ p. cc, tt)
step_lem waiting gave_up cl true v = inr (inr (_, returns_cause (message "context canceled"), refl))
step_lem waiting gave_up cl false v = absurd (ground arith)
step_lem returned_client gave_up cl d v = inl (λ p. cc, tt)
step_lem (returned_error e) gave_up cl d v = inl (λ p. cc, tt)

cause_lem :
    (c : Caller) (w : Worker) (cl : Client) (d : Bool)
    → c ≡ waiting
    → d ≡ true
    → CanReturn (record { caller = c; worker = w; client = cl; done = d })
cause_lem waiting w cl true p q = (_, returns_cause (message "context canceled"), λ e. cc)
cause_lem waiting w cl false p q = cc
cause_lem returned_client w cl d p q = cc
cause_lem (returned_error e) w cl d p q = cc

-- A call of DialContext takes at most four steps, those of its context and of the handshake
-- included. Until the caller has returned and the goroutine has ended, one of the two can take a
-- step, unless the handshake is going on. Once the context is done, a caller that waits can return
-- with its next step, whatever the goroutine does, the handshake included.
pub Reach-HasStep :
    {n : ℕ} {s : Dial}
    → Reach n s
    → (n ≤ 4)
      × (IsFinished s ⊎ ((s.worker ≡ in_handshake) ⊎ HasStep s))
      × (s.caller ≡ waiting → s.done ≡ true → CanReturn s)
Reach-HasStep {s} r = (
  omega (arith, Reach-left r),
  step_lem s.caller s.worker s.client s.done (Reach-IsConsistent r),
  cause_lem s.caller s.worker s.client s.done,
)
