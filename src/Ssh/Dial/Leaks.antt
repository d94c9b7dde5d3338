-- ===== src/Ssh/Dial/Leaks.antt =====
-- No client is leaked, and none is closed that was returned.
use macos_exec_kubelet.Base.{ℕ, Bool, true, false, Error, ◌≡◌, ◌≢◌, refl, arith}
use macos_exec_kubelet.Ssh.Dial.{
  Caller, waiting, returned_client, returned_error, Worker, in_handshake, offers_client,
  offers_error, sent, gave_up, Client, not_made, is_open, is_closed, Dial, Step, context_ends,
  handshake_succeeds, handshake_fails, sends_client, sends_error, closes_client, drops_error,
  returns_cause, Reach, start, later,
}

-- The goroutine has ended.
abbrev pub HasEnded : Worker → Type 0
HasEnded sent = Unit
HasEnded gave_up = Unit
HasEnded _ = ⊥

-- Who holds the client, case by case.
abbrev pub Consistent : Caller → Worker → Client → Bool → Type 0
Consistent returned_client w cl d = (w ≡ sent) × (cl ≡ is_open)
Consistent waiting in_handshake cl d = cl ≡ not_made
Consistent waiting offers_client cl d = cl ≡ is_open
Consistent waiting (offers_error e) cl d = cl ≡ not_made
Consistent waiting sent cl d = ⊥
Consistent waiting gave_up cl d = (cl ≢ is_open) × (d ≡ true)
Consistent (returned_error e) in_handshake cl d = (cl ≡ not_made) × (d ≡ true)
Consistent (returned_error e) offers_client cl d = (cl ≡ is_open) × (d ≡ true)
Consistent (returned_error e) (offers_error f) cl d = (cl ≡ not_made) × (d ≡ true)
Consistent (returned_error e) sent cl d = cl ≡ not_made
Consistent (returned_error e) gave_up cl d = (cl ≢ is_open) × (d ≡ true)

abbrev pub IsConsistent : Dial → Type 0
IsConsistent s = Consistent s.caller s.worker s.client s.done

ended_lem :
    (c : Caller) (w : Worker) (cl : Client) → Consistent c w cl false → Consistent c w cl true
ended_lem c w cl v = ground arith

made_lem :
    (c : Caller) (d : Bool)
    → Consistent c in_handshake not_made d
    → Consistent c offers_client is_open d
made_lem c d v = ground arith

failed_lem :
    (e : Error) (c : Caller) (cl : Client) (d : Bool)
    → Consistent c in_handshake cl d
    → Consistent c (offers_error e) cl d
failed_lem e c cl d v = ground arith

closed_lem :
    (c : Caller) (cl : Client)
    → Consistent c offers_client cl true
    → Consistent c gave_up is_closed true
closed_lem c cl v = ground arith

dropped_lem :
    (e : Error) (c : Caller) (cl : Client)
    → Consistent c (offers_error e) cl true
    → Consistent c gave_up cl true
dropped_lem e c cl v = ground arith

returned_lem :
    (cause : Error) (w : Worker) (cl : Client)
    → Consistent waiting w cl true
    → Consistent (returned_error cause) w cl true
returned_lem cause w cl v = ground arith

Step-IsConsistent : {s t : Dial} → Step s t → IsConsistent s → IsConsistent t
Step-IsConsistent (context_ends {c} {w} {cl}) v = ended_lem c w cl v
Step-IsConsistent (handshake_succeeds {c} {d}) v = made_lem c d v
Step-IsConsistent (handshake_fails e {c} {cl} {d}) v = failed_lem e c cl d v
Step-IsConsistent sends_client v = (refl, v)
Step-IsConsistent (sends_error e) v = v
Step-IsConsistent (closes_client {c} {cl}) v = closed_lem c cl v
Step-IsConsistent (drops_error e {c} {cl}) v = dropped_lem e c cl v
Step-IsConsistent (returns_cause cause {w} {cl}) v = returned_lem cause w cl v

pub Reach-IsConsistent : {n : ℕ} {s : Dial} → Reach n s → IsConsistent s
Reach-IsConsistent start = refl
Reach-IsConsistent (later r st) = Step-IsConsistent st (Reach-IsConsistent r)

accounted_lem :
    (c : Caller) (w : Worker) (cl : Client) (d : Bool)
    → Consistent c w cl d
    → (c ≡ returned_client → cl ≡ is_open)
      × (HasEnded w → cl ≡ is_open → c ≡ returned_client)
      × (c ≡ waiting → w ≡ gave_up → d ≡ true)
accounted_lem c w cl d v = (λ p. ground arith, λ p q. ground arith, λ p q. ground arith)

-- In every state that the two can come to: a client that was returned is open; an open client was
-- returned if the goroutine has ended, so that none is leaked; and the goroutine has given up on a
-- caller that still waits only if the context is done, so that the caller returns as well.
pub Reach-accounted :
    {n : ℕ} {s : Dial}
    → Reach n s
    → (s.caller ≡ returned_client → s.client ≡ is_open)
      × (HasEnded s.worker → s.client ≡ is_open → s.caller ≡ returned_client)
      × (s.caller ≡ waiting → s.worker ≡ gave_up → s.done ≡ true)
Reach-accounted {s} r = accounted_lem s.caller s.worker s.client s.done (Reach-IsConsistent r)
