-- ===== src/Ssh/Dial.antt =====
-- DialContext of internal/ssh/dial.go: the caller and the goroutine that makes the client, as a step
-- relation. The network and the handshake are the environment's moves.
pub mod Leaks
pub mod Progress
use macos_exec_kubelet.Base.{ℕ, suc, Bool, true, false, Option, none, some, Error, Result, ok, err}

-- The caller: it waits at its `select`, or has returned the client or an error.
pub data Caller : Type 0 where
  waiting : Caller
  returned_client : Caller
  returned_error : Error → Caller

-- The goroutine: in the handshake, at its `select` with a client or an error, or at its end, having
-- sent its result or given up.
pub data Worker : Type 0 where
  in_handshake : Worker
  offers_client : Worker
  offers_error : Error → Worker
  sent : Worker
  gave_up : Worker

-- The client that ssh.NewClient makes.
pub data Client : Type 0 where
  not_made is_open is_closed : Client

pub record Dial : Type 0 where
  pub caller : Caller
  pub worker : Worker
  pub client : Client
  -- whether the context is done
  pub done : Bool

-- After the connection is made, both run.
abbrev pub connected : Dial
connected = record { caller = waiting; worker = in_handshake; client = not_made; done = false }

-- One step of either, or of the environment. Where both cases of a `select` are ready, either is
-- taken. The channel has no buffer: sending and receiving are one step.
pub data Step : Dial → Dial → Type 0 where
  context_ends :
      {c : Caller} {w : Worker} {cl : Client}
      → Step
          (record { caller = c; worker = w; client = cl; done = false })
          (record { caller = c; worker = w; client = cl; done = true })
  handshake_succeeds :
      {c : Caller} {d : Bool}
      → Step
          (record { caller = c; worker = in_handshake; client = not_made; done = d })
          (record { caller = c; worker = offers_client; client = is_open; done = d })
  handshake_fails :
      (e : Error) {c : Caller} {cl : Client} {d : Bool}
      → Step
          (record { caller = c; worker = in_handshake; client = cl; done = d })
          (record { caller = c; worker = offers_error e; client = cl; done = d })
  sends_client :
      {cl : Client} {d : Bool}
      → Step
          (record { caller = waiting; worker = offers_client; client = cl; done = d })
          (record { caller = returned_client; worker = sent; client = cl; done = d })
  sends_error :
      (e : Error) {cl : Client} {d : Bool}
      → Step
          (record { caller = waiting; worker = offers_error e; client = cl; done = d })
          (record { caller = returned_error e; worker = sent; client = cl; done = d })
  -- The goroutine sees that the context is done, and closes its client.
  closes_client :
      {c : Caller} {cl : Client}
      → Step
          (record { caller = c; worker = offers_client; client = cl; done = true })
          (record { caller = c; worker = gave_up; client = is_closed; done = true })
  drops_error :
      (e : Error) {c : Caller} {cl : Client}
      → Step
          (record { caller = c; worker = offers_error e; client = cl; done = true })
          (record { caller = c; worker = gave_up; client = cl; done = true })
  -- The caller sees it, and returns the cause.
  returns_cause :
      (cause : Error) {w : Worker} {cl : Client}
      → Step
          (record { caller = waiting; worker = w; client = cl; done = true })
          (record { caller = returned_error cause; worker = w; client = cl; done = true })

-- States that some number of steps leads to.
pub data Reach : ℕ → Dial → Type 0 where
  start : Reach 0 connected
  later : {n : ℕ} {s t : Dial} → Reach n s → Step s t → Reach (suc n) t

-- DialContext up to the goroutine: an error of the connection is returned at once.
unfoldable pub dial : Option Error → Result Dial
dial none = ok connected
dial (some e) = err e
