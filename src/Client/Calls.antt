-- ===== src/Client/Calls.antt =====
-- The operating system as the process client uses it (os, os/exec, context): the replies are a
-- parameter, and the calls made are kept in a trace, the newest first.
use macos_exec_kubelet.Base.{
  ℕ, String, Bool, true, false, Option, none, some, List, [], ◌∷◌, Error, Result, ok, ◌==◌, nat_eq,
  ◌≡◌, if◌then◌else◌,
}

-- resolvedCredential in user_lookup_darwin.go
pub record Credential : Type 0 where
  pub uid : ℕ
  pub gid : ℕ

-- exec.Cmd, as far as it is filled in
pub record Cmd : Type 0 where
  pub path : String
  pub args : List String
  pub env : List String
  pub credential : Option Credential
  pub stdout : ℕ
  pub stderr : ℕ
  pub context : ℕ

-- Files and processes are named by the handles that the system gives, contexts by a number.
pub data Call : Type 0 where
  with_cancel cancel : ℕ → Call
  mkdir_all : String → Call
  chown : String → Credential → Call
  create : String → Result ℕ → Call
  close : ℕ → Call
  start : Cmd → Result ℕ → Call
  sigterm : ℕ → Call
  open_file : String → Call

-- What the system replies, which may depend on all that was called before.
pub record Os : Type 0 where
  pub environ : List Call → List String
  pub mkdir_all_reply : List Call → String → Option Error
  pub chown_reply : List Call → String → Credential → Option Error
  pub create_reply : List Call → String → Result ℕ
  pub start_reply : List Call → Cmd → Result ℕ
  pub now : List Call → ℕ
  pub open_reply : List Call → String → Result ℕ
  -- filepath.Join
  pub join : List String → String

-- Whether a file is open: the newest call about it created it.
abbrev pub is_open : ℕ → List Call → Bool
is_open f [] = false
is_open f (create p (ok g) ∷ t) = let rest = is_open f t in if f == g then true else rest
is_open f (close g ∷ t) = let rest = is_open f t in if f == g then false else rest
is_open f (_ ∷ t) = is_open f t

-- Whether a context is alive: it was made and not cancelled since.
abbrev pub is_live : ℕ → List Call → Bool
is_live x [] = false
is_live x (with_cancel y ∷ t) = let rest = is_live x t in if x == y then true else rest
is_live x (cancel y ∷ t) = let rest = is_live x t in if x == y then false else rest
is_live x (_ ∷ t) = is_live x t

-- Every process of the trace was started under the credential.
abbrev pub StartsAs : Option Credential → List Call → Type 0
StartsAs c [] = Unit
StartsAs c (start cmd r ∷ t) = (cmd.credential ≡ c) × StartsAs c t
StartsAs c (_ ∷ t) = StartsAs c t

-- The newest attempt to start a process, with the system's reply.
abbrev pub newest_start : List Call → Option (Cmd × Result ℕ)
newest_start [] = none
newest_start (start cmd r ∷ t) = some (cmd, r)
newest_start (_ ∷ t) = newest_start t

-- The processes that were started, the newest first.
abbrev pub started : List Call → List ℕ
started [] = []
started (start cmd (ok pid) ∷ t) = pid ∷ started t
started (_ ∷ t) = started t
