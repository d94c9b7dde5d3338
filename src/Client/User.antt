-- ===== src/Client/User.antt =====
-- pkg/client/user_lookup_darwin.go and NewProcessClient. The user database is a parameter.
pub mod Resolve
use macos_exec_kubelet.Base.{
  ℕ, ◌+◌, ◌-◌, ◌*◌, ◌^◌, Bool, true, false, ◌&&◌, Option, none, some, Error, message, wrap, Result,
  ok, err, ◌>>=◌, map_err, ◌==◌, string_eq, if◌then◌else◌, leb, ltb,
}
use Prim.Native.String.{String, [], ◌∷◌}
use Prim.Native.Char.{Char, code}
use macos_exec_kubelet.Client.Calls.{Credential}
use macos_exec_kubelet.Client.Process.{ProcessClient, new_client}

-- user.User, as far as it is read: both identifiers are text.
pub record User : Type 0 where
  pub uid : String
  pub gid : String

-- ProcessClientConfig
pub record ProcessClientConfig : Type 0 where
  pub logs_dir : String
  pub runner_user : String

abbrev is_digit : Char → Bool
is_digit c = leb b'0' (code c) && leb (code c) b'9'

-- strconv.ParseUint(s, 10, 32): the digits, each after the value of those before it.
unfoldable pub parse_digits : ℕ → String → Result ℕ
parse_digits n [] = ok n
parse_digits n (c ∷ s) =
    let value = n * 10 + (code c - b'0') in
    let rest = parse_digits value s in
    if is_digit c
    then (if ltb value (2 ^ 32) then rest else err (message "value out of range"))
    else err (message "invalid syntax")

unfoldable pub parse_uint32 : String → Result ℕ
unfolding parse_digits
parse_uint32 [] = err (message "invalid syntax")
parse_uint32 (c ∷ s) = parse_digits 0 (c ∷ s)

module _ (lookup_user : String → Result User) where
  -- Without a user name there is no credential.
  unfoldable pub lookup_runner_credential : String → Result (Option Credential)
  unfolding parse_uint32
  lookup_runner_credential username = if username == "" then ok none else (do
    u ← map_err (wrap "runner user not found") (lookup_user username)
    uid ← map_err (wrap "invalid UID") (parse_uint32 u.uid)
    gid ← map_err (wrap "invalid GID") (parse_uint32 u.gid)
    ok (some (record { uid = uid; gid = gid })))

  unfoldable pub new_process_client : ProcessClientConfig → Result ProcessClient
  unfolding lookup_runner_credential
  new_process_client cfg = do
    credential ← lookup_runner_credential cfg.runner_user
    ok (new_client cfg.logs_dir credential)
