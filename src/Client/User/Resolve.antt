-- ===== src/Client/User/Resolve.antt =====
-- Which user a new client runs its processes as.
use macos_exec_kubelet.Base.{
  ℕ, ◌+◌, ◌-◌, ◌*◌, ◌^◌, ◌<◌, some, Result, ok, string_eq, ◌≡◌, ◌≢◌, inl, inr, arith, Result-cases,
}
use Prim.Native.String.{String, [], ◌∷◌}
use Prim.Native.Char.{code}
use macos_exec_kubelet.Client.Calls.{Credential}
use macos_exec_kubelet.Client.Process.{ProcessClient, new_client}
use macos_exec_kubelet.Client.User.{
  User, ProcessClientConfig, parse_digits, parse_uint32, new_process_client,
}

parse_digits-lt : (n : ℕ) (s : String) (v : ℕ) → n < 2 ^ 32 → parse_digits n s ≡ ok v → v < 2 ^ 32
unfolding parse_digits
parse_digits-lt n [] v small h = ground arith
parse_digits-lt n (c ∷ s) v small h = ground (arith, parse_digits-lt (n * 10 + (code c - b'0')) s v)

parse_uint32-lt : (s : String) (v : ℕ) → parse_uint32 s ≡ ok v → v < 2 ^ 32
unfolding parse_uint32
parse_uint32-lt [] v h = cc
parse_uint32-lt (c ∷ s) v h = parse_digits-lt 0 (c ∷ s) v (omega arith) h

module _ (lookup_user : String → Result User) where
  -- The user database has the name, and its identifiers are those of the credential.
  pub record IsUser (name : String) (c : Credential) : Type 0 where
    pub user : User
    pub found : lookup_user name ≡ ok user
    pub same_uid : parse_uint32 user.uid ≡ ok c.uid
    pub same_gid : parse_uint32 user.gid ≡ ok c.gid
    pub uid_in_word : c.uid < 2 ^ 32
    pub gid_in_word : c.gid < 2 ^ 32

  -- A client that is made for a user name that is not empty runs as that user, by identifiers that
  -- fit 32 bits, and never as the current user.
  pub new_process_client-IsUser :
      (cfg : ProcessClientConfig) (c : ProcessClient)
      → cfg.runner_user ≢ ""
      → new_process_client lookup_user cfg ≡ ok c
      → (user : Credential) × IsUser cfg.runner_user user
        × (c ≡ new_client cfg.logs_dir (some user))
  unfolding new_process_client
  new_process_client-IsUser cfg c named h = elim (Result-cases (lookup_user cfg.runner_user)) [
    | inr (e, l) ↦ absurd (ground arith)
    | inl (u, l) ↦ elim (Result-cases (parse_uint32 u.uid)) [
      | inr (e, a) ↦ absurd (ground arith)
      | inl (uid, a) ↦ elim (Result-cases (parse_uint32 u.gid)) [
        | inr (e, b) ↦ absurd (ground arith)
        | inl (gid, b) ↦ (
          record { uid = uid; gid = gid },
          record {
            user = u;
            found = l;
            same_uid = a;
            same_gid = b;
            uid_in_word = parse_uint32-lt u.uid uid a;
            gid_in_word = parse_uint32-lt u.gid gid b;
          },
          ground arith,
        )
      ]
    ]
  ]
