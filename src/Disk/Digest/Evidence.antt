-- ===== src/Disk/Digest/Evidence.antt =====
-- What a successful validation rests on.
use macos_exec_kubelet.Base.{
  ℕ, String, ◌<◌, true, none, List, [], ◌∷◌, ok, string_eq, ◌≡◌, ◌⊎◌, inl, inr, arith, ltb,
  Bool-cases, Result-cases,
}
use macos_exec_kubelet.Api.{Time}
use macos_exec_kubelet.Disk.Digest.{
  Files, FileCall, create, close, write_string, digest_file_path, compute_and_verify_file_digest,
  validate_file_with_digest,
}

module _ (files : Files) (path expected : String) where
  -- The digest file is newer than the file and holds the expected digest; nothing is written.
  pub record Cached (calls : List FileCall) : Type 0 where
    pub changed : Time
    pub digest_changed : Time
    pub file_stat : files.stat path ≡ ok changed
    pub digest_stat : files.stat (digest_file_path path) ≡ ok digest_changed
    pub newer : changed < digest_changed
    pub stored : files.read_file (digest_file_path path) ≡ ok expected
    pub no_write : calls ≡ []

  -- The bytes of the file were verified, and the digest file is written.
  pub record Computed (calls : List FileCall) : Type 0 where
    pub bytes : List ℕ
    pub copied : files.copy_reply path ≡ ok bytes
    pub verified : files.verified expected bytes ≡ true
    pub written :
        calls
        ≡ create (digest_file_path path)
          ∷ write_string (digest_file_path path) expected
          ∷ close (digest_file_path path)
          ∷ []

  compute-Computed :
      (compute_and_verify_file_digest files path expected).0 ≡ none
      → Computed (compute_and_verify_file_digest files path expected).1
  unfolding compute_and_verify_file_digest
  compute-Computed h = elim (Result-cases (files.copy_reply path)) [
    | inr (e, l) ↦ absurd (ground arith)
    | inl (bytes, l) ↦ record {
      bytes = bytes;
      copied = l;
      verified = ground arith;
      written = ground arith;
    }
  ]

  by_computing :
      validate_file_with_digest files path expected
        ≡ compute_and_verify_file_digest files path expected
      → (validate_file_with_digest files path expected).0 ≡ none
      → Computed (validate_file_with_digest files path expected).1
  by_computing same h = rw same (compute-Computed (rw same at h))

  -- A file is valid only on evidence: either its digest file is newer than the file and holds the
  -- expected digest, and nothing is written, or the bytes of the file were verified against the
  -- expected digest, and that digest is written to the digest file.
  pub validate_file_with_digest-Cached :
      (validate_file_with_digest files path expected).0 ≡ none
      → let calls = (validate_file_with_digest files path expected).1 in
        Cached calls ⊎ Computed calls
  unfolding validate_file_with_digest
  validate_file_with_digest-Cached h = elim (Result-cases (files.stat path)) [
    | inr (e, l) ↦ absurd (ground arith)
    | inl (t, l) ↦ elim (Result-cases (files.stat (digest_file_path path))) [
      | inr (e, m) ↦ inr (by_computing (ground arith) h)
      | inl (u, m) ↦ elim (Bool-cases (ltb t u)) [
        | inr old ↦ inr (by_computing (ground arith) h)
        | inl new ↦ inl (record {
          changed = t;
          digest_changed = u;
          file_stat = l;
          digest_stat = m;
          newer = ground arith;
          stored = ground arith;
          no_write = ground arith;
        })
      ]
    ]
  ]
