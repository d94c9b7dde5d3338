-- ===== src/Disk/Digest.antt =====
-- internal/disk/digest.go and internal/disk/validator.go. The file system and the digest package
-- are parameters; the calls that change files are listed in their order.
pub mod Evidence
use macos_exec_kubelet.Base.{
  ℕ, String, ◌<>◌, Bool, true, false, Option, none, some, List, [], ◌∷◌, Error, message, wrap, join,
  Result, ok, err, ◌==◌, string_eq, if◌then◌else◌, not, ltb,
}
use macos_exec_kubelet.Api.{Time}

pub data FileCall : Type 0 where
  create close : String → FileCall
  write_string : String → String → FileCall

-- os.Stat gives the time of the last change. `verified` is what the verifier of a digest says
-- once it was given some bytes, and `copy_reply` the bytes that io.Copy gives to it.
pub record Files : Type 0 where
  pub stat : String → Result Time
  pub is_not_exist : Error → Bool
  pub read_file : String → Result String
  pub open_reply : String → Option Error
  pub copy_reply : String → Result (List ℕ)
  pub create_reply : String → Option Error
  pub write_reply : String → String → Option Error
  pub close_reply : String → Option Error
  pub verified : String → List ℕ → Bool

abbrev pub digest_file_path : String → String
digest_file_path path = path <> ".digest"

module _ (files : Files) where
  after_write : String → String → Option Error → Option Error × List FileCall
  after_write path d (some e) =
      (some (join e (files.close_reply path)), create path ∷ write_string path d ∷ close path ∷ [])
  after_write path d none =
      (files.close_reply path, create path ∷ write_string path d ∷ close path ∷ [])

  after_create : String → String → Option Error → Option Error × List FileCall
  unfolding after_write
  after_create path d (some e) = (some e, create path ∷ [])
  after_create path d none = after_write path d (files.write_reply path d)

  unfoldable pub write_digest_file : String → String → Option Error × List FileCall
  unfolding after_create
  write_digest_file path d =
      after_create (digest_file_path path) d (files.create_reply (digest_file_path path))

  verify : String → String → Bool → Option Error × List FileCall
  unfolding write_digest_file
  verify path expected false = (some (message "digest verification failed"), [])
  verify path expected true = write_digest_file path expected

  after_copy : String → String → Result (List ℕ) → Option Error × List FileCall
  unfolding verify
  after_copy path expected (err e) = (some e, [])
  after_copy path expected (ok bytes) = verify path expected (files.verified expected bytes)

  after_open : String → String → Option Error → Option Error × List FileCall
  unfolding after_copy
  after_open path expected (some e) = (some e, [])
  after_open path expected none = after_copy path expected (files.copy_reply path)

  unfoldable pub compute_and_verify_file_digest : String → String → Option Error × List FileCall
  unfolding after_open
  compute_and_verify_file_digest path expected = after_open path expected (files.open_reply path)

  compare : String → Result String → Option Error × List FileCall
  compare expected (err e) = (some (wrap "error reading digest file" e), [])
  compare expected (ok stored) =
      if expected == stored then (none, []) else (some (message "digest does not match"), [])

  -- The digest file is used only if it is newer than the file.
  after_stat_digest : String → String → Time → Result Time → Option Error × List FileCall
  unfolding compute_and_verify_file_digest compare
  after_stat_digest path expected changed (err e) =
      if files.is_not_exist e
      then compute_and_verify_file_digest path expected
      else (some (wrap "error checking digest file" e), [])
  after_stat_digest path expected changed (ok digest_changed) =
      if not (ltb changed digest_changed)
      then compute_and_verify_file_digest path expected
      else compare expected (files.read_file (digest_file_path path))

  after_stat : String → String → Result Time → Option Error × List FileCall
  unfolding after_stat_digest
  after_stat path expected (err e) = (some (wrap "error checking file" e), [])
  after_stat path expected (ok changed) =
      after_stat_digest path expected changed (files.stat (digest_file_path path))

  unfoldable pub validate_file_with_digest : String → String → Option Error × List FileCall
  unfolding after_stat
  validate_file_with_digest path expected = after_stat path expected (files.stat path)
