-- ===== src/Disk/Images/Success.antt =====
-- Compressions and decompressions that succeed.
use macos_exec_kubelet.Base.{ℕ, String, Option, none, List, Error, Result, ok, ◌≡◌, refl}
use macos_exec_kubelet.Disk.Decompress.{Progress}
use macos_exec_kubelet.Disk.Decompress.Success.{ReachesEof, IsWritable, decompress_succeeds}
use macos_exec_kubelet.Disk.Digest.{Files, FileCall, write_digest_file}
use macos_exec_kubelet.Disk.Images.{
  Gzip, ImageFiles, with_digest, after_loop, compress_file_with_path, decompress_file_with_path,
}

-- The gzip package and the files refuse nothing.
pub record RefuseNothing (gzip : Gzip) (files : ImageFiles) (digests : Files) : Type 0 where
  pub new_writer : gzip.new_writer_reply ≡ none
  pub concurrency : gzip.set_concurrency_reply ≡ none
  pub closes_writer : (bytes : List ℕ) → gzip.close_reply bytes ≡ none
  pub new_reader : (bytes : List ℕ) → gzip.new_reader_reply bytes ≡ none
  pub copies : files.copy_reply ≡ none
  pub syncs : files.sync_reply ≡ none
  pub has_size : (bytes : List ℕ) → (n : ℕ) × (files.size_reply bytes ≡ ok n)
  pub closes : (path : String) → files.close_reply path ≡ none
  pub creates : (path : String) → files.create_reply path ≡ none
  pub truncates : (n : ℕ) → files.truncate_reply n ≡ none
  pub writable : IsWritable files.output
  pub creates_digest : (path : String) → digests.create_reply path ≡ none
  pub writes_digest : (path d : String) → digests.write_reply path d ≡ none
  pub closes_digest : (path : String) → digests.close_reply path ≡ none

module _ (gzip : Gzip) (files : ImageFiles) (digests : Files)
    (w : RefuseNothing gzip files digests) where
  pub compress_succeeds :
      (path out : String) (image : List ℕ)
      → files.open_reply path ≡ ok image
      → (compress_file_with_path gzip files path out).1 ≡ none
  unfolding compress_file_with_path
  compress_succeeds path out image l =
      let (n, size) = w.has_size (gzip.compress image) in
      rw
        (
          l,
          w.new_writer,
          w.concurrency,
          w.copies,
          w.closes_writer image,
          w.syncs,
          size,
          w.closes path,
        )
        refl

  digest_succeeds : (path d : String) → (write_digest_file digests path d).0 ≡ none
  unfolding write_digest_file
  digest_succeeds path d = rw (w.creates_digest _, w.writes_digest _ d, w.closes_digest _) refl

  written_lem :
      (out : String) (p : Progress) (reply : Option Error × List FileCall)
      → reply.0 ≡ none
      → (with_digest gzip files digests out p reply).1 ≡ none
  unfolding with_digest
  written_lem out p (e, calls) h = rw h refl

  after_loop_succeeds :
      (out : String) (r : Result Progress) (p : Progress)
      → r ≡ ok p
      → (after_loop gzip files digests out r).1 ≡ none
  unfolding after_loop
  after_loop_succeeds out r p h =
      rw h (written_lem out p _ (digest_succeeds out (gzip.digest p.hashed)))

  pub decompress_file_succeeds :
      (path out : String) (size : ℕ) (compressed : List ℕ)
      → files.open_reply path ≡ ok compressed
      → ReachesEof (gzip.reads compressed)
      → (decompress_file_with_path gzip files digests path out size).1 ≡ none
  unfolding decompress_file_with_path
  decompress_file_succeeds path out size compressed l end =
      let (p, done) =
        decompress_succeeds files.output w.writable (gzip.reads compressed) size end in
      rw
        (
          l,
          w.creates out,
          w.truncates size,
          w.new_reader compressed,
          after_loop_succeeds out _ p done,
          w.closes out,
          w.closes path,
        )
        refl
