-- ===== src/Disk/Images/RoundTrip.antt =====
-- An image that is compressed and decompressed again.
use macos_exec_kubelet.Base.{
  ℕ, ◌+◌, ◌-◌, ◌≤◌, [], sym, length-append, String, none, List, ◌++◌, ok, length, ◌≡◌, ◌∙◌, ap, inl,
  inr, arith, Result-cases,
}
use macos_exec_kubelet.Disk.Sparse.{zeros, append_nil}
use macos_exec_kubelet.Disk.Decompress.{Reads, Output, Progress, decompress}
use macos_exec_kubelet.Disk.Decompress.Content.{
  content, given, at_eof, given-content, decompress-content,
}
use macos_exec_kubelet.Disk.Digest.{Files}
use macos_exec_kubelet.Disk.Decompress.Success.{ReachesEof}
use macos_exec_kubelet.Disk.Images.Success.{
  RefuseNothing, compress_succeeds, decompress_file_succeeds,
}
use macos_exec_kubelet.Disk.Images.{
  Gzip, ImageFiles, compress_file_with_path, decompress_file_with_path,
}

-- The documented behaviour of gzip: what was compressed is read again to its end, and the writer
-- counts the bytes that it was given.
pub record IsGzip (gzip : Gzip) : Type 0 where
  pub inverse : (bytes : List ℕ) → given (gzip.reads (gzip.compress bytes)) ≡ bytes
  pub ends : (bytes : List ℕ) → ReachesEof (gzip.reads (gzip.compress bytes))
  pub counts : (bytes : List ℕ) → gzip.uncompressed_size bytes ≡ length bytes

module _ (gzip : Gzip) (files : ImageFiles) where
  compress-result :
      (path out : String)
      → (compress_file_with_path gzip files path out).1 ≡ none
      → (input : List ℕ) × (files.open_reply path ≡ ok input)
        × (let (r, e, written) = compress_file_with_path gzip files path out in
            (written ≡ gzip.compress input)
            × (r.uncompressed_size ≡ gzip.uncompressed_size input)
            × (r.uncompressed_digest ≡ gzip.digest input)
            × (r.gz_digest ≡ gzip.digest written))
  unfolding compress_file_with_path
  compress-result path out h = elim (Result-cases (files.open_reply path)) [
    | inr (e, l) ↦ absurd (ground arith)
    | inl (input, l) ↦ (input, l, (ground arith, ground arith, ground arith, ground arith))
  ]

  decompress-result :
      (digests : Files) (path out : String) (size : ℕ)
      → (decompress_file_with_path gzip files digests path out size).1 ≡ none
      → (compressed : List ℕ) × (p : Progress) × (files.open_reply path ≡ ok compressed)
        × (decompress files.output (gzip.reads compressed) size ≡ ok p)
        × (let (d, e, file) = decompress_file_with_path gzip files digests path out size in
            (d ≡ gzip.digest p.hashed) × (file ≡ p.file))
  unfolding decompress_file_with_path
  decompress-result digests path out size h = elim (Result-cases (files.open_reply path)) [
    | inr (e, l) ↦ absurd (ground arith)
    | inl (compressed, l) ↦
        elim (Result-cases (decompress files.output (gzip.reads compressed) size)) [
          | inr (e, m) ↦ absurd (ground arith)
          | inl (p, m) ↦ (compressed, p, l, m, (ground arith, ground arith))
        ]
  ]

-- What a decompression makes of an image: the bytes up to those that came with io.EOF, of which there
-- may be none, and zeros in place of these; the digest is that of the bytes up to them.
pub record IsRestored (gzip : Gzip) (reads : Reads) (image file : List ℕ) (digest : String)
    : Type 0 where
  pub kept : List ℕ
  pub all_but_last : kept ++ at_eof reads ≡ image
  pub own_file : file ≡ kept ++ zeros (length (at_eof reads))
  pub own_digest : digest ≡ gzip.digest kept

exact_size :
    (gzip : Gzip) (out : Output) (reads : Reads) (image : List ℕ) (size : ℕ) (p : Progress)
    → given reads ≡ image
    → size ≡ length image
    → decompress out reads size ≡ ok p
    → IsRestored gzip reads image p.file (gzip.digest p.hashed)
exact_size gzip out reads image size p g l h =
    let total : content reads ++ at_eof reads ≡ image = sym (given-content reads) ∙ g in
    let long : length (content reads) + length (at_eof reads) ≡ size =
      sym (length-append (content reads) (at_eof reads)) ∙ ap length total ∙ sym l in
    let fits : length (content reads) ≤ size = omega (arith, long) in
    let (file, hashed, _) = decompress-content out reads size p fits h in
    let left : size - length (content reads) ≡ length (at_eof reads) = omega (arith, long) in
    record {
      kept = content reads;
      all_but_last = total;
      own_file = file ∙ ap (λ (n : ℕ). content reads ++ zeros n) left;
      own_digest = ap gzip.digest hashed;
    }

-- Without such bytes the image is whole.
IsRestored-whole :
    (gzip : Gzip) (reads : Reads) (image file : List ℕ) (digest : String)
    → IsRestored gzip reads image file digest
    → at_eof reads ≡ []
    → (file ≡ image) × (digest ≡ gzip.digest image)
IsRestored-whole gzip reads image file digest v z =
    let whole : v.kept ≡ image = sym (append_nil v.kept) ∙ rw z at v.all_but_last in
    let no_zeros : v.kept ++ zeros (length (at_eof reads)) ≡ v.kept = rw z (append_nil v.kept) in
    (v.own_file ∙ no_zeros ∙ whole, v.own_digest ∙ ap gzip.digest whole)

same_image :
    (gzip : Gzip)
    → IsGzip gzip
    → (before after : ImageFiles) (digests : Files) (path out restored : String) (image : List ℕ)
    → before.open_reply path ≡ ok image
    → let (r, e, written) = compress_file_with_path gzip before path out in
      e ≡ none
      → after.open_reply r.output_file_path ≡ ok written
      → let (d, f, file) =
          decompress_file_with_path gzip after digests r.output_file_path restored
            r.uncompressed_size in
        f ≡ none
        → IsRestored gzip (gzip.reads written) image file d
          × (r.uncompressed_digest ≡ gzip.digest image)
same_image gzip v before after digests path out restored image opened h reopened k =
    let (input, l, (is_written, has_size, has_digest, _)) =
      compress-result gzip before path out h in
    let (compressed, p, m, is_decompressed, (is_digest, is_file)) =
      decompress-result gzip after digests _ restored _ k in
    let same_input : input ≡ image = cc in
    let (r, e, written) = compress_file_with_path gzip before path out in
    let same_file : compressed ≡ written = cc in
    let read_again : given (gzip.reads written) ≡ image =
      rw (is_written, same_input) (v.inverse image) in
    let found =
      exact_size gzip after.output (gzip.reads written) image _ p read_again
        (has_size ∙ v.counts input ∙ ap length same_input) (rw same_file at is_decompressed) in
    (rw (is_file, is_digest) found, has_digest ∙ ap gzip.digest same_input)

-- An image is compressed, and then decompressed from the file that was written, with the
-- uncompressed size that the compression gave. Both calls succeed where the files and the gzip
-- package refuse nothing. If both succeed, the restored image is the first one but for the bytes that
-- the gzip reader returned together with io.EOF, if it did so, in place of which it has zeros; and if
-- there are no such bytes it is the same as the first one, and so is the digest of the uncompressed
-- bytes, wherever the reads are cut and whichever blocks of zeros are left out. The gzip package is
-- taken to read what it has compressed, and to count the bytes that it was given.
pub compress_file_with_path-decompress_file_with_path :
    (gzip : Gzip)
    → IsGzip gzip
    → (before after : ImageFiles) (digests : Files) (path out restored : String) (image : List ℕ)
    → before.open_reply path ≡ ok image
    → let (r, e, written) = compress_file_with_path gzip before path out in
      after.open_reply r.output_file_path ≡ ok written
      → let (d, f, file) =
          decompress_file_with_path gzip after digests r.output_file_path restored
            r.uncompressed_size in
        (RefuseNothing gzip before digests → e ≡ none)
        × (e ≡ none → RefuseNothing gzip after digests → f ≡ none)
        × (e ≡ none → f ≡ none → IsRestored gzip (gzip.reads written) image file d)
        × (e ≡ none
            → f ≡ none
            → at_eof (gzip.reads written) ≡ []
            → (file ≡ image) × (d ≡ r.uncompressed_digest))
compress_file_with_path-decompress_file_with_path gzip v before after digests path out restored
      image opened reopened =
    let (r, e, written) = compress_file_with_path gzip before path out in
    (
      λ w. compress_succeeds gzip before digests w path out image opened,
      λ h w.
          let (input, l, (is_written, _, _, _)) = compress-result gzip before path out h in
          let ends : ReachesEof (gzip.reads written) = rw is_written (v.ends input) in
          decompress_file_succeeds gzip after digests w r.output_file_path restored
            r.uncompressed_size written reopened ends,
      λ h k. (same_image gzip v before after digests path out restored image opened h reopened k).0,
      λ h k z.
          let (restored_as, digest) =
            same_image gzip v before after digests path out restored image opened h reopened k in
          let (same, read_digest) = IsRestored-whole gzip _ image _ _ restored_as z in
          (same, read_digest ∙ sym digest),
    )
