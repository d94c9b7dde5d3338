-- ===== src/Tests/Images.antt =====
-- An image that is compressed and decompressed again, on a concrete one.
use macos_exec_kubelet.Base.{
  nat_eq, ℕ, none, List, [], ◌∷◌, true, ap, message, ok, err, length, ◌≡◌, refl,
}
use macos_exec_kubelet.Disk.Decompress.{Reads, more, eof, failed}
use macos_exec_kubelet.Disk.Decompress.Content.{given, at_eof}
use macos_exec_kubelet.Disk.Digest.{Files}
use macos_exec_kubelet.Disk.Images.{
  Gzip, ImageFiles, compress_file_with_path, decompress_file_with_path,
}
use macos_exec_kubelet.Disk.Decompress.Success.{ReachesEof}
use macos_exec_kubelet.Disk.Images.Success.{RefuseNothing}
use macos_exec_kubelet.Disk.Images.RoundTrip.{
  IsGzip, IsRestored, compress_file_with_path-decompress_file_with_path,
}

-- A stand-in for the package: one byte of header, and a read for every byte.
abbrev read_bytes : List ℕ → Reads
read_bytes [] = eof []
read_bytes (b ∷ bytes) = more (b ∷ []) (read_bytes bytes)

abbrev read_file : List ℕ → Reads
read_file [] = failed (message "unexpected EOF")
read_file (header ∷ bytes) = read_bytes bytes

abbrev stored : Gzip
stored = record {
  new_writer_reply = none;
  set_concurrency_reply = none;
  compress = λ bytes. 31 ∷ bytes;
  close_reply = λ bytes. none;
  uncompressed_size = length;
  new_reader_reply = λ bytes. none;
  reads = read_file;
  digest = λ bytes. "sha256";
}

given-read_bytes : (bytes : List ℕ) → given (read_bytes bytes) ≡ bytes
given-read_bytes [] = refl
given-read_bytes (b ∷ bytes) = ap (λ (r : List ℕ). b ∷ r) (given-read_bytes bytes)

ReachesEof-read_bytes : (bytes : List ℕ) → ReachesEof (read_bytes bytes)
ReachesEof-read_bytes [] = tt
ReachesEof-read_bytes (b ∷ bytes) = ReachesEof-read_bytes bytes

stored-IsGzip : IsGzip stored
stored-IsGzip = record {
  inverse = given-read_bytes;
  ends = ReachesEof-read_bytes;
  counts = λ bytes. refl;
}

abbrev image : List ℕ
image = 1 ∷ 0 ∷ 2 ∷ []

abbrev holding : List ℕ → ImageFiles
holding bytes = record {
  open_reply = λ path. ok bytes;
  close_reply = λ path. none;
  copy_reply = none;
  sync_reply = none;
  size_reply = λ written. ok (length written);
  create_reply = λ path. none;
  truncate_reply = λ size. none;
  output = record { seek_reply = λ offset. none; write_reply = λ offset chunk. none };
}

abbrev files : Files
files = record {
  stat = λ path. err (message "no such file");
  is_not_exist = λ e. true;
  read_file = λ path. err (message "no such file");
  open_reply = λ path. none;
  copy_reply = λ path. ok [];
  create_reply = λ path. none;
  write_reply = λ path s. none;
  close_reply = λ path. none;
  verified = λ d bytes. true;
}

holding-RefuseNothing : (bytes : List ℕ) → RefuseNothing stored (holding bytes) files
holding-RefuseNothing bytes = record {
  new_writer = refl;
  concurrency = refl;
  closes_writer = λ _. refl;
  new_reader = λ _. refl;
  copies = refl;
  syncs = refl;
  has_size = λ written. (length written, refl);
  closes = λ _. refl;
  creates = λ _. refl;
  truncates = λ _. refl;
  writable = record { seeks = λ o. refl; writes = λ o chunk. refl };
  creates_digest = λ _. refl;
  writes_digest = λ _ d. refl;
  closes_digest = λ _. refl;
}

compress_file_with_path-decompress_file_with_path_example :
    let (r, e, written) = compress_file_with_path stored (holding image) "disk.img" "disk.gz" in
    let (d, f, file) =
      decompress_file_with_path stored
        (holding (31 ∷ image))
        files
        r.output_file_path
        "disk.new"
        r.uncompressed_size in
    (RefuseNothing stored (holding image) files → e ≡ none)
    × (e ≡ none → RefuseNothing stored (holding (31 ∷ image)) files → f ≡ none)
    × (e ≡ none → f ≡ none → IsRestored stored (read_file written) image file d)
    × (e ≡ none
        → f ≡ none
        → at_eof (read_file written) ≡ []
        → (file ≡ image) × (d ≡ r.uncompressed_digest))
unfolding compress_file_with_path
compress_file_with_path-decompress_file_with_path_example =
    compress_file_with_path-decompress_file_with_path stored stored-IsGzip (holding image)
      (holding (31 ∷ image)) files "disk.img" "disk.gz" "disk.new" image refl refl
