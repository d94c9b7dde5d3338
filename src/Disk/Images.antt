-- ===== src/Disk/Images.antt =====
-- CompressFileWithPath and DecompressFileWithPath of internal/disk/compression.go as a whole, with the
-- files that they open and close. The gzip package and the digest are parameters.
pub mod Success
pub mod RoundTrip
use macos_exec_kubelet.Base.{
  ℕ, String, Option, none, some, List, [], ◌∷◌, Error, join, Result, ok, err, length,
}
use macos_exec_kubelet.Disk.Decompress.{Output, Reads, Progress, decompress}
use macos_exec_kubelet.Disk.Digest.{Files, FileCall, write_digest_file}

pub record CompressionResult : Type 0 where
  pub output_file_path : String
  pub compressed_size : ℕ
  pub uncompressed_size : ℕ
  pub gz_digest : String
  pub uncompressed_digest : String

-- What is returned with an error: Go's zero value.
abbrev pub no_result : CompressionResult
no_result = record {
  output_file_path = "";
  compressed_size = 0;
  uncompressed_size = 0;
  gz_digest = "";
  uncompressed_digest = "";
}

-- pgzip and the digest of a stream: what the writer makes of all its bytes once it is closed, how
-- many bytes it says it was given, and what the reader gives of compressed bytes.
pub record Gzip : Type 0 where
  pub new_writer_reply : Option Error
  pub set_concurrency_reply : Option Error
  pub compress : List ℕ → List ℕ
  pub close_reply : List ℕ → Option Error
  pub uncompressed_size : List ℕ → ℕ
  pub new_reader_reply : List ℕ → Option Error
  pub reads : List ℕ → Reads
  pub digest : List ℕ → String

-- The files of one call. `copy_reply` is the error of io.Copy, of reading as well as of writing.
pub record ImageFiles : Type 0 where
  pub open_reply : String → Result (List ℕ)
  pub close_reply : String → Option Error
  pub copy_reply : Option Error
  pub sync_reply : Option Error
  pub size_reply : List ℕ → Result ℕ
  pub create_reply : String → Option Error
  pub truncate_reply : ℕ → Option Error
  pub output : Output

-- errors.Join(err, f.Close()) of two errors that may be nil.
abbrev pub join_both : Option Error → Option Error → Option Error
join_both none f = f
join_both (some e) f = some (join e f)

module _ (gzip : Gzip) (files : ImageFiles) where
  -- The result, the error, and what the output file holds if there is none.
  abbrev Compressed : Type 0
  Compressed = CompressionResult × Option Error × List ℕ

  abbrev failed : Error → Compressed
  failed e = (no_result, some e, [])

  -- The next step of a chain of calls that return only an error.
  unless : Option Error → Compressed → Compressed
  unless none next = next
  unless (some e) next = failed e

  result_of : String → List ℕ → Result ℕ → Compressed
  result_of out input (err e) = failed e
  result_of out input (ok size) = (
    record {
      output_file_path = out;
      compressed_size = size;
      uncompressed_size = gzip.uncompressed_size input;
      gz_digest = gzip.digest (gzip.compress input);
      uncompressed_digest = gzip.digest input;
    },
    none,
    gzip.compress input,
  )

  -- The writer feeds the output file and the digest of the compressed bytes alike; the bytes that
  -- are read feed the other digest.
  compress_opened : String → List ℕ → Compressed
  unfolding unless result_of
  compress_opened out input = unless gzip.new_writer_reply (
      unless gzip.set_concurrency_reply (
        unless files.copy_reply (
          unless (gzip.close_reply input) (
            unless files.sync_reply
              (result_of out input (files.size_reply (gzip.compress input)))))))

  -- The deferred close of the input file can add an error to a result that stays.
  close_after : String → Compressed → Compressed
  close_after path (r, e, written) = (r, join_both e (files.close_reply path), written)

  compress_from : String → String → Result (List ℕ) → Compressed
  unfolding compress_opened close_after
  compress_from path out (err e) = failed e
  compress_from path out (ok input) = close_after path (compress_opened out input)

  unfoldable pub compress_file_with_path : String → String → Compressed
  unfolding compress_from
  compress_file_with_path path out = compress_from path out (files.open_reply path)

module _ (gzip : Gzip) (files : ImageFiles) (digests : Files) where
  -- The digest, the error, and what the output file holds if there is none.
  abbrev Decompressed : Type 0
  Decompressed = String × Option Error × List ℕ

  with_digest : String → Progress → Option Error × List FileCall → Decompressed
  with_digest out p (none, calls) = (gzip.digest p.hashed, none, p.file)
  with_digest out p (some e, calls) = ("", some e, p.file)

  after_loop : String → Result Progress → Decompressed
  unfolding with_digest
  after_loop out (err e) = ("", some e, [])
  after_loop out (ok p) = with_digest out p (write_digest_file digests out (gzip.digest p.hashed))

  read_compressed : String → List ℕ → ℕ → Option Error → Decompressed
  unfolding after_loop
  read_compressed out compressed size (some e) = ("", some e, [])
  read_compressed out compressed size none =
      after_loop out (decompress files.output (gzip.reads compressed) size)

  truncate_output : String → List ℕ → ℕ → Option Error → Decompressed
  unfolding read_compressed
  truncate_output out compressed size (some e) = ("", some e, [])
  truncate_output out compressed size none =
      read_compressed out compressed size (gzip.new_reader_reply compressed)

  close_file : String → Decompressed → Decompressed
  close_file path (d, e, file) = (d, join_both e (files.close_reply path), file)

  create_output : String → List ℕ → ℕ → Option Error → Decompressed
  unfolding truncate_output close_file
  create_output out compressed size (some e) = ("", some e, [])
  create_output out compressed size none =
      close_file out (truncate_output out compressed size (files.truncate_reply size))

  decompress_from : String → String → ℕ → Result (List ℕ) → Decompressed
  unfolding create_output
  decompress_from path out size (err e) = ("", some e, [])
  decompress_from path out size (ok compressed) =
      close_file path (create_output out compressed size (files.create_reply out))

  unfoldable pub decompress_file_with_path : String → String → ℕ → Decompressed
  unfolding decompress_from
  decompress_file_with_path path out size = decompress_from path out size (files.open_reply path)
