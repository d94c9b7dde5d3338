-- ===== src/Disk/Decompress.antt =====
-- DecompressFileWithPath of internal/disk/compression.go: the loop that reads the uncompressed
-- bytes and leaves out blocks of zeros. What the gzip reader returns is a parameter.
pub mod Content
pub mod Success
use macos_exec_kubelet.Base.{
  ℕ, suc, zero, ◌+◌, Bool, true, false, Option, none, some, List, [], ◌∷◌, ◌++◌, Error, wrap,
  Result, ok, err, ◌==◌, nat_eq, ◌&&◌, if◌then◌else◌, length, take, drop,
}
use macos_exec_kubelet.Disk.Sparse.{zeros, write_at}

-- The rounds of the loop. A read gives bytes, or ends the loop: with io.EOF, together with which
-- `Read` may give bytes, with another error, or because the context is done.
pub data Reads : Type 0 where
  more : List ℕ → Reads → Reads
  eof : List ℕ → Reads
  failed : Error → Reads
  cancelled : Error → Reads

-- The replies of the output file to Seek and Write.
pub record Output : Type 0 where
  pub seek_reply : ℕ → Option Error
  pub write_reply : ℕ → List ℕ → Option Error

-- The variables of the loop: the file, the bytes that went to the hash, and the offset.
pub record Progress : Type 0 where
  pub file : List ℕ
  pub hashed : List ℕ
  pub offset : ℕ

-- bytes.Equal
abbrev pub bytes_equal : List ℕ → List ℕ → Bool
bytes_equal [] [] = true
bytes_equal [] (y ∷ ys) = false
bytes_equal (x ∷ xs) [] = false
bytes_equal (x ∷ xs) (y ∷ ys) = x == y && bytes_equal xs ys

abbrev pub sparse_block_size : ℕ
sparse_block_size = 65536

module _ (out : Output) (block : ℕ) where
  after_write : List ℕ → Option Error → Progress → Result Progress
  after_write chunk (some e) p = err (wrap "failed to write to output file" e)
  after_write chunk none p = ok (record p { file = write_at p.offset chunk p.file })

  after_seek : List ℕ → Option Error → Progress → Result Progress
  unfolding after_write
  after_seek chunk (some e) p = err (wrap "failed to seek in output file" e)
  after_seek chunk none p = after_write chunk (out.write_reply p.offset chunk) p

  -- A block of zeros is not written.
  unfoldable pub put_chunk : List ℕ → Progress → Result Progress
  unfolding after_seek
  put_chunk chunk p =
      if bytes_equal chunk (zeros block) then ok p else after_seek chunk (out.seek_reply p.offset) p

  advance : List ℕ → Result Progress → Result Progress
  advance chunk (err e) = err e
  advance chunk (ok p) = ok (record p { offset = p.offset + length chunk })

  -- One block: to the hash, then to the file, then the offset moves.
  unfoldable pub put_block : List ℕ → Progress → Result Progress
  unfolding put_chunk advance
  put_block chunk p = advance chunk (put_chunk chunk (record p { hashed = p.hashed ++ chunk }))

  -- The inner loop over the bytes of one read, with fuel for each block.
  unfoldable pub put_blocks : ℕ → List ℕ → Progress → Result Progress
  put_blocks fuel [] p = ok p
  put_blocks zero (b ∷ bytes) p = ok p
  put_blocks (suc fuel) (b ∷ bytes) p = elim (put_block (take block (b ∷ bytes)) p) [
    | err e ↦ err e
    | ok q ↦ put_blocks fuel (drop block (b ∷ bytes)) q
  ]

  -- The outer loop. The bytes that come with io.EOF are not used.
  unfoldable pub read_all : Reads → Progress → Result Progress
  unfolding put_blocks
  read_all (eof bytes) p = ok p
  read_all (failed e) p = err e
  read_all (cancelled e) p = err e
  read_all (more bytes rest) p = elim (put_blocks (length bytes) bytes p) [
    | err e ↦ err e
    | ok q ↦ read_all rest q
  ]

-- The file starts as zeros of the uncompressed size.
abbrev pub truncated : ℕ → Progress
truncated size = record { file = zeros size; hashed = []; offset = 0 }

-- The file and the bytes that the digest is taken of.
unfoldable pub decompress : Output → Reads → ℕ → Result Progress
unfolding read_all
decompress out reads size = read_all out sparse_block_size reads (truncated size)
