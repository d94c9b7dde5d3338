-- ===== src/Disk/Decompress/Success.antt =====
-- When a decompression succeeds.
use macos_exec_kubelet.Base.{
  ℕ, suc, zero, none, List, [], ◌∷◌, ok, length, take, drop, ◌≡◌, refl, arith, Result-cases, inl,
  inr,
}
use macos_exec_kubelet.Disk.Decompress.{
  Reads, more, eof, failed, cancelled, Output, Progress, put_block, put_blocks, read_all, truncated,
  decompress, sparse_block_size,
}

-- The reads come to io.EOF, and the output file refuses nothing.
abbrev pub ReachesEof : Reads → Type 0
ReachesEof (more bytes rest) = ReachesEof rest
ReachesEof (eof bytes) = Unit
ReachesEof (failed e) = ⊥
ReachesEof (cancelled e) = ⊥

pub record IsWritable (out : Output) : Type 0 where
  pub seeks : (o : ℕ) → out.seek_reply o ≡ none
  pub writes : (o : ℕ) (chunk : List ℕ) → out.write_reply o chunk ≡ none

module _ (out : Output) (w : IsWritable out) where
  put_block_succeeds :
      (block : ℕ) (chunk : List ℕ) (p : Progress)
      → (q : Progress) × (put_block out block chunk p ≡ ok q)
  unfolding put_block
  put_block_succeeds block chunk p = elim (Result-cases (put_block out block chunk p)) [
    | inl (q, l) ↦ (q, l)
    | inr (e, l) ↦ absurd (ground (arith, w.seeks p.offset, w.writes p.offset chunk))
  ]

  put_blocks_succeeds :
      (block fuel : ℕ) (bytes : List ℕ) (p : Progress)
      → (q : Progress) × (put_blocks out block fuel bytes p ≡ ok q)
  unfolding put_blocks
  put_blocks_succeeds block fuel [] p = (p, refl)
  put_blocks_succeeds block zero (b ∷ bytes) p = (p, refl)
  put_blocks_succeeds block (suc fuel) (b ∷ bytes) p =
      let (q, e) = put_block_succeeds block (take block (b ∷ bytes)) p in
      let (r, f) = put_blocks_succeeds block fuel (drop block (b ∷ bytes)) q in
      (r, rw (e, put_blocks) f)

  read_all_succeeds :
      (block : ℕ) (reads : Reads) (p : Progress)
      → ReachesEof reads
      → (q : Progress) × (read_all out block reads p ≡ ok q)
  unfolding read_all
  read_all_succeeds block (eof bytes) p end = (p, refl)
  read_all_succeeds block (failed e) p end = absurd end
  read_all_succeeds block (cancelled e) p end = absurd end
  read_all_succeeds block (more bytes rest) p end =
      let (q, e) = put_blocks_succeeds block (length bytes) bytes p in
      let (r, f) = read_all_succeeds block rest q end in (r, rw (e, read_all) f)

  -- A decompression whose reads come to io.EOF, on a file that refuses nothing, succeeds.
  pub decompress_succeeds :
      (reads : Reads) (size : ℕ)
      → ReachesEof reads
      → (q : Progress) × (decompress out reads size ≡ ok q)
  unfolding decompress
  decompress_succeeds reads size end =
      read_all_succeeds sparse_block_size reads (truncated size) end
