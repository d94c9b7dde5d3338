-- ===== src/Disk/Decompress/Content.antt =====
-- What a decompressed file holds.
use macos_exec_kubelet.Base.{
  ℕ, suc, zero, ◌+◌, ◌-◌, ◌<◌, ◌≤◌, true, List, [], ◌∷◌, ◌++◌, Result, ok, nat_eq, if◌then◌else◌,
  length, take, drop, ◌≡◌, refl, sym, ap, ◌∙◌, inl, inr, arith, length-append, length-take,
  length-drop, take-append-drop, Bool-cases, Result-cases,
}
use macos_exec_kubelet.Disk.Sparse.{
  zeros, write_at, length-zeros, zeros-add, sub_zero, append_nil, append_assoc, write_at-append,
}
use macos_exec_kubelet.Disk.Decompress.{
  Reads, more, eof, failed, cancelled, Output, Progress, bytes_equal, put_block, put_blocks,
  read_all, truncated, decompress, sparse_block_size,
}

-- The bytes that the reads give without io.EOF.
abbrev pub content : Reads → List ℕ
content (more bytes rest) = bytes ++ content rest
content (eof bytes) = []
content (failed e) = []
content (cancelled e) = []

-- All the bytes that the reads give, and those that one gives together with io.EOF.
abbrev pub given : Reads → List ℕ
given (more bytes rest) = bytes ++ given rest
given (eof bytes) = bytes
given (failed e) = []
given (cancelled e) = []

abbrev pub at_eof : Reads → List ℕ
at_eof (more bytes rest) = at_eof rest
at_eof (eof bytes) = bytes
at_eof (failed e) = []
at_eof (cancelled e) = []

pub given-content : (reads : Reads) → given reads ≡ content reads ++ at_eof reads
given-content (more bytes rest) =
    ap (λ (r : List ℕ). bytes ++ r) (given-content rest)
    ∙ sym (append_assoc bytes (content rest) (at_eof rest))
given-content (eof bytes) = refl
given-content (failed e) = refl
given-content (cancelled e) = refl

bytes_equal_eq : (xs ys : List ℕ) → bytes_equal xs ys ≡ true → xs ≡ ys
bytes_equal_eq [] [] h = refl
bytes_equal_eq [] (y ∷ ys) h = cc
bytes_equal_eq (x ∷ xs) [] h = cc
bytes_equal_eq (x ∷ xs) (y ∷ ys) h = ground (arith, bytes_equal_eq xs ys)

-- The bytes so far, in a file that is zeros behind them.
record Holds (size : ℕ) (done : List ℕ) (p : Progress) : Type 0 where
  file : p.file ≡ done ++ zeros (size - length done)
  hashed : p.hashed ≡ done
  offset : p.offset ≡ length done

skip_lem :
    (size block : ℕ) (done chunk : List ℕ)
    → chunk ≡ zeros block
    → length done + length chunk ≤ size
    → done ++ zeros (size - length done) ≡ (done ++ chunk) ++ zeros (size - length (done ++ chunk))
skip_lem size block done chunk z fits =
    let rest = size - length (done ++ chunk) in
    let count : size - length done ≡ length chunk + rest =
      omega (arith, length-append done chunk, fits) in
    let same : zeros (length chunk) ≡ chunk = ap zeros (ap length z ∙ length-zeros block) ∙ sym z in
    ap (λ (r : List ℕ). done ++ r)
      (ap zeros count ∙ zeros-add (length chunk) rest ∙ ap (λ (r : List ℕ). r ++ zeros rest) same)
    ∙ sym (append_assoc done chunk _)

ok_inj : {p q : Progress} → ◌≡◌ {A = Result Progress} (ok p) (ok q) → p ≡ q
ok_inj h = cc

module _ (out : Output) (block size : ℕ) where
  put_block_lem :
      (chunk : List ℕ) (p q : Progress)
      → put_block out block chunk p ≡ ok q
      → (q.file
          ≡ (if bytes_equal chunk (zeros block) then p.file else write_at p.offset chunk p.file))
        × (q.hashed ≡ p.hashed ++ chunk)
        × (q.offset ≡ p.offset + length chunk)
  unfolding put_block
  put_block_lem chunk p q h = ground arith

  put_block-Holds :
      (done chunk : List ℕ) (p q : Progress)
      → length done + length chunk ≤ size
      → Holds size done p
      → put_block out block chunk p ≡ ok q
      → Holds size (done ++ chunk) q
  put_block-Holds done chunk p q fits v h =
      let (file, hashed, offset) = put_block_lem chunk p q h in
      record {
        file = elim (Bool-cases (bytes_equal chunk (zeros block))) [
          | inl z ↦
              rw (file, z, v.file) (skip_lem size block done chunk (bytes_equal_eq chunk _ z) fits)
          | inr n ↦
              rw (file, n, v.file, v.offset)
                (write_at-append done chunk (size - length done)
                  ∙ ap (λ (k : ℕ). (done ++ chunk) ++ zeros k)
                      (omega (arith, length-append done chunk)))
        ];
        hashed = hashed ∙ ap (λ (r : List ℕ). r ++ chunk) v.hashed;
        offset = omega (arith, offset, v.offset, length-append done chunk);
      }

  put_blocks-Holds :
      (fuel : ℕ) (bytes done : List ℕ) (p q : Progress)
      → 0 < block
      → length bytes ≤ fuel
      → length done + length bytes ≤ size
      → Holds size done p
      → put_blocks out block fuel bytes p ≡ ok q
      → Holds size (done ++ bytes) q
  unfolding put_blocks
  put_blocks-Holds fuel [] done p q pos enough fits v h = rw (append_nil done, sym (ok_inj h)) v
  put_blocks-Holds zero (b ∷ bytes) done p q pos enough fits v h = absurd (omega arith)
  put_blocks-Holds (suc fuel) (b ∷ bytes) done p q pos enough fits v h =
      let first = take block (b ∷ bytes) in
      let rest = drop block (b ∷ bytes) in
      elim (Result-cases (put_block out block first p)) [
        | inr (e, l) ↦ absurd (ground arith)
        | inl (r, l) ↦
            let short : length first + length rest ≡ length (b ∷ bytes) =
              omega (arith, length-take block (b ∷ bytes), length-drop block (b ∷ bytes)) in
            let after = put_block-Holds done first p r (omega (arith, short)) v l in
            let next =
              put_blocks-Holds fuel rest (done ++ first) r q pos
                (omega (arith, length-take block (b ∷ bytes), short))
                (omega (arith, short, length-append done first)) after (rw (l, put_blocks) at h) in
            rw (sym (take-append-drop block (b ∷ bytes)), sym (append_assoc done first rest)) next
      ]

  read_all-Holds :
      (reads : Reads) (done : List ℕ) (p q : Progress)
      → 0 < block
      → length done + length (content reads) ≤ size
      → Holds size done p
      → read_all out block reads p ≡ ok q
      → Holds size (done ++ content reads) q
  unfolding read_all
  read_all-Holds (eof bytes) done p q pos fits v h = rw (append_nil done, sym (ok_inj h)) v
  read_all-Holds (failed e) done p q pos fits v h = absurd (ground arith)
  read_all-Holds (cancelled e) done p q pos fits v h = absurd (ground arith)
  read_all-Holds (more bytes rest) done p q pos fits v h =
      elim (Result-cases (put_blocks out block (length bytes) bytes p)) [
        | inr (e, l) ↦ absurd (ground arith)
        | inl (r, l) ↦
            let after =
              put_blocks-Holds (length bytes) bytes done p r pos (omega arith)
                (omega (arith, length-append bytes (content rest))) v l in
            rw (sym (append_assoc done bytes (content rest))) (
              read_all-Holds rest (done ++ bytes) r q pos
                (omega (arith, length-append bytes (content rest), length-append done bytes)) after
                (rw (l, read_all) at h))
      ]

-- A decompression that succeeds has written the bytes that the reads gave without io.EOF, wherever
-- they were cut and whichever blocks were left out, with zeros behind them up to the uncompressed
-- size, and the digest is taken of these bytes; the uncompressed size must not be smaller than their
-- number. Bytes that a read gave together with io.EOF are neither written nor hashed: they are what
-- the hashed bytes lack to be all that the reads gave.
pub decompress-content :
    (out : Output) (reads : Reads) (size : ℕ) (q : Progress)
    → length (content reads) ≤ size
    → decompress out reads size ≡ ok q
    → (q.file ≡ content reads ++ zeros (size - length (content reads)))
      × (q.hashed ≡ content reads)
      × (q.hashed ++ at_eof reads ≡ given reads)
unfolding decompress
decompress-content out reads size q fits h =
    let v =
      read_all-Holds out sparse_block_size size reads [] (truncated size) q (omega arith)
        (omega arith) (record { file = ap zeros (sub_zero size); hashed = refl; offset = refl })
        h in
    (v.file, v.hashed, rw v.hashed (sym (given-content reads)))
