-- ===== src/Disk/Sparse.antt =====
-- Files as lists of bytes, written at an offset (os.File.Truncate, Seek and Write).
use macos_exec_kubelet.Base.{
  ℕ, zero, suc, ◌+◌, ◌-◌, List, [], ◌∷◌, ◌++◌, length, take, drop, ◌≡◌, refl, ap, ◌∙◌, sym, arith,
  length-append,
}

abbrev pub zeros : ℕ → List ℕ
zeros zero = []
zeros (suc n) = 0 ∷ zeros n

-- A write behind the end fills the gap with zeros.
unfoldable pub write_at : ℕ → List ℕ → List ℕ → List ℕ
write_at offset chunk file =
    take offset file
    ++ (zeros (offset - length file) ++ (chunk ++ drop (offset + length chunk) file))

pub length-zeros : (n : ℕ) → length (zeros n) ≡ n
length-zeros zero = refl
length-zeros (suc n) = ap suc (length-zeros n)

sub_suc : (m n : ℕ) → n - m ≡ suc n - suc m
sub_suc m n = omega arith

pub sub_zero : (n : ℕ) → n ≡ n - 0
sub_zero n = omega arith

zero_sub : (n : ℕ) → 0 ≡ 0 - n
zero_sub n = omega arith

drop-zeros : (m n : ℕ) → drop m (zeros n) ≡ zeros (n - m)
drop-zeros zero n = ap zeros (sub_zero n)
drop-zeros (suc m) zero = ap zeros (zero_sub (suc m))
drop-zeros (suc m) (suc n) = drop-zeros m n ∙ ap zeros (sub_suc m n)

suc_add : (m n : ℕ) → suc m + n ≡ suc (m + n)
suc_add m n = omega arith

pub zeros-add : (m n : ℕ) → zeros (m + n) ≡ zeros m ++ zeros n
zeros-add zero n = ap zeros (omega arith)
zeros-add (suc m) n = ap zeros (suc_add m n) ∙ ap (λ (r : List ℕ). 0 ∷ r) (zeros-add m n)

take-append : (xs ys : List ℕ) → take (length xs) (xs ++ ys) ≡ xs
take-append [] ys = refl
take-append (x ∷ xs) ys = ap (λ (r : List ℕ). x ∷ r) (take-append xs ys)

drop-append : (xs ys : List ℕ) (n : ℕ) → drop (length xs + n) (xs ++ ys) ≡ drop n ys
drop-append [] ys n = ap (λ (k : ℕ). drop k ys) (omega arith)
drop-append (x ∷ xs) ys n =
    ap (λ (k : ℕ). drop k (x ∷ xs ++ ys)) (suc_add (length xs) n) ∙ drop-append xs ys n

pub append_nil : (xs : List ℕ) → xs ++ [] ≡ xs
append_nil [] = refl
append_nil (x ∷ xs) = ap (λ (r : List ℕ). x ∷ r) (append_nil xs)

pub append_assoc : (xs ys zs : List ℕ) → (xs ++ ys) ++ zs ≡ xs ++ (ys ++ zs)
append_assoc [] ys zs = refl
append_assoc (x ∷ xs) ys zs = ap (λ (r : List ℕ). x ∷ r) (append_assoc xs ys zs)

-- The next chunk is written behind what is there, over the zeros.
pub write_at-append :
    (done chunk : List ℕ) (n : ℕ)
    → write_at (length done) chunk (done ++ zeros n) ≡ (done ++ chunk) ++ zeros (n - length chunk)
unfolding write_at
write_at-append done chunk n =
    let no_gap : length done - length (done ++ zeros n) ≡ 0 =
      omega (arith, length-append done (zeros n)) in
    rw
      (
        take-append done (zeros n),
        no_gap,
        drop-append done (zeros n) (length chunk),
        drop-zeros (length chunk) n,
      )
      (sym (append_assoc done chunk _))
