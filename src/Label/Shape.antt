-- ===== src/Label/Shape.antt =====
-- The shape of a sanitized label value.
use macos_exec_kubelet.Base.{
  Bool, true, false, if◌then◌else◌, ◌≡◌, refl, arith, Bool-cases, inl, inr, nat_eq, ℕ_discrete,
}
use Prim.Native.String.{String, [], ◌∷◌}
use Prim.Native.Char.{Char}
use macos_exec_kubelet.Label.{
  is_alphanumeric, is_separator, is_label_char, remove_prefix, replace_invalid, trim_left,
  cons_unless_trailing, trim_right, sanitize_apple_cpu_model,
}

abbrev pub AllLabelChars : String → Type 0
AllLabelChars [] = Unit
AllLabelChars (c ∷ s) = (is_label_char c ≡ true) × AllLabelChars s

abbrev pub StartsAlphanumeric : String → Type 0
StartsAlphanumeric [] = Unit
StartsAlphanumeric (c ∷ s) = is_alphanumeric c ≡ true

abbrev pub EndsAlphanumeric : String → Type 0
EndsAlphanumeric [] = Unit
EndsAlphanumeric (c ∷ []) = is_alphanumeric c ≡ true
EndsAlphanumeric (c ∷ d ∷ s) = EndsAlphanumeric (d ∷ s)

-- What Kubernetes asks of the characters of a label value.
pub record IsLabelValue (s : String) : Type 0 where
  pub characters : AllLabelChars s
  pub start : StartsAlphanumeric s
  pub end : EndsAlphanumeric s

underscore_lem : is_label_char "_" ≡ true
unfolding nat_eq ℕ_discrete
underscore_lem = refl

run_lem :
    (in_run : Bool) (rest : String)
    → AllLabelChars rest
    → AllLabelChars (if in_run then rest else "_" ∷ rest)
run_lem true rest v = v
run_lem false rest v = (underscore_lem, v)

replace_invalid-AllLabelChars : (b : Bool) (s : String) → AllLabelChars (replace_invalid b s)
unfolding replace_invalid
replace_invalid-AllLabelChars b [] = tt
replace_invalid-AllLabelChars b (c ∷ s) = elim (Bool-cases (is_label_char c)) [
  | inl p ↦ rw p (p, replace_invalid-AllLabelChars false s)
  | inr p ↦ rw p (run_lem b (replace_invalid true s) (replace_invalid-AllLabelChars true s))
]

trim_left-AllLabelChars : (s : String) → AllLabelChars s → AllLabelChars (trim_left s)
unfolding trim_left
trim_left-AllLabelChars [] v = tt
trim_left-AllLabelChars (c ∷ s) (p, v) = elim (Bool-cases (is_separator c)) [
  | inl q ↦ rw q (trim_left-AllLabelChars s v)
  | inr q ↦ rw q (p, v)
]

trim_left-StartsAlphanumeric : (s : String) → AllLabelChars s → StartsAlphanumeric (trim_left s)
unfolding trim_left
trim_left-StartsAlphanumeric [] v = tt
trim_left-StartsAlphanumeric (c ∷ s) (p, v) = elim (Bool-cases (is_separator c)) [
  | inl q ↦ rw q (trim_left-StartsAlphanumeric s v)
  | inr q ↦ rw q (ground arith)
]

cons_unless_trailing-AllLabelChars :
    (c : Char) (s : String)
    → is_label_char c ≡ true
    → AllLabelChars s
    → AllLabelChars (cons_unless_trailing c s)
unfolding cons_unless_trailing
cons_unless_trailing-AllLabelChars c [] p v = elim (Bool-cases (is_separator c)) [
  | inl q ↦ rw q tt
  | inr q ↦ rw q (p, tt)
]
cons_unless_trailing-AllLabelChars c (d ∷ s) p v = (p, v)

cons_unless_trailing-EndsAlphanumeric :
    (c : Char) (s : String)
    → is_label_char c ≡ true
    → EndsAlphanumeric s
    → EndsAlphanumeric (cons_unless_trailing c s)
unfolding cons_unless_trailing
cons_unless_trailing-EndsAlphanumeric c [] p v = elim (Bool-cases (is_separator c)) [
  | inl q ↦ rw q tt
  | inr q ↦ rw q (ground arith)
]
cons_unless_trailing-EndsAlphanumeric c (d ∷ s) p v = v

cons_unless_trailing-StartsAlphanumeric :
    (c : Char) (s : String)
    → is_alphanumeric c ≡ true
    → StartsAlphanumeric (cons_unless_trailing c s)
unfolding cons_unless_trailing
cons_unless_trailing-StartsAlphanumeric c [] p = elim (Bool-cases (is_separator c)) [
  | inl q ↦ rw q tt
  | inr q ↦ rw q p
]
cons_unless_trailing-StartsAlphanumeric c (d ∷ s) p = p

trim_right-AllLabelChars : (s : String) → AllLabelChars s → AllLabelChars (trim_right s)
unfolding trim_right
trim_right-AllLabelChars [] v = tt
trim_right-AllLabelChars (c ∷ s) (p, v) =
    cons_unless_trailing-AllLabelChars c (trim_right s) p (trim_right-AllLabelChars s v)

trim_right-EndsAlphanumeric : (s : String) → AllLabelChars s → EndsAlphanumeric (trim_right s)
unfolding trim_right
trim_right-EndsAlphanumeric [] v = tt
trim_right-EndsAlphanumeric (c ∷ s) (p, v) =
    cons_unless_trailing-EndsAlphanumeric c (trim_right s) p (trim_right-EndsAlphanumeric s v)

trim_right-StartsAlphanumeric :
    (s : String) → StartsAlphanumeric s → StartsAlphanumeric (trim_right s)
unfolding trim_right
trim_right-StartsAlphanumeric [] v = tt
trim_right-StartsAlphanumeric (c ∷ s) p = cons_unless_trailing-StartsAlphanumeric c (trim_right s) p

-- Whatever the name of the CPU, the label value has only the characters that Kubernetes allows in
-- one, and starts and ends with a letter or a digit, or is empty.
pub sanitize_apple_cpu_model-IsLabelValue :
    (name : String) → IsLabelValue (sanitize_apple_cpu_model name)
unfolding sanitize_apple_cpu_model
sanitize_apple_cpu_model-IsLabelValue name =
    let model = replace_invalid false (remove_prefix 0 name) in
    let v = replace_invalid-AllLabelChars false (remove_prefix 0 name) in
    let w = trim_left-AllLabelChars model v in
    record {
      characters = trim_right-AllLabelChars (trim_left model) w;
      start =
          trim_right-StartsAlphanumeric (trim_left model) (trim_left-StartsAlphanumeric model v);
      end = trim_right-EndsAlphanumeric (trim_left model) w;
    }
