-- ===== src/Label.antt =====
-- internal/utils/apple_cpu.go: the CPU model as the value of a Kubernetes label.
pub mod Shape
use macos_exec_kubelet.Base.{
  between, ℕ, zero, suc, Bool, true, false, ◌&&◌, ◌||◌, not, if◌then◌else◌, leb, ◌==◌, nat_eq,
}
use Prim.Native.String.{String, [], ◌∷◌}
use Prim.Native.Char.{Char, code}
use text.Mathlib.Text

abbrev pub is_alphanumeric : Char → Bool
is_alphanumeric c =
    between b'0' b'9' (code c) || (between b'A' b'Z' (code c) || between b'a' b'z' (code c))

-- The characters `_`, `-` and `.`
abbrev pub is_separator : Char → Bool
is_separator c = code c == b'_' || (code c == b'-' || code c == b'.')

-- What the class `[^a-zA-Z0-9_.-]` leaves out.
abbrev pub is_label_char : Char → Bool
is_label_char c = is_alphanumeric c || is_separator c

-- strings.ReplaceAll(name, "Apple ", ""). The number counts the characters left to skip.
unfoldable pub remove_prefix : ℕ → String → String
remove_prefix n [] = []
remove_prefix (suc n) (c ∷ s) = remove_prefix n s
remove_prefix zero (c ∷ s) =
    let matched = remove_prefix 5 s in
    let other = remove_prefix zero s in
    if Text.starts_with (c ∷ s) "Apple " then matched else c ∷ other

-- ReplaceAllString with `_` for each run of other characters. The flag says that one is under way.
unfoldable pub replace_invalid : Bool → String → String
replace_invalid in_run [] = []
replace_invalid in_run (c ∷ s) =
    let plain = replace_invalid false s in
    let run = replace_invalid true s in
    if is_label_char c then c ∷ plain else if in_run then run else "_" ∷ run

-- strings.Trim(model, "_-."): at the start, and at the end.
unfoldable pub trim_left : String → String
trim_left [] = []
trim_left (c ∷ s) = let rest = trim_left s in if is_separator c then rest else c ∷ s

unfoldable pub cons_unless_trailing : Char → String → String
cons_unless_trailing c [] = if is_separator c then [] else c ∷ []
cons_unless_trailing c (d ∷ s) = c ∷ d ∷ s

unfoldable pub trim_right : String → String
unfolding cons_unless_trailing
trim_right [] = []
trim_right (c ∷ s) = cons_unless_trailing c (trim_right s)

unfoldable pub sanitize_apple_cpu_model : String → String
unfolding remove_prefix replace_invalid trim_left trim_right
sanitize_apple_cpu_model name =
    trim_right (trim_left (replace_invalid false (remove_prefix 0 name)))
