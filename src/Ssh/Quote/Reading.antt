-- ===== src/Ssh/Quote/Reading.antt =====
-- What a shell reads of a text that strconv.Quote has quoted.
use macos_exec_kubelet.Base.{
  Bool, true, false, nat_eq, ℕ_discrete, string_eq, ◌<>◌, ◌==◌, ◌||◌, ◌≡◌, ◌≢◌, refl, arith,
  Bool-cases, inl, inr, ◌⊎◌,
}
use mathlib.Core.Option as Option
use Prim.Native.String.{String, [], ◌∷◌}
use Prim.Native.String.append
use Prim.Native.Char.{Char, code}
use text.Mathlib.TextLemmas.{append_assoc}
use macos_exec_kubelet.Ssh.Quote.{is_print, quote_char, quote_body, quote, has_newline}
use macos_exec_kubelet.Ssh.Shell.{
  Kind, double_quote, dollar, backquote, backslash, before, in_word, in_double, after_backslash,
  keep, move,
}
use macos_exec_kubelet.Ssh.Shell.Text.{kind, push, read}
use macos_exec_kubelet.Ssh.Shell.Words.{Each, prefixed, read_char}

module _ (is_printable : Char → Bool) where
  -- strconv.Quote writes the character so that a shell takes it for itself: it is printable, and
  -- begins no expansion in double quotes.
  abbrev pub IsPlain : Char → Type 0
  IsPlain c = (is_print is_printable c ≡ true) × (kind c ≢ dollar) × (kind c ≢ backquote)

  double_move :
      (k : Kind)
      → k ≢ double_quote
      → k ≢ backslash
      → k ≢ dollar
      → k ≢ backquote
      → move in_double k ≡ (in_double, keep)
  double_move k m n o p = ground arith

  escaped_kind :
      (c : Char)
      → (code c == b'"' || code c == b'\\') ≡ true
      → (kind c ≡ double_quote) ⊎ (kind c ≡ backslash)
  unfolding kind
  escaped_kind c h = ground arith

  unescaped_kind :
      (c : Char)
      → (code c == b'"' || code c == b'\\') ≡ false
      → (kind c ≢ double_quote) × (kind c ≢ backslash)
  unfolding kind
  unescaped_kind c h = (λ p. ground arith, λ p. ground arith)

  quote_char_cases :
      (c : Char)
      → IsPlain c
      → (((kind c ≡ double_quote) ⊎ (kind c ≡ backslash))
          × (quote_char is_printable c ≡ "\\" ∷ c ∷ []))
        ⊎ ((move in_double (kind c) ≡ (in_double, keep)) × (quote_char is_printable c ≡ c ∷ []))
  unfolding quote_char
  quote_char_cases c (printed, m, n) = elim (Bool-cases (code c == b'"' || code c == b'\\')) [
    | inl p ↦ inl (escaped_kind c p, rw p refl)
    | inr p ↦
        let (o, q) = unescaped_kind c p in inr (double_move (kind c) o q m n, rw (p, printed) refl)
  ]

  backslash_kind : kind "\\" ≡ backslash
  unfolding kind nat_eq ℕ_discrete
  backslash_kind = refl

  escaped_move :
      (k : Kind) → (k ≡ double_quote) ⊎ (k ≡ backslash) → move after_backslash k ≡ (in_double, keep)
  escaped_move k h = ground arith

  read_escaped :
      (c : Char) (t : String)
      → (kind c ≡ double_quote) ⊎ (kind c ≡ backslash)
      → read in_double (("\\" ∷ c ∷ []) <> t) ≡ Option.map (push c) (read in_double t)
  read_escaped c t p =
      rw
        (
          read_char in_double "\\" (c ∷ []) t,
          backslash_kind,
          read_char after_backslash c [] t,
          escaped_move (kind c) p,
          append.nil t,
        )
        refl

  read-quote_char :
      (c : Char) (t : String)
      → IsPlain c
      → read in_double (quote_char is_printable c <> t) ≡ Option.map (push c) (read in_double t)
  read-quote_char c t v = elim (quote_char_cases c v) [
    | inl (p, q) ↦ rw q (read_escaped c t p)
    | inr (p, q) ↦ rw (q, read_char in_double c [] t, p, append.nil t) refl
  ]

  closing : (t : String) → read in_double ("\"" <> t) ≡ read in_word t
  unfolding kind nat_eq ℕ_discrete
  closing t = rw (read_char in_double "\"" "" t, append.nil t) refl

  read-quote_body :
      (s t : String)
      → Each IsPlain s
      → read in_double (quote_body is_printable s <> t) ≡ prefixed s (read in_word t)
  unfolding quote_body
  read-quote_body [] t v = closing t
  read-quote_body (c ∷ s) t (p, v) =
      rw
        (
          append_assoc (quote_char is_printable c) (quote_body is_printable s) t,
          read-quote_char c (quote_body is_printable s <> t) p,
          read-quote_body s t v,
        )
        refl

  -- A quoted text as a word, or as the rest of one.
  pub read-quote :
      (s t : String)
      → Each IsPlain s
      → (read before (quote is_printable s <> t) ≡ prefixed s (read in_word t))
        × (read in_word (quote is_printable s <> t) ≡ prefixed s (read in_word t))
  unfolding quote kind nat_eq ℕ_discrete
  read-quote s t v = (
    rw (read_char before "\"" (quote_body is_printable s) t) (read-quote_body s t v),
    rw (read_char in_word "\"" (quote_body is_printable s) t) (read-quote_body s t v),
  )

  pub has_newline-IsPlain : (v : String) → Each IsPlain v → has_newline v ≡ false
  unfolding has_newline
  has_newline-IsPlain [] p = refl
  has_newline-IsPlain (c ∷ s) ((printed, _, _), p) =
      let other : (code c == b'\n') ≡ false = ground arith in
      rw (other, has_newline-IsPlain s p) refl
