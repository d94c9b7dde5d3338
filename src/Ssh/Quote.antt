-- ===== src/Ssh/Quote.antt =====
-- BuildExportEnvCommand of internal/utils/cmd.go. strconv.Quote is written out; the table of the
-- characters behind ASCII that it takes for printable is a parameter.
pub mod Reading
use macos_exec_kubelet.Base.{
  ℕ, zero, suc, ◌/◌, ◌%◌, Bool, true, false, ◌&&◌, ◌||◌, not, if◌then◌else◌, leb, ltb, ◌==◌, nat_eq,
  ◌<>◌,
}
use Prim.Native.String.{String, [], ◌∷◌, char_at}
use Prim.Native.Char.{Char, code}
use macos_exec_kubelet.Api.{EnvVar}

-- The last digits of a number in base 16.
abbrev hex : ℕ → ℕ → String → String
hex zero n s = s
hex (suc k) n s = hex k (n / 16) (char_at "0123456789abcdef" (n % 16) ∷ s)

-- What strconv.Quote writes for a character that is not printable.
unfoldable pub escape : ℕ → String
escape n =
    if n == 7
    then "\\a"
    else if n == 8
    then "\\b"
    else if n == 9
    then "\\t"
    else if n == 10
    then "\\n"
    else if n == 11
    then "\\v"
    else if n == 12
    then "\\f"
    else if n == 13
    then "\\r"
    else if ltb n 32 || n == 127
    then "\\x" <> hex 2 n ""
    else if ltb n 65536
    then "\\u" <> hex 4 n ""
    else "\\U" <> hex 8 n ""

-- strings.Count(s, "\n") is not 0.
unfoldable pub has_newline : String → Bool
has_newline [] = false
has_newline (c ∷ s) = code c == b'\n' || has_newline s

module _ (is_printable : Char → Bool) where
  -- strconv.IsPrint
  abbrev pub is_print : Char → Bool
  is_print c = if ltb (code c) 127 then leb 32 (code c) else leb 161 (code c) && is_printable c

  unfoldable pub quote_char : Char → String
  unfolding escape
  quote_char c =
      if code c == b'"' || code c == b'\\'
      then "\\" ∷ c ∷ []
      else if is_print c
      then c ∷ []
      else escape (code c)

  unfoldable pub quote_body : String → String
  unfolding quote_char
  quote_body [] = "\""
  quote_body (c ∷ s) = quote_char c <> quote_body s

  -- strconv.Quote
  unfoldable pub quote : String → String
  unfolding quote_body
  quote s = "\"" ∷ quote_body s

  unfoldable pub export_value : String → String
  unfolding quote has_newline
  export_value v =
      if not (has_newline v) then quote v else "$(cat <<'ESCAPE_EOF'\n" <> (v <> "\nESCAPE_EOF\n)")

  unfoldable pub build_export_env_command : EnvVar → String
  unfolding export_value
  build_export_env_command e = "export " <> (e.name <> ("=" <> (export_value e.value <> "\n")))
