-- ===== src/Ssh/Shell/Text.antt =====
-- The shell on a text.
use macos_exec_kubelet.Base.{ℕ, Bool, ◌||◌, if◌then◌else◌, ◌==◌, nat_eq, Option, none, List}
use mathlib.Core.Option as Option
use Prim.Native.String.{String, [], ◌∷◌}
use Prim.Native.Char.{Char, code}
use macos_exec_kubelet.Label.{is_alphanumeric}
use macos_exec_kubelet.Ssh.Shell.{
  Kind, space, newline, double_quote, single_quote, dollar, backquote, backslash, ordinary, other,
  Mode, before, Effect, keep, keep_both, skip, end_word, end_line, refuse, move, Reading, at_end,
  cut_word, cut_line, all_lines,
}

-- The characters `_`, `-`, `.`, `/` and `=`, which are not special to a shell.
abbrev is_harmless : ℕ → Bool
is_harmless n = n == b'_' || (n == b'-' || (n == b'.' || (n == b'/' || n == b'=')))

unfoldable pub kind : Char → Kind
kind c =
    if code c == b' '
    then space
    else if code c == b'\n'
    then newline
    else if code c == b'"'
    then double_quote
    else if code c == b'\''
    then single_quote
    else if code c == b'$'
    then dollar
    else if code c == b'`'
    then backquote
    else if code c == b'\\'
    then backslash
    else if is_alphanumeric c || is_harmless (code c)
    then ordinary
    else other

abbrev pub push : Char → Reading → Reading
push c r = record r { word = c ∷ r.word }

abbrev pub act : Effect → Char → Option Reading → Option Reading
act keep c r = Option.map (push c) r
act keep_both c r = Option.map (λ q. push "\\" (push c q)) r
act skip c r = r
act end_word c r = Option.map cut_word r
act end_line c r = Option.map cut_line r
act refuse c r = none

unfoldable pub read : Mode → String → Option Reading
unfolding kind
read m [] = at_end m
read m (c ∷ s) = let (next, effect) = move m (kind c) in act effect c (read next s)

-- The lines of a text, each as its words.
abbrev pub read_lines : String → Option (List (List String))
read_lines s = Option.map all_lines (read before s)
