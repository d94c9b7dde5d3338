-- ===== src/Ssh/Shell.antt =====
-- How a shell reads a text: a description of the quoting of POSIX and of `$'...'`, which bash and zsh
-- add, as far as nothing is expanded. What it does not describe it refuses.
pub mod Text
pub mod Words
use macos_exec_kubelet.Base.{String, Option, none, some, List, [], ◌∷◌}

-- What a character is to the shell.
pub data Kind : Type 0 where
  space newline double_quote single_quote dollar backquote backslash ordinary other : Kind

-- Where the shell is: before a word, in it, behind a `$` of it, in double quotes, behind a backslash
-- in these, or in `$'...'`.
pub data Mode : Type 0 where
  before in_word after_dollar in_double after_backslash in_ansi : Mode

pub data Effect : Type 0 where
  -- the character belongs to the word, also with a backslash in front of it, or it does not
  keep keep_both skip end_word end_line refuse : Effect

abbrev pub in_a_word : Kind → Mode × Effect
in_a_word double_quote = (in_double, skip)
in_a_word dollar = (after_dollar, skip)
in_a_word ordinary = (in_word, keep)
in_a_word _ = (in_word, refuse)

abbrev pub move : Mode → Kind → Mode × Effect
move before k = in_a_word k
move in_word space = (before, end_word)
move in_word newline = (before, end_line)
move in_word k = in_a_word k
move after_dollar single_quote = (in_ansi, skip)
move after_dollar _ = (in_word, refuse)
move in_double double_quote = (in_word, skip)
move in_double backslash = (after_backslash, skip)
move in_double dollar = (in_double, refuse)
move in_double backquote = (in_double, refuse)
move in_double _ = (in_double, keep)
move after_backslash double_quote = (in_double, keep)
move after_backslash backslash = (in_double, keep)
move after_backslash dollar = (in_double, keep)
move after_backslash backquote = (in_double, keep)
move after_backslash newline = (in_double, skip)
move after_backslash _ = (in_double, keep_both)
move in_ansi single_quote = (in_word, skip)
move in_ansi backslash = (in_ansi, refuse)
move in_ansi _ = (in_ansi, keep)

-- What is read: the rest of a word, the further words of its line, and the further lines.
pub record Reading : Type 0 where
  pub word : String
  pub words : List String
  pub lines : List (List String)

abbrev pub at_end : Mode → Option Reading
at_end in_word = some (record { word = ""; words = []; lines = [] })
at_end _ = none

abbrev pub cut_word : Reading → Reading
cut_word r = record { word = ""; words = r.word ∷ r.words; lines = r.lines }

abbrev pub cut_line : Reading → Reading
cut_line r = record { word = ""; words = []; lines = (r.word ∷ r.words) ∷ r.lines }

abbrev pub all_lines : Reading → List (List String)
all_lines r = (r.word ∷ r.words) ∷ r.lines
