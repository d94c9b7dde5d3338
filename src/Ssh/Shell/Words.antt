-- ===== src/Ssh/Shell/Words.antt =====
-- How words, quoted or not, are read.
use macos_exec_kubelet.Base.{nat_eq, ℕ_discrete, ◌<>◌, Option, some, ◌≡◌, ◌≢◌, refl, arith}
use mathlib.Core.Option as Option
use Prim.Native.String.{String, [], ◌∷◌}
use Prim.Native.String.append
use Prim.Native.Char.{Char}
use macos_exec_kubelet.Ssh.Shell.{
  Kind, single_quote, backslash, ordinary, Mode, before, in_word, after_dollar, in_ansi, keep, move,
  Reading, cut_word, cut_line,
}
use macos_exec_kubelet.Ssh.Shell.Text.{kind, push, act, read}

-- Every character has a property.
abbrev pub Each : (Char → Type 0) → String → Type 0
Each P [] = Unit
Each P (c ∷ s) = P c × Each P s

abbrev pub IsOrdinary : Char → Type 0
IsOrdinary c = kind c ≡ ordinary

-- In `$'...'` the character stands for itself.
abbrev pub IsRaw : Char → Type 0
IsRaw c = (kind c ≢ single_quote) × (kind c ≢ backslash)

abbrev pub prefixed : String → Option Reading → Option Reading
prefixed [] r = r
prefixed (c ∷ w) r = Option.map (push c) (prefixed w r)

pub prefixed-some :
    (w : String) (r : Reading) → prefixed w (some r) ≡ some (record r { word = w <> r.word })
prefixed-some [] r = rw (append.nil r.word) refl
prefixed-some (c ∷ w) r = rw (prefixed-some w r, append.cons c w r.word) refl

pub read_char :
    (m : Mode) (c : Char) (s t : String)
    → read m ((c ∷ s) <> t)
      ≡ (let (next, effect) = move m (kind c) in act effect c (read next (s <> t)))
unfolding read
read_char m c s t = rw (append.cons c s t) refl

read_end : (m : Mode) (t : String) → read m ([] <> t) ≡ read m t
read_end m t = rw (append.nil t) refl

pub read-ordinary :
    (w t : String) → Each IsOrdinary w → read in_word (w <> t) ≡ prefixed w (read in_word t)
read-ordinary [] t v = read_end in_word t
read-ordinary (c ∷ w) t (p, v) = rw (read_char in_word c w t, p, read-ordinary w t v) refl

raw_move : (k : Kind) → k ≢ single_quote → k ≢ backslash → move in_ansi k ≡ (in_ansi, keep)
raw_move k m n = ground arith

pub read-raw : (w t : String) → Each IsRaw w → read in_ansi (w <> t) ≡ prefixed w (read in_ansi t)
read-raw [] t v = read_end in_ansi t
read-raw (c ∷ w) t ((m, n), v) =
    rw (read_char in_ansi c w t, raw_move (kind c) m n, read-raw w t v) refl

-- A character that begins a word, or ends it.
pub read_space : (t : String) → read in_word (" " <> t) ≡ Option.map cut_word (read before t)
unfolding kind nat_eq ℕ_discrete
read_space t = rw (read_char in_word " " "" t, append.nil t) refl

pub read_newline : (t : String) → read in_word ("\n" <> t) ≡ Option.map cut_line (read before t)
unfolding kind nat_eq ℕ_discrete
read_newline t = rw (read_char in_word "\n" "" t, append.nil t) refl

pub read_first :
    (w t : String) → w ≢ "" → Each IsOrdinary w → read before (w <> t) ≡ prefixed w (read in_word t)
read_first [] t n v = absurd (n refl)
read_first (c ∷ w) t n (p, v) = rw (read_char before c w t, p, read-ordinary w t v) refl

-- The text of a word in `$'...'`, with the space in front of it.
open_ansi : (t : String) → read in_word (" $'" <> t) ≡ Option.map cut_word (read in_ansi t)
unfolding kind nat_eq ℕ_discrete
open_ansi t =
    rw
      (
        read_char in_word " " "$'" t,
        read_char before "$" "'" t,
        read_char after_dollar "'" "" t,
        append.nil t,
      )
      refl

close_ansi : (t : String) → read in_ansi ("'" <> t) ≡ read in_word t
unfolding kind nat_eq ℕ_discrete
close_ansi t = rw (read_char in_ansi "'" "" t, append.nil t) refl

pub read_ansi :
    (w t : String)
    → Each IsRaw w
    → read in_word (" $'" <> (w <> ("'" <> t))) ≡ Option.map cut_word (prefixed w (read in_word t))
read_ansi w t v = rw (open_ansi (w <> ("'" <> t)), read-raw w ("'" <> t) v, close_ansi t) refl
