-- ===== src/Net/Words.antt =====
-- What the packages strings and unicode do with a line of text. The table of the letters behind ASCII
-- is a parameter.
use macos_exec_kubelet.Base.{
  between, ◌-◌, Bool, true, false, ◌&&◌, ◌||◌, List, ◌==◌, nat_eq, if◌then◌else◌, leb, ltb,
}
use Prim.Native.String.{String, [], ◌∷◌, char_at}
use Prim.Native.Char.{Char, code}

module _ (lower_table : Char → Char) where
  -- unicode.ToLower
  abbrev lower_char : Char → Char
  lower_char c =
      if leb b'A' (code c) && leb (code c) b'Z'
      then char_at "abcdefghijklmnopqrstuvwxyz" (code c - b'A')
      else if ltb (code c) 128
      then c
      else lower_table c

  -- strings.ToLower
  unfoldable pub to_lower : String → String
  to_lower [] = []
  to_lower (c ∷ s) = lower_char c ∷ to_lower s

unfoldable pub has_prefix : String → String → Bool
has_prefix s [] = true
has_prefix [] (d ∷ t) = false
has_prefix (c ∷ s) (d ∷ t) = code c == code d && has_prefix s t

-- strings.Contains
unfoldable pub contains_text : String → String → Bool
unfolding has_prefix
contains_text [] t = has_prefix [] t
contains_text (c ∷ s) t = has_prefix (c ∷ s) t || contains_text s t

-- unicode.IsSpace
unfoldable pub is_space : Char → Bool
is_space c =
    between 0x09 0x0d (code c)
    || (code c == 0x20
        || (code c == 0x85
            || (code c == 0xa0
                || (code c == 0x1680
                    || (between 0x2000 0x200a (code c)
                        || (between 0x2028 0x2029 (code c)
                            || (code c == 0x202f || (code c == 0x205f || code c == 0x3000))))))))

-- The word that a text starts with, which may be empty, and the words behind it.
pub record Words : Type 0 where
  pub first : String
  pub rest : List String

abbrev cons_word : String → List String → List String
cons_word [] words = words
cons_word (c ∷ w) words = List.◌∷◌ (c ∷ w) words

abbrev next_char : Bool → Char → Words → Words
next_char true c w = record { first = []; rest = cons_word w.first w.rest }
next_char false c w = record { first = c ∷ w.first; rest = w.rest }

unfoldable pub words_of : String → Words
unfolding is_space
words_of [] = record { first = []; rest = List.[] }
words_of (c ∷ s) = next_char (is_space c) c (words_of s)

-- strings.Fields
unfoldable pub fields : String → List String
unfolding words_of
fields s = let w = words_of s in cons_word w.first w.rest

abbrev is_parenthesis : Char → Bool
is_parenthesis c = code c == b'(' || code c == b')'

unfoldable pub trim_start : String → String
trim_start [] = []
trim_start (c ∷ s) = let rest = trim_start s in if is_parenthesis c then rest else c ∷ s

unfoldable pub cons_unless_last : Char → String → String
cons_unless_last c [] = if is_parenthesis c then [] else c ∷ []
cons_unless_last c (d ∷ s) = c ∷ d ∷ s

unfoldable pub trim_end : String → String
unfolding cons_unless_last
trim_end [] = []
trim_end (c ∷ s) = cons_unless_last c (trim_end s)

-- strings.Trim(s, "()")
unfoldable pub trim_parentheses : String → String
unfolding trim_start trim_end
trim_parentheses s = trim_end (trim_start s)
