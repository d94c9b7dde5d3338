-- ===== src/Net/Octets.antt =====
-- Splitting a text at its colons, and its parts.
use macos_exec_kubelet.Base.{ℕ, ◌/◌, ◌%◌, ◌&&◌, List, ◌==◌, nat_eq, if◌then◌else◌, ltb}
use Prim.Native.String.{String, [], ◌∷◌, char_at}
use Prim.Native.Char.{code}

-- What strings.Split gives: there is always a first part.
pub record Parts : Type 0 where
  pub first : String
  pub rest : List String

abbrev cons_part : String → List String → List String
cons_part part parts = List.◌∷◌ part parts

unfoldable pub split : String → Parts
split [] = record { first = []; rest = List.[] }
split (c ∷ s) =
    let parts = split s in
    if code c == b':'
    then record { first = []; rest = cons_part parts.first parts.rest }
    else record { first = c ∷ parts.first; rest = parts.rest }

-- The length of a part is counted in bytes.
unfoldable pub strip_zero : String → String
strip_zero (c ∷ d ∷ []) = if code c == b'0' && ltb (code d) 128 then d ∷ [] else c ∷ d ∷ []
strip_zero part = part

-- A byte as two digits in base 16.
abbrev pub hex_byte : ℕ → String
hex_byte b = char_at "0123456789abcdef" (b / 16) ∷ char_at "0123456789abcdef" (b % 16) ∷ []
