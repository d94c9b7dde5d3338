-- ===== src/Net/Arp.antt =====
-- RetrieveIPFromARPTable of internal/netutil/ip_addr.go: the table is asked for until it has a line
-- of the address. What the command prints each time is a parameter.
pub mod Polls
use macos_exec_kubelet.Base.{
  ℕ, String, Bool, true, false, Option, none, some, List, [], ◌∷◌, Error, Result, ok, err,
  if◌then◌else◌,
}
use Prim.Native.Char.{Char}
use macos_exec_kubelet.Net.Words.{to_lower, contains_text, fields, trim_parentheses}

-- One round of the loop: the context is done, or the command `arp -an` has run, with the lines that
-- the scanner gives of its output.
pub data Poll : Type 0 where
  cancelled : Error → Poll
  ran : Result (List String) → Poll

-- The second field of a line, if there is one, without its parentheses.
abbrev pub second_field : List String → Option String
second_field (first ∷ second ∷ rest) = some (trim_parentheses second)
second_field _ = none

module _ (lower_table : Char → Char) (mac_addr : String) where
  abbrev pub has_address : String → Bool
  has_address line = contains_text (to_lower lower_table line) (to_lower lower_table mac_addr)

  -- What a line gives.
  abbrev pub address_of : String → Option String
  address_of line = if has_address line then second_field (fields line) else none

  abbrev or_found : Option String → Option String → Option String
  or_found none rest = rest
  or_found (some ip) rest = some ip

  unfoldable pub scan : List String → Option String
  scan [] = none
  scan (line ∷ lines) = or_found (address_of line) (scan lines)

  abbrev found_or : Option String → Option (Result String) → Option (Result String)
  found_or none rest = rest
  found_or (some ip) rest = some (ok ip)

  -- What is returned within some rounds of the loop, if it is.
  unfoldable pub retrieve_ip_from_arp_table : List Poll → Option (Result String)
  unfolding scan
  retrieve_ip_from_arp_table [] = none
  retrieve_ip_from_arp_table (cancelled e ∷ polls) = some (err e)
  retrieve_ip_from_arp_table (ran (err e) ∷ polls) = some (err e)
  retrieve_ip_from_arp_table (ran (ok lines) ∷ polls) =
      found_or (scan lines) (retrieve_ip_from_arp_table polls)
