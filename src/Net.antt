-- ===== src/Net.antt =====
-- internal/netutil/ifaces.go: the address of the node. Parsing of addresses is a parameter.
pub mod Choice
pub mod Octets
pub mod Mac
pub mod Words
pub mod Arp
pub mod Capture
use macos_exec_kubelet.Base.{
  String, Bool, true, false, ◌&&◌, Option, none, some, List, [], ◌∷◌, not_found, Result, ok, err,
  if◌then◌else◌, not,
}
use text.Mathlib.Text

-- psnet.InterfaceStat
pub record Interface : Type 0 where
  pub name : String
  pub addresses : List String

-- What net.ParseCIDR gives of an address: what To4, IsLoopback and String say of the IP.
pub record Ip : Type 0 where
  pub is_ipv4 : Bool
  pub is_loopback : Bool
  pub text : String

abbrev pub is_ethernet : Interface → Bool
is_ethernet i = Text.starts_with i.name "en"

abbrev pub of_kind : Bool → Interface → Bool
of_kind true i = is_ethernet i
of_kind false i = not (is_ethernet i)

module _ (parse_cidr : String → Option Ip) where
  abbrev usable : Ip → Option String → Option String
  usable ip rest = if ip.is_ipv4 && not ip.is_loopback then some ip.text else rest

  unfoldable pub find_valid_ip : List String → Option String
  find_valid_ip [] = none
  find_valid_ip (a ∷ rest) = elim (parse_cidr a) [
    | none ↦ find_valid_ip rest
    | some ip ↦ usable ip (find_valid_ip rest)
  ]

  or_next : Option String → Option String → Option String
  or_next none rest = rest
  or_next (some ip) rest = some ip

  -- One pass over the interfaces that are ethernet, or over those that are not.
  unfoldable pub pass : Bool → List Interface → Option String
  unfolding or_next
  pass ethernet [] = none
  pass ethernet (i ∷ rest) =
      let next = pass ethernet rest in
      if of_kind ethernet i then or_next (find_valid_ip i.addresses) next else next

  second_pass : List Interface → Option String → Result String
  second_pass ifs (some ip) = ok ip
  second_pass ifs none = elim (pass false ifs) [
    | some ip ↦ ok ip
    | none ↦ err (not_found "no valid IP address found")
  ]

  unfoldable pub get_active_interface : List Interface → Result String
  unfolding pass second_pass
  get_active_interface ifs = second_pass ifs (pass true ifs)
