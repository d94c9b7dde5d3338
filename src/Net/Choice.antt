-- ===== src/Net/Choice.antt =====
-- Which address the node takes.
use macos_exec_kubelet.Base.{
  String, Bool, true, false, ◌&&◌, Option, none, some, List, [], ◌∷◌, Error, ok, err, not, ◌≡◌, ◌⊎◌,
  inl, inr, arith, Option-cases, Bool-cases,
}
use macos_exec_kubelet.Net.{Interface, Ip, of_kind, find_valid_ip, pass, get_active_interface}

module _ (parse_cidr : String → Option Ip) where
  -- An address that parses as IPv4 and is no loopback address.
  abbrev pub IsUsable : String → String → Type 0
  IsUsable ip a =
      (p : Ip) × (parse_cidr a ≡ some p)
      × (p.is_ipv4 ≡ true)
      × (p.is_loopback ≡ false)
      × (p.text ≡ ip)

  abbrev pub NotUsable : String → Type 0
  NotUsable a = (ip : String) → IsUsable ip a → ⊥

  abbrev pub AllAddresses : List String → Type 0
  AllAddresses [] = Unit
  AllAddresses (a ∷ rest) = NotUsable a × AllAddresses rest

  -- The first usable address of a list.
  abbrev pub FirstAddress : String → List String → Type 0
  FirstAddress ip [] = ⊥
  FirstAddress ip (a ∷ rest) = IsUsable ip a ⊎ (NotUsable a × FirstAddress ip rest)

  -- No interface of the kind has a usable address.
  abbrev pub NoneOf : Bool → List Interface → Type 0
  NoneOf b [] = Unit
  NoneOf b (i ∷ rest) = (of_kind b i ≡ true → AllAddresses i.addresses) × NoneOf b rest

  -- The first interface of the kind that has a usable address gives this one first.
  abbrev pub FirstOf : Bool → String → List Interface → Type 0
  FirstOf b ip [] = ⊥
  FirstOf b ip (i ∷ rest) =
      ((of_kind b i ≡ true) × FirstAddress ip i.addresses)
      ⊎ ((of_kind b i ≡ true → AllAddresses i.addresses) × FirstOf b ip rest)

  find_valid_ip-none :
      (addresses : List String) → find_valid_ip parse_cidr addresses ≡ none → AllAddresses addresses
  unfolding find_valid_ip
  find_valid_ip-none [] h = tt
  find_valid_ip-none (a ∷ rest) h = elim (Option-cases (parse_cidr a)) [
    | inl l ↦ (λ ip (p, q, v, n, t). cc, find_valid_ip-none rest (ground arith))
    | inr (p, l) ↦ (λ ip (q, m, v, n, t). ground arith, find_valid_ip-none rest (ground arith))
  ]

  find_valid_ip-FirstAddress :
      (addresses : List String) (ip : String)
      → find_valid_ip parse_cidr addresses ≡ some ip
      → FirstAddress ip addresses
  unfolding find_valid_ip
  find_valid_ip-FirstAddress [] ip h = cc
  find_valid_ip-FirstAddress (a ∷ rest) ip h = elim (Option-cases (parse_cidr a)) [
    | inl l ↦ inr (λ j (p, q, v, n, t). cc, find_valid_ip-FirstAddress rest ip (ground arith))
    | inr (p, l) ↦ elim (Bool-cases (p.is_ipv4 && not p.is_loopback)) [
      | inl good ↦ inl (p, l, ground arith, ground arith, ground arith)
      | inr bad ↦
          inr (λ j (q, m, v, n, t). ground arith, find_valid_ip-FirstAddress rest ip (ground arith))
    ]
  ]

  pass-NoneOf : (b : Bool) (ifs : List Interface) → pass parse_cidr b ifs ≡ none → NoneOf b ifs
  unfolding pass
  pass-NoneOf b [] h = tt
  pass-NoneOf b (i ∷ rest) h = elim (Bool-cases (of_kind b i)) [
    | inl k ↦
        (λ _. find_valid_ip-none i.addresses (ground arith), pass-NoneOf b rest (ground arith))
    | inr k ↦ (λ l. cc, pass-NoneOf b rest (ground arith))
  ]

  pass-FirstOf :
      (b : Bool) (ifs : List Interface) (ip : String)
      → pass parse_cidr b ifs ≡ some ip
      → FirstOf b ip ifs
  unfolding pass
  pass-FirstOf b [] ip h = cc
  pass-FirstOf b (i ∷ rest) ip h = elim (Bool-cases (of_kind b i)) [
    | inl k ↦ elim (Option-cases (find_valid_ip parse_cidr i.addresses)) [
      | inl l ↦ inr (λ _. find_valid_ip-none i.addresses l, pass-FirstOf b rest ip (ground arith))
      | inr (j, l) ↦ inl (k, find_valid_ip-FirstAddress i.addresses ip (ground arith))
    ]
    | inr k ↦ inr (λ l. cc, pass-FirstOf b rest ip (ground arith))
  ]

  -- The address of the node is the first usable one of the first ethernet interface that has one;
  -- if none has, of the first other interface that has one; and where there is an error, no
  -- interface has a usable address.
  pub get_active_interface-FirstOf :
      (ifs : List Interface)
      → ((ip : String)
          → get_active_interface parse_cidr ifs ≡ ok ip
          → FirstOf true ip ifs ⊎ (NoneOf true ifs × FirstOf false ip ifs))
        × ((e : Error)
            → get_active_interface parse_cidr ifs ≡ err e
            → NoneOf true ifs × NoneOf false ifs)
  unfolding get_active_interface
  get_active_interface-FirstOf ifs = (
    λ ip h. elim (Option-cases (pass parse_cidr true ifs)) [
      | inr (j, l) ↦ inl (pass-FirstOf true ifs ip (ground arith))
      | inl l ↦ elim (Option-cases (pass parse_cidr false ifs)) [
        | inl m ↦ absurd (ground arith)
        | inr (j, m) ↦ inr (pass-NoneOf true ifs l, pass-FirstOf false ifs ip (ground arith))
      ]
    ],
    λ e h. elim (Option-cases (pass parse_cidr true ifs)) [
      | inr (j, l) ↦ absurd (ground arith)
      | inl l ↦ elim (Option-cases (pass parse_cidr false ifs)) [
        | inl m ↦ (pass-NoneOf true ifs l, pass-NoneOf false ifs m)
        | inr (j, m) ↦ absurd (ground arith)
      ]
    ],
  )
