-- ===== src/Net/Arp/Polls.antt =====
-- When RetrieveIPFromARPTable returns, and what.
use macos_exec_kubelet.Base.{
  String, none, some, List, [], ◌∷◌, ◌++◌, Result, ok, err, ◌≡◌, ◌↔◌, refl, ap, sym, ◌∙◌, ◌⊎◌, inl,
  inr, Option-cases,
}
use mathlib.Core.Path.{subst}
use mathlib.Core.List.{append-nil}
use Prim.Native.Char.{Char}
use macos_exec_kubelet.Net.Arp.{Poll, cancelled, ran, address_of, scan, retrieve_ip_from_arp_table}

module _ (lower_table : Char → Char) (mac_addr : String) where
  -- No line gives an address.
  abbrev pub NoneOf : List String → Type 0
  NoneOf [] = Unit
  NoneOf (line ∷ lines) = (address_of lower_table mac_addr line ≡ none) × NoneOf lines

  -- The first line that gives one gives this.
  abbrev pub FirstOf : String → List String → Type 0
  FirstOf ip lines =
      (before : List String) × (line : String) × (after : List String) × (lines
        ≡ before ++ line ∷ after)
      × NoneOf before
      × (address_of lower_table mac_addr line ≡ some ip)

  -- A round that ends the loop, with what is returned.
  abbrev pub Ends : Poll → Result String → Type 0
  Ends (cancelled e) r = r ≡ err e
  Ends (ran (err e)) r = r ≡ err e
  Ends (ran (ok lines)) r = (ip : String) × (r ≡ ok ip) × FirstOf ip lines

  -- A round that does not.
  abbrev pub GoesOn : Poll → Type 0
  GoesOn (cancelled e) = ⊥
  GoesOn (ran (err e)) = ⊥
  GoesOn (ran (ok lines)) = NoneOf lines

  abbrev pub AllGoOn : List Poll → Type 0
  AllGoOn [] = Unit
  AllGoOn (poll ∷ polls) = GoesOn poll × AllGoOn polls

  scan-cases :
      (lines : List String)
      → ((scan lower_table mac_addr lines ≡ none) × NoneOf lines)
        ⊎ ((ip : String) × (scan lower_table mac_addr lines ≡ some ip) × FirstOf ip lines)
  unfolding scan
  scan-cases [] = inl (refl, tt)
  scan-cases (line ∷ lines) = elim (Option-cases (address_of lower_table mac_addr line)) [
    | inr (ip, p) ↦ inr (ip, rw p refl, ([], line, lines, refl, tt, p))
    | inl p ↦ elim (scan-cases lines) [
      | inl (q, v) ↦ inl (rw p q, (p, v))
      | inr (ip, q, (before, found, after, l, v, m)) ↦ inr (
        ip,
        rw p q,
        (line ∷ before, found, after, ap (λ (r : List String). line ∷ r) l, (p, v), m),
      )
    ]
  ]

  scan-NoneOf : (lines : List String) → NoneOf lines → scan lower_table mac_addr lines ≡ none
  unfolding scan
  scan-NoneOf [] v = refl
  scan-NoneOf (line ∷ lines) (p, v) = rw (p, scan-NoneOf lines v) refl

  scan-FirstOf :
      (ip : String) (before : List String) (line : String) (after : List String)
      → NoneOf before
      → address_of lower_table mac_addr line ≡ some ip
      → scan lower_table mac_addr (before ++ line ∷ after) ≡ some ip
  unfolding scan
  scan-FirstOf ip [] line after v p = rw p refl
  scan-FirstOf ip (other ∷ before) line after (q, v) p =
      rw (q, scan-FirstOf ip before line after v p) refl

  goes_on_lem :
      (before polls : List Poll)
      → AllGoOn before
      → retrieve_ip_from_arp_table lower_table mac_addr (before ++ polls)
        ≡ retrieve_ip_from_arp_table lower_table mac_addr polls
  unfolding retrieve_ip_from_arp_table
  goes_on_lem [] polls v = refl
  goes_on_lem (cancelled e ∷ before) polls (v, vs) = absurd v
  goes_on_lem (ran (err e) ∷ before) polls (v, vs) = absurd v
  goes_on_lem (ran (ok lines) ∷ before) polls (v, vs) =
      rw (scan-NoneOf lines v, goes_on_lem before polls vs) refl

  ends_lem :
      (poll : Poll) (polls : List Poll) (r : Result String)
      → Ends poll r
      → retrieve_ip_from_arp_table lower_table mac_addr (poll ∷ polls) ≡ some r
  unfolding retrieve_ip_from_arp_table
  ends_lem (cancelled e) polls r v = rw v refl
  ends_lem (ran (err e)) polls r v = rw v refl
  ends_lem (ran (ok lines)) polls r (ip, p, (before, line, after, l, v, m)) =
      rw (l, scan-FirstOf ip before line after v m, p) refl

  -- Whether a number of rounds end the loop.
  abbrev pub EndsWith : List Poll → Result String → Type 0
  EndsWith polls r =
      (before : List Poll) × (poll : Poll) × (after : List Poll) × (polls ≡ before ++ poll ∷ after)
      × AllGoOn before
      × Ends poll r

  polls-cases :
      (polls : List Poll)
      → ((retrieve_ip_from_arp_table lower_table mac_addr polls ≡ none) × AllGoOn polls)
        ⊎ ((r : Result String) × (retrieve_ip_from_arp_table lower_table mac_addr polls ≡ some r)
            × EndsWith polls r)
  unfolding retrieve_ip_from_arp_table
  polls-cases [] = inl (refl, tt)
  polls-cases (cancelled e ∷ polls) = inr (err e, refl, ([], cancelled e, polls, refl, tt, refl))
  polls-cases (ran (err e) ∷ polls) = inr (err e, refl, ([], ran (err e), polls, refl, tt, refl))
  polls-cases (ran (ok lines) ∷ polls) = elim (scan-cases lines) [
    | inr (ip, p, found) ↦
        inr (ok ip, rw p refl, ([], ran (ok lines), polls, refl, tt, (ip, refl, found)))
    | inl (p, v) ↦ elim (polls-cases polls) [
      | inl (q, vs) ↦ inl (rw p q, (v, vs))
      | inr (r, q, (before, poll, after, l, vs, e)) ↦ inr (
        r,
        rw p q,
        (
          ran (ok lines) ∷ before,
          poll,
          after,
          ap (λ (s : List Poll). ran (ok lines) ∷ s) l,
          (v, vs),
          e,
        ),
      )
    ]
  ]

  returned :
      (polls : List Poll) (r s : Result String)
      → retrieve_ip_from_arp_table lower_table mac_addr polls ≡ some s
      → retrieve_ip_from_arp_table lower_table mac_addr polls ≡ some r
      → s ≡ r
  returned polls r s q h = cc

  -- RetrieveIPFromARPTable goes on exactly as long as the command succeeds, the context is not done,
  -- and no line contains the address, in either case, and has a second field; and what it returns
  -- is exactly what the first other round says: the error of the context or of the command, or the
  -- second field, without parentheses, of the first such line.
  pub retrieve_ip_from_arp_table_lem :
      (polls : List Poll)
      → ((retrieve_ip_from_arp_table lower_table mac_addr polls ≡ none) ↔ AllGoOn polls)
        × ((r : Result String)
            → (retrieve_ip_from_arp_table lower_table mac_addr polls ≡ some r) ↔ EndsWith polls r)
  unfolding retrieve_ip_from_arp_table
  retrieve_ip_from_arp_table_lem polls = (
    (
      λ h. elim (polls-cases polls) [ inl (q, v) ↦ v | inr (r, q, e) ↦ cc ],
      λ v.
          ap (retrieve_ip_from_arp_table lower_table mac_addr) (sym (append-nil polls))
          ∙ goes_on_lem polls [] v,
    ),
    λ r. (
      λ h. elim (polls-cases polls) [
        | inl (q, v) ↦ cc
        | inr (s, q, e) ↦ subst (EndsWith polls) (returned polls r s q h) e
      ],
      λ (before, poll, after, l, v, e).
          rw l (goes_on_lem before (poll ∷ after) v ∙ ends_lem poll after r e),
    ),
  )
