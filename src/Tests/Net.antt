-- ===== src/Tests/Net.antt =====
-- MAC addresses and the ARP table on concrete texts.
use macos_exec_kubelet.Base.{
  ℕ, String, none, some, List, [], ◌∷◌, Result, ok, ◌≡◌, ◌↔◌, refl, nat_eq, ℕ_discrete, arith,
}
use Prim.Native.Char.{Char}
use macos_exec_kubelet.Net.Mac.{hardware_addr, generate_rand_mac, normalize_mac_address}
use macos_exec_kubelet.Net.Mac.Local.{AreBytes, IsLocal, generate_rand_mac-IsLocal}
use macos_exec_kubelet.Net.Words.{to_lower, contains_text, fields, trim_parentheses}
use macos_exec_kubelet.Net.Arp.{Poll, ran, retrieve_ip_from_arp_table}
use macos_exec_kubelet.Net.Arp.Polls.{AllGoOn, EndsWith, retrieve_ip_from_arp_table_lem}

generate_rand_mac-IsLocal_example :
    (c : ℕ) × (generate_rand_mac (ok (0xff ∷ 0x00 ∷ 0x1a ∷ []))
      ≡ ok (hardware_addr (c ∷ 0x00 ∷ 0x1a ∷ [])))
    × IsLocal 0xff c
    × AreBytes (c ∷ 0x00 ∷ 0x1a ∷ [])
generate_rand_mac-IsLocal_example =
    generate_rand_mac-IsLocal 0xff (0x00 ∷ 0x1a ∷ [])
      (omega arith, (omega arith, (omega arith, tt)))

generated : generate_rand_mac (ok (0xff ∷ 0x00 ∷ 0x1a ∷ [])) ≡ ok "fe:00:1a"
unfolding generate_rand_mac
generated = refl

normalized : normalize_mac_address "fe:00:1A:0b" ≡ "fe:0:1A:b"
unfolding normalize_mac_address nat_eq ℕ_discrete
normalized = refl

abbrev ascii : Char → Char
ascii c = c

abbrev address : String
address = "0:1A:2b"

-- The address of another machine contains the one that is looked for.
abbrev polls : List Poll
polls =
    ran (ok ("? (10.0.0.7) at 4:5:6 on en0" ∷ []))
    ∷ ran (ok ("? (10.0.0.9) at a0:1a:2b on en0" ∷ "? (10.0.0.8) at 0:1a:2b on en0" ∷ []))
    ∷ []

other_machine : retrieve_ip_from_arp_table ascii address polls ≡ some (ok "10.0.0.9")
unfolding retrieve_ip_from_arp_table to_lower contains_text fields trim_parentheses nat_eq
    ℕ_discrete
other_machine = refl

retrieve_ip_from_arp_table_lem_example :
    ((retrieve_ip_from_arp_table ascii address polls ≡ none) ↔ AllGoOn ascii address polls)
    × ((r : Result String)
        → (retrieve_ip_from_arp_table ascii address polls ≡ some r)
          ↔ EndsWith ascii address polls r)
retrieve_ip_from_arp_table_lem_example = retrieve_ip_from_arp_table_lem ascii address polls
