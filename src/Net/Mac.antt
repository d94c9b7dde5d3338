-- ===== src/Net/Mac.antt =====
-- internal/netutil/mac.go: MAC addresses. The random bytes are a parameter.
pub mod Local
use macos_exec_kubelet.Base.{ℕ, String, ◌<>◌, List, [], ◌∷◌, map, Error, wrap, Result, ok, err}
use macos_exec_kubelet.Net.Octets.{split, hex_byte, strip_zero}
use Prim.Native.Nat.{bit_and, bit_or}

-- The locally administered bit is set and the multicast bit reset, in the first byte.
unfoldable pub set_address_bits : List ℕ → List ℕ
set_address_bits [] = []
set_address_bits (b ∷ bytes) = bit_and (bit_or b 0x02) 0xfe ∷ bytes

-- net.HardwareAddr.String
unfoldable pub hardware_addr : List ℕ → String
hardware_addr [] = ""
hardware_addr (b ∷ []) = hex_byte b
hardware_addr (b ∷ c ∷ bytes) = hex_byte b <> (":" <> hardware_addr (c ∷ bytes))

-- The argument is what rand.Read gives.
unfoldable pub generate_rand_mac : Result (List ℕ) → Result String
unfolding set_address_bits hardware_addr
generate_rand_mac (err e) = err (wrap "unable to retrieve 6 rnd bytes" e)
generate_rand_mac (ok buf) = ok (hardware_addr (set_address_bits buf))

-- strings.Join with a colon, of the rest of the parts.
unfoldable pub join_rest : List String → String
join_rest [] = ""
join_rest (part ∷ parts) = ":" <> (part <> join_rest parts)

unfoldable pub normalize_mac_address : String → String
unfolding split strip_zero join_rest
normalize_mac_address mac =
    let parts = split mac in strip_zero parts.first <> join_rest (map strip_zero parts.rest)
