-- ===== src/Net/Mac/Local.antt =====
-- Random MAC addresses are unicast and locally administered.
use macos_exec_kubelet.Base.{
  ℕ, zero, suc, ◌/◌, ◌%◌, ◌<◌, Bool, true, ◌&&◌, List, [], ◌∷◌, ok, ltb, ◌==◌, nat_eq, ℕ_discrete,
  ◌≡◌, refl, ap, ◌∙◌, arith,
}
use Prim.Native.Nat.{bit_and, bit_or}
use macos_exec_kubelet.Net.Mac.{set_address_bits, hardware_addr, generate_rand_mac}

abbrev pub AreBytes : List ℕ → Type 0
AreBytes [] = Unit
AreBytes (b ∷ bytes) = (b < 256) × AreBytes bytes

abbrev all_below : ℕ → (ℕ → Bool) → Bool
all_below zero f = true
all_below (suc n) f = f n && all_below n f

all_below_lem : (n : ℕ) (f : ℕ → Bool) → all_below n f ≡ true → (i : ℕ) → i < n → f i ≡ true
all_below_lem zero f h i l = absurd (omega arith)
all_below_lem (suc n) f h i l = elim (ℕ_discrete i n) [
  | yes p ↦ ap f p ∙ ground arith
  | no differ ↦ all_below_lem n f (ground arith) i (omega arith)
]

-- The first byte of an address of a single interface that nobody has assigned, with the upper bits
-- of a random byte.
pub record IsLocal (b c : ℕ) : Type 0 where
  pub is_byte : c < 256
  pub unicast : c % 2 ≡ 0
  pub locally_administered : c / 2 % 2 ≡ 1
  pub upper_bits : c / 4 ≡ b / 4

abbrev is_local : ℕ → Bool
is_local b =
    let c = bit_and (bit_or b 0x02) 0xfe in
    ltb c 256 && (c % 2 == 0 && (c / 2 % 2 == 1 && c / 4 == b / 4))

every_byte : all_below 256 is_local ≡ true
unfolding nat_eq ℕ_discrete
every_byte = refl

is_local-IsLocal : (b : ℕ) → is_local b ≡ true → IsLocal b (bit_and (bit_or b 0x02) 0xfe)
is_local-IsLocal b h = go (bit_and (bit_or b 0x02) 0xfe) h
  where
    go :
        (c : ℕ)
        → (ltb c 256 && (c % 2 == 0 && (c / 2 % 2 == 1 && c / 4 == b / 4))) ≡ true
        → IsLocal b c
    go c k = record {
      is_byte = ground arith;
      unicast = ground arith;
      locally_administered = ground arith;
      upper_bits = ground arith;
    }

-- GenerateRandMAC on random bytes, of which there is at least one, gives the text of an address whose
-- first byte is that of a single interface and of no vendor, still a byte and with the six upper bits
-- of the random one, and whose further bytes are the random ones.
pub generate_rand_mac-IsLocal :
    (b : ℕ) (bytes : List ℕ)
    → AreBytes (b ∷ bytes)
    → (c : ℕ) × (generate_rand_mac (ok (b ∷ bytes)) ≡ ok (hardware_addr (c ∷ bytes)))
      × IsLocal b c
      × AreBytes (c ∷ bytes)
unfolding generate_rand_mac set_address_bits
generate_rand_mac-IsLocal b bytes (l, v) =
    let local = is_local-IsLocal b (all_below_lem 256 is_local every_byte b l) in
    (_, refl, local, (local.is_byte, v))
