-- ===== src/Proxy/Public.antt =====
-- crates/world-runtime/src/proxy.rs: the addresses that a name server may give for a destination.
use world.Prelude.{
  ℕ, ◌+◌, ◌-◌, ◌*◌, ◌/◌, ◌%◌, ◌^◌, ◌==◌, ltb, Bool, false, ◌&&◌, ◌||◌, not, List, [], ◌∷◌, Option,
  none, some, if◌then◌else◌,
}
use world.Policy.{Ip, v4, v6}

-- The prefixes of the special IPv4 networks, with the number of their bits
abbrev pub special_networks : List (ℕ × ℕ)
special_networks =
    (0x00000000, 8)
    ∷ (0x0a000000, 8)
    ∷ (0x64400000, 10)
    ∷ (0x7f000000, 8)
    ∷ (0xa9fe0000, 16)
    ∷ (0xac100000, 12)
    ∷ (0xc0000000, 24)
    ∷ (0xc0000200, 24)
    ∷ (0xc01fc400, 24)
    ∷ (0xc034c100, 24)
    ∷ (0xc0586300, 24)
    ∷ (0xc0a80000, 16)
    ∷ (0xc0af3000, 24)
    ∷ (0xc6120000, 15)
    ∷ (0xc6336400, 24)
    ∷ (0xcb007100, 24)
    ∷ (0xe0000000, 4)
    ∷ (0xf0000000, 4)
    ∷ []

-- `n >> bits`
abbrev pub shift_right : ℕ → ℕ → ℕ
shift_right n bits = n / 2 ^ bits

unfoldable pub in_any : ℕ → List (ℕ × ℕ) → Bool
in_any n [] = false
in_any n ((base, bits) ∷ networks) =
    shift_right n (32 - bits) == shift_right base (32 - bits) || in_any n networks

-- `u32::from`
abbrev pub u32_of : (a b c d : ℕ) → ℕ
u32_of a b c d = ((a * 256 + b) * 256 + c) * 256 + d

unfoldable pub public_v4 : (a b c d : ℕ) → Bool
unfolding in_any
public_v4 a b c d = not (in_any (u32_of a b c d) special_networks)

-- `to_ipv4_mapped`
unfoldable pub to_ipv4_mapped : List ℕ → Option Ip
to_ipv4_mapped (a ∷ b ∷ c ∷ d ∷ e ∷ f ∷ g ∷ h ∷ []) =
    if a == 0 && b == 0 && c == 0 && d == 0 && e == 0 && f == 0xffff
    then some (v4 (g / 256) (g % 256) (h / 256) (h % 256))
    else none
to_ipv4_mapped segments = none

-- The masks `0xe000` and `0xf000` leave the three and the four highest of 16 bits.
unfoldable pub global_unicast : List ℕ → Bool
global_unicast (s ∷ t ∷ u ∷ rest) =
    shift_right s 13 == shift_right 0x2000 13
    && not (s == 0x2001 && ltb t 0x0200)
    && not (s == 0x2001 && t == 0x0db8)
    && not (s == 0x2002)
    && not (s == 0x2620 && t == 0x004f && u == 0x8000)
    && not (s == 0x3fff && shift_right t 12 == 0)
global_unicast segments = false

abbrev pub by_mapped : List ℕ → Option Ip → Bool
by_mapped segments (some (v4 a b c d)) = public_v4 a b c d
by_mapped segments other = global_unicast segments

unfoldable pub public_ip : Ip → Bool
unfolding public_v4 to_ipv4_mapped global_unicast
public_ip (v4 a b c d) = public_v4 a b c d
public_ip (v6 segments) = by_mapped segments (to_ipv4_mapped segments)
