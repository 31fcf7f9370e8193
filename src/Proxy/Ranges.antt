-- ===== src/Proxy/Ranges.antt =====
-- crates/world-runtime/src/proxy.rs: the special IPv4 networks in dotted notation.
use world.Prelude.{
  ℕ, ◌+◌, ◌*◌, ◌/◌, ◌^◌, ◌<◌, ◌==◌, ◌≡◌, ap, ◌∙◌, Bool, false, List, [], ◌∷◌, ◌&&◌, ◌||◌, not,
  arith,
}
use world.Fs.Codec.Escape.{between}
use world.Policy.{v4}
use world.Policy.Addresses.{IsV4}
use world.Proxy.Public.{u32_of, in_any, public_v4, public_ip}

abbrev pub any : List Bool → Bool
any [] = false
any (x ∷ xs) = x || any xs

-- The networks that RFC 6890 and the registry of special addresses name, by their octets
abbrev pub special_address : (a b c : ℕ) → Bool
special_address a b c = any (
    (a == 0)
    ∷ (a == 10)
    ∷ (a == 100 && between 64 127 b)
    ∷ (a == 127)
    ∷ (a == 169 && b == 254)
    ∷ (a == 172 && between 16 31 b)
    ∷ (a == 192 && b == 0 && c == 0)
    ∷ (a == 192 && b == 0 && c == 2)
    ∷ (a == 192 && b == 31 && c == 196)
    ∷ (a == 192 && b == 52 && c == 193)
    ∷ (a == 192 && b == 88 && c == 99)
    ∷ (a == 192 && b == 168)
    ∷ (a == 192 && b == 175 && c == 48)
    ∷ (a == 198 && between 18 19 b)
    ∷ (a == 198 && b == 51 && c == 100)
    ∷ (a == 203 && b == 0 && c == 113)
    ∷ between 224 255 a
    ∷ [])

or_congr : {a b c d : Bool} → a ≡ b → c ≡ d → (a || c) ≡ (b || d)
or_congr h k = cc

module _ (a b c d : ℕ) (h : IsV4 a b c d) where
  first_octet : u32_of a b c d / 2 ^ 24 ≡ a
  first_octet = omega (arith, h.1, h.2, h.3)

  two_octets : u32_of a b c d / 2 ^ 16 ≡ a * 256 + b
  two_octets = omega (arith, h.1, h.2, h.3)

  three_octets : u32_of a b c d / 2 ^ 8 ≡ (a * 256 + b) * 256 + c
  three_octets = omega (arith, h.1, h.2, h.3)

  -- The test of a prefix of 8, 16 or 24 bits
  one : (k : ℕ) → (u32_of a b c d / 2 ^ 24 == k) ≡ (a == k)
  one k = ap (λ x. x == k) first_octet

  two : (k l : ℕ) → l < 256 → (u32_of a b c d / 2 ^ 16 == k * 256 + l) ≡ (a == k && b == l)
  two k l m = rw two_octets (ground (arith, h.1, m))

  three :
      (k l m : ℕ)
      → l < 256
      → m < 256
      → (u32_of a b c d / 2 ^ 8 == (k * 256 + l) * 256 + m) ≡ (a == k && b == l && c == m)
  three k l m p q = rw three_octets (ground (arith, h.1, h.2, p, q))

  ten_bits : (u32_of a b c d / 2 ^ 22 == 401) ≡ (a == 100 && between 64 127 b)
  ten_bits = ap (λ x. x == 401) shifted ∙ ground (arith, h.1)
    where
      shifted : u32_of a b c d / 2 ^ 22 ≡ a * 4 + b / 64
      shifted = omega (arith, h.1, h.2, h.3)

  twelve_bits : (u32_of a b c d / 2 ^ 20 == 2753) ≡ (a == 172 && between 16 31 b)
  twelve_bits = ap (λ x. x == 2753) shifted ∙ ground (arith, h.1)
    where
      shifted : u32_of a b c d / 2 ^ 20 ≡ a * 16 + b / 16
      shifted = omega (arith, h.1, h.2, h.3)

  fifteen_bits : (u32_of a b c d / 2 ^ 17 == 25353) ≡ (a == 198 && between 18 19 b)
  fifteen_bits = ap (λ x. x == 25353) shifted ∙ ground (arith, h.1)
    where
      shifted : u32_of a b c d / 2 ^ 17 ≡ a * 128 + b / 2
      shifted = omega (arith, h.1, h.2, h.3)

  four_bits :
      (u32_of a b c d / 2 ^ 28 == 14 || (u32_of a b c d / 2 ^ 28 == 15 || false))
      ≡ (between 224 255 a || false)
  four_bits = ap (λ x. x == 14 || (x == 15 || false)) shifted ∙ ground (arith, h.0)
    where
      shifted : u32_of a b c d / 2 ^ 28 ≡ a / 16
      shifted = omega (arith, h.1, h.2, h.3)

  -- A name server's IPv4 address counts as public exactly when its octets lie in none of the special
  -- networks: the shifted comparisons of the code test what the dotted notation says.
  pub public_ip-v4 : public_ip (v4 a b c d) ≡ not (special_address a b c)
  unfolding public_ip public_v4 in_any
  public_ip-v4 = ap not (
      or_congr (one 0) (
        or_congr (one 10) (
          or_congr ten_bits (
            or_congr (one 127) (
              or_congr (two 169 254 (omega arith)) (
                or_congr twelve_bits (
                  or_congr (three 192 0 0 (omega arith) (omega arith)) (
                    or_congr (three 192 0 2 (omega arith) (omega arith)) (
                      or_congr (three 192 31 196 (omega arith) (omega arith)) (
                        or_congr (three 192 52 193 (omega arith) (omega arith)) (
                          or_congr (three 192 88 99 (omega arith) (omega arith)) (
                            or_congr (two 192 168 (omega arith)) (
                              or_congr (three 192 175 48 (omega arith) (omega arith)) (
                                or_congr fifteen_bits (
                                  or_congr (three 198 51 100 (omega arith) (omega arith)) (
                                    or_congr (three 203 0 113 (omega arith) (omega arith))
                                      four_bits))))))))))))))))
