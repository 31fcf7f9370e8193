-- ===== src/Policy.antt =====
-- crates/world-runtime/src/policy.rs: the network policy of a workspace, and the names of its destinations.
-- A string is the list of its bytes. IPv6 text is a parameter, since its notation has many forms.
pub mod Hosts
pub mod Addresses
pub mod Validation
pub mod Tests
mod Witnesses
use world.Prelude.{
  ℕ, ◌+◌, ◌/◌, ◌%◌, ◌==◌, ltb, leb, Bool, true, false, ◌&&◌, ◌||◌, not, List, [], ◌∷◌, ◌++◌, Option,
  none, some, length, is_empty, if◌then◌else◌,
}
use world.Bytes.{Bytes, contains, split, to_ascii_lowercase}
use world.Fs.Codec.Escape.{between}
use world.Fs.Codec.Number.{display, and_then, parse_digits}

-- The messages of `bail!`
pub data Refusal : Type 0 where
  unsupported_ip invalid_host invalid_network_id too_many_destinations zero_port : Refusal

pub data Checked {ℓ} (A : Type ℓ) : Type ℓ where
  accepted : A → Checked A
  refused : Refusal → Checked A

pub record Endpoint : Type 0 where
  pub host : Bytes
  pub port : ℕ

pub record Policy : Type 0 where
  pub network_id : Bytes
  pub allow : List Endpoint

-- `IpAddr`, with the four octets or the eight segments
pub data Ip : Type 0 where
  v4 : (a b c d : ℕ) → Ip
  v6 : (segments : List ℕ) → Ip

-- One octet of a dotted address: no leading zero
unfoldable pub octet : Bytes → Option ℕ
octet [] = none
octet (c ∷ []) = parse_digits 10 256 0 (c ∷ [])
octet (c ∷ d ∷ cs) = if c == b'0' then none else parse_digits 10 256 0 (c ∷ d ∷ cs)

unfoldable pub four_octets : List Bytes → Option Ip
unfolding octet
four_octets (a ∷ b ∷ c ∷ d ∷ []) =
    and_then (octet a)
      λ w. and_then (octet b) λ x. and_then (octet c) λ y. and_then (octet d) λ z. some (v4 w x y z)
four_octets parts = none

unfoldable pub parse_v4 : Bytes → Option Ip
unfolding four_octets split
parse_v4 s = four_octets (split b'.' s)

unfoldable pub show_v4 : ℕ → ℕ → ℕ → ℕ → Bytes
unfolding display
show_v4 a b c d =
    display 10 a ++ b'.' ∷ (display 10 b ++ b'.' ∷ (display 10 c ++ b'.' ∷ display 10 d))

unfoldable pub all_zero : List ℕ → Bool
all_zero [] = true
all_zero (s ∷ ss) = s == 0 && all_zero ss

unfoldable pub is_unspecified : Ip → Bool
unfolding all_zero
is_unspecified (v4 a b c d) = a == 0 && b == 0 && c == 0 && d == 0
is_unspecified (v6 segments) = all_zero segments

unfoldable pub is_multicast : Ip → Bool
is_multicast (v4 a b c d) = between 224 239 a
is_multicast (v6 []) = false
is_multicast (v6 (s ∷ ss)) = leb 65280 s

-- `to_ipv4_mapped`, printed
unfoldable pub mapped_v4 : List ℕ → Option Bytes
unfolding show_v4
mapped_v4 (a ∷ b ∷ c ∷ d ∷ e ∷ f ∷ g ∷ h ∷ []) =
    if a == 0 && b == 0 && c == 0 && d == 0 && e == 0 && f == 65535
    then some (show_v4 (g / 256) (g % 256) (h / 256) (h % 256))
    else none
mapped_v4 segments = none

-- `strip_suffix('.').unwrap_or(input)`
unfoldable pub strip_dot : Bytes → Bytes
strip_dot [] = []
strip_dot (b ∷ []) = if b == b'.' then [] else b ∷ []
strip_dot (b ∷ c ∷ bs) = b ∷ strip_dot (c ∷ bs)

abbrev pub label_byte : ℕ → Bool
label_byte b = between b'a' b'z' b || between b'0' b'9' b || b == b'-'

unfoldable pub all_label_bytes : Bytes → Bool
all_label_bytes [] = true
all_label_bytes (b ∷ bs) = label_byte b && all_label_bytes bs

abbrev pub starts_with_dash : Bytes → Bool
starts_with_dash [] = false
starts_with_dash (b ∷ bs) = b == b'-'

unfoldable pub ends_with_dash : Bytes → Bool
ends_with_dash [] = false
ends_with_dash (b ∷ []) = b == b'-'
ends_with_dash (b ∷ c ∷ bs) = ends_with_dash (c ∷ bs)

unfoldable pub valid_label : Bytes → Bool
unfolding all_label_bytes ends_with_dash
valid_label l =
    not (is_empty l)
    && leb (length l) 63
    && not (starts_with_dash l)
    && not (ends_with_dash l)
    && all_label_bytes l

unfoldable pub valid_labels : List Bytes → Bool
unfolding valid_label
valid_labels [] = true
valid_labels (l ∷ ls) = valid_label l && valid_labels ls

unfoldable pub check_host : Bytes → Checked Bytes
unfolding valid_labels split
check_host host =
    if is_empty host || ltb 253 (length host)
    then refused invalid_host
    else if valid_labels (split b'.' host)
    then accepted host
    else refused invalid_host

unfoldable pub authority : Bytes → ℕ → Bytes
unfolding display
authority host port =
    if contains b':' host
    then b'[' ∷ (host ++ b']' ∷ b':' ∷ display 10 port)
    else host ++ b':' ∷ display 10 port

-- `parse_v6` and `show_v6` are `Ipv6Addr`'s `from_str` and `to_string`.
module _ (parse_v6 : Bytes → Option (List ℕ)) (show_v6 : List ℕ → Bytes) where
  abbrev pub or_v6 : Bytes → Option Ip → Option Ip
  or_v6 input (some ip) = some ip
  or_v6 input none = and_then (parse_v6 input) λ segments. some (v6 segments)

  unfoldable pub parse_ip : Bytes → Option Ip
  unfolding parse_v4
  parse_ip input = or_v6 input (parse_v4 input)

  abbrev pub or_shown : List ℕ → Option Bytes → Bytes
  or_shown segments none = show_v6 segments
  or_shown segments (some text) = text

  unfoldable pub show_ip : Ip → Bytes
  unfolding mapped_v4 show_v4
  show_ip (v4 a b c d) = show_v4 a b c d
  show_ip (v6 segments) = or_shown segments (mapped_v4 segments)

  unfoldable pub canonical_ip : Ip → Checked Bytes
  unfolding is_unspecified is_multicast show_ip
  canonical_ip ip =
      if is_unspecified ip || is_multicast ip then refused unsupported_ip else accepted (show_ip ip)

  abbrev pub by_kind : Bytes → Option Ip → Checked Bytes
  by_kind input (some ip) = canonical_ip ip
  by_kind input none = check_host (to_ascii_lowercase (strip_dot input))

  unfoldable pub canonical_host : Bytes → Checked Bytes
  unfolding parse_ip canonical_ip check_host strip_dot to_ascii_lowercase
  canonical_host input = by_kind input (parse_ip input)

  abbrev pub checked_port : Checked Bytes → ℕ → Checked (Unit {0}) → Checked (Unit {0})
  checked_port (refused e) port rest = refused e
  checked_port (accepted host) port rest = if port == 0 then refused zero_port else rest

  unfoldable pub check_endpoints : List Endpoint → Checked (Unit {0})
  unfolding canonical_host
  check_endpoints [] = accepted tt
  check_endpoints (e ∷ es) = checked_port (canonical_host e.host) e.port (check_endpoints es)

  unfoldable pub validate : Policy → Checked (Unit {0})
  unfolding check_endpoints
  validate p =
      if is_empty p.network_id
        || ltb 128 (length p.network_id)
        || (contains 0 p.network_id || contains b'\r' p.network_id || contains b'\n' p.network_id)
      then refused invalid_network_id
      else if ltb 256 (length p.allow)
      then refused too_many_destinations
      else check_endpoints p.allow
