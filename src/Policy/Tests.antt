-- ===== src/Policy/Tests.antt =====
-- Runs of the policy's checks, without IPv6.
use world.Prelude.{ℕ, ◌≡◌, refl, List, [], ◌∷◌, Option, none}
use world.Bytes.{Bytes, codes}
use world.Policy.{
  Checked, accepted, refused, unsupported_ip, invalid_host, zero_port, Endpoint, Policy,
  canonical_host, authority, validate,
}

-- The definitions that a run computes with
unfoldable pub machine : Unit {0}
unfolding world.Bytes.beq world.Bytes.lex world.Bytes.starts_with world.Bytes.ends_with_slash
    world.Bytes.starts_with_slash world.Bytes.contains world.Bytes.split world.Bytes.is_real
    world.Bytes.keep_real world.Bytes.real_components world.Bytes.lower
    world.Bytes.to_ascii_lowercase world.Fs.Codec.Number.digits world.Fs.Codec.Number.display
    world.Fs.Codec.Number.digit_val world.Fs.Codec.Number.parse_digits
    world.Fs.Codec.Number.from_str_radix world.Fs.Codec.Number.display_bool
    world.Fs.Codec.Number.parse_bool world.Policy.octet world.Policy.four_octets
    world.Policy.parse_v4 world.Policy.show_v4 world.Policy.all_zero world.Policy.is_unspecified
    world.Policy.is_multicast world.Policy.mapped_v4 world.Policy.strip_dot
    world.Policy.all_label_bytes world.Policy.ends_with_dash world.Policy.valid_label
    world.Policy.valid_labels world.Policy.check_host world.Policy.authority world.Policy.parse_ip
    world.Policy.show_ip world.Policy.canonical_ip world.Policy.canonical_host
    world.Policy.check_endpoints world.Policy.validate
machine = tt

abbrev pub no_v6 : Bytes → Option (List ℕ)
no_v6 s = none

abbrev pub no_text : List ℕ → Bytes
no_text segments = []

lowers : canonical_host no_v6 no_text (codes "Api.Example.") ≡ accepted (codes "api.example")
unfolding machine
lowers = refl

refuses_dash : canonical_host no_v6 no_text (codes "a.-b") ≡ refused invalid_host
unfolding machine
refuses_dash = refl

refuses_unspecified : canonical_host no_v6 no_text (codes "0.0.0.0") ≡ refused unsupported_ip
unfolding machine
refuses_unspecified = refl

-- With a dot behind it the same address passes as a name.
accepts_dotted : canonical_host no_v6 no_text (codes "0.0.0.0.") ≡ accepted (codes "0.0.0.0")
unfolding machine
accepts_dotted = refl

brackets : authority (codes "::1") 80 ≡ codes "[::1]:80"
unfolding machine
brackets = refl

abbrev pub one_host : Policy
one_host = record {
  network_id = codes "n1";
  allow = record { host = codes "api.example"; port = 443 } ∷ [];
}

validates : validate no_v6 no_text one_host ≡ accepted tt
unfolding machine
validates = refl

refuses_port_zero :
    validate no_v6 no_text
      (record { network_id = codes "n1"; allow = record { host = codes "x"; port = 0 } ∷ [] })
    ≡ refused zero_port
unfolding machine
refuses_port_zero = refl
