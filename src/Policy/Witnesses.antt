-- ===== src/Policy/Witnesses.antt =====
-- The theorems about the policy at concrete inputs.
use world.Prelude.{◌≡◌, ◌↔◌, ◌≤◌, refl, true, false, ◌∷◌, ◌++◌, none, some, is_empty, length}
use world.Bytes.{codes, split}
use world.Fs.Codec.Number.{display}
use world.Policy.{
  accepted, v4, valid_labels, authority, parse_v4, parse_ip, canonical_host, validate,
}
use world.Policy.Hosts.{canonical_host-again, canonical_host-authority}
use world.Policy.Addresses.{canonical_host-v4}
use world.Policy.Validation.{IsPolicy, validate_iff}
use world.Policy.Tests.{machine, no_v6, no_text, one_host}

is_name : parse_ip no_v6 no_text (codes "Api.Example.") ≡ none
unfolding machine
is_name = refl

is_low_name : parse_ip no_v6 no_text (codes "api.example") ≡ none
unfolding machine
is_low_name = refl

lowered : canonical_host no_v6 no_text (codes "Api.Example.") ≡ accepted (codes "api.example")
unfolding machine
lowered = refl

canonical_host-again_example :
    canonical_host no_v6 no_text (codes "api.example") ≡ accepted (codes "api.example")
canonical_host-again_example =
    canonical_host-again no_v6 no_text (codes "Api.Example.") (codes "api.example") is_name lowered
      is_low_name

canonical_host-authority_example :
    (is_empty (codes "api.example") ≡ false)
    × (length (codes "api.example") ≤ 253)
    × (valid_labels (split b'.' (codes "api.example")) ≡ true)
    × (authority (codes "api.example") 443 ≡ codes "api.example" ++ b':' ∷ display 10 443)
canonical_host-authority_example =
    canonical_host-authority no_v6 no_text (codes "Api.Example.") (codes "api.example") 443 is_name
      lowered

dotted : parse_v4 (codes "10.0.0.7") ≡ some (v4 10 0 0 7)
unfolding machine
dotted = refl

kept : canonical_host no_v6 no_text (codes "10.0.0.7") ≡ accepted (codes "10.0.0.7")
unfolding machine
kept = refl

canonical_host-v4_example :
    canonical_host no_v6 no_text (codes "10.0.0.7") ≡ accepted (codes "10.0.0.7")
canonical_host-v4_example =
    canonical_host-v4 no_v6 no_text (codes "10.0.0.7") (codes "10.0.0.7") (v4 10 0 0 7) dotted kept

validate_iff_example :
    (validate no_v6 no_text one_host ≡ accepted tt) ↔ IsPolicy no_v6 no_text one_host
validate_iff_example = validate_iff no_v6 no_text one_host
