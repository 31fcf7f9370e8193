-- ===== src/Proxy/Prepare.antt =====
-- crates/world-runtime/src/proxy.rs: the routes and the credential that `Proxy::prepare` makes.
use world.Prelude.{
  ℕ, ◌/◌, ◌%◌, Bool, false, ◌||◌, not, List, [], ◌∷◌, ◌++◌, Option, none, some, is_empty,
  if◌then◌else◌,
}
use world.Bytes.{Bytes, codes}
use world.Map.{Map, insert}
use world.Map.Order.{bytes_key}
use world.Fs.Codec.Escape.{hex_digit}
use world.Fs.Codec.Number.{display}
use world.Policy.{
  Checked, accepted, refused, Refusal, Ip, Endpoint, Policy, authority, parse_ip, canonical_host,
  validate,
}
use world.Proxy.Public.{public_ip}

-- `SocketAddr`
pub record Address : Type 0 where
  pub ip : Ip
  pub port : ℕ

abbrev pub Routes : Type 0
Routes = Map Bytes (List Address)

-- The errors of `prepare`: the policy's, the name server's, and an address that is not public
pub data Failure : Type 0 where
  invalid : Refusal → Failure
  unresolved_name not_public : Failure

pub data Made {ℓ} (A : Type ℓ) : Type ℓ where
  made : A → Made A
  failed : Failure → Made A

pub record Prepared : Type 0 where
  pub routes : Routes
  pub credential : Bytes

unfoldable pub any_private : List Address → Bool
any_private [] = false
any_private (a ∷ rest) = not (public_ip a.ip) || any_private rest

-- `format!("{b:02x}")` of each byte
unfoldable pub hex : Bytes → Bytes
hex [] = []
hex (b ∷ bs) = hex_digit (b / 16) ∷ hex_digit (b % 16) ∷ hex bs

-- `Prepared::url`
unfoldable pub url : Prepared → ℕ → Bytes
unfolding display
url p port = codes "http://world:" ++ (p.credential ++ (codes "@127.0.0.1:" ++ display 10 port))

-- `lookup_host` gives the addresses of a name within five seconds; `none` is its error and the time-out.
module _ (parse_v6 : Bytes → Option (List ℕ)) (show_v6 : List ℕ → Bytes)
    (lookup_host : Bytes → ℕ → Option (List Address)) where
  abbrev pub of_answer : Option (List Address) → Made (List Address)
  of_answer none = failed unresolved_name
  of_answer (some addresses) =
      if is_empty addresses || any_private addresses then failed not_public else made addresses

  abbrev pub of_ip : Bytes → ℕ → Option Ip → Made (List Address)
  of_ip host port (some ip) = made (record { ip = ip; port = port } ∷ [])
  of_ip host port none = of_answer (lookup_host host port)

  -- The addresses of a canonical host
  unfoldable pub addresses_of : Bytes → ℕ → Made (List Address)
  unfolding any_private
  addresses_of host port = of_ip host port (parse_ip parse_v6 show_v6 host)

  -- One round of the loop, with the rest of it behind
  abbrev pub with_route :
      Bytes → Made (List Address) → (Routes → Made Routes) → Routes → Made Routes
  with_route key (failed e) rest routes = failed e
  with_route key (made addresses) rest routes = rest (insert key addresses routes)

  abbrev pub with_host : ℕ → Checked Bytes → (Routes → Made Routes) → Routes → Made Routes
  with_host port (refused e) rest routes = failed (invalid e)
  with_host port (accepted host) rest routes =
      with_route (authority host port) (addresses_of host port) rest routes

  unfoldable pub route_each : List Endpoint → Routes → Made Routes
  unfolding addresses_of
  route_each [] = λ routes. made routes
  route_each (e ∷ es) = with_host e.port (canonical_host parse_v6 show_v6 e.host) (route_each es)

  abbrev pub with_credential : Bytes → Made Routes → Made Prepared
  with_credential secret (failed e) = failed e
  with_credential secret (made routes) = made (record { routes = routes; credential = hex secret })

  abbrev pub when_valid : Checked (Unit {0}) → Made Prepared → Made Prepared
  when_valid (refused e) rest = failed (invalid e)
  when_valid (accepted x) rest = rest

  -- `secret` is what `OsRng` writes.
  unfoldable pub prepare : Bytes → Policy → Made Prepared
  unfolding route_each hex
  prepare secret p =
      when_valid (validate parse_v6 show_v6 p) (with_credential secret (route_each p.allow []))
