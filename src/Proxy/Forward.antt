-- ===== src/Proxy/Forward.antt =====
-- crates/world-runtime/src/proxy.rs: what `Service::handle` and `Service::forward` do with one request.
use world.Prelude.{
  ℕ, ◌==◌, Bool, false, ◌&&◌, ◌||◌, not, List, [], ◌∷◌, ◌++◌, Option, none, some, if◌then◌else◌,
}
use world.Bytes.{Bytes, codes, beq}
use world.Map.{get}
use world.Map.Order.{bytes_key}
use world.Fs.Codec.Number.{and_then}
use world.Policy.{Checked, accepted, refused, authority, canonical_host}
use world.Proxy.Headers.{HeaderMap, strip_hop_headers}
use world.Proxy.Prepare.{Address, Routes, Prepared}

-- The authority of a URI: its text, `host()` and `port_u16()`
pub record Authority : Type 0 where
  pub text : Bytes
  pub host : Bytes
  pub port_u16 : Option ℕ

-- The parts of a request that the proxy looks at
pub record Request (H : Type 0) : Type 0 where
  pub is_connect : Bool
  pub authority : Option Authority
  pub scheme : Option Bytes
  pub path_and_query : Option Bytes
  pub headers : H

pub data Response (H : Type 0) : Type 0 where
  -- 407, with the header that asks for the credential
  credential_required : Response H
  said : (status : ℕ) (message : Bytes) → Response H
  -- 200, with the bytes of both sides copied to the other
  tunnel : Address → Response H
  relayed : Address → (status : ℕ) (headers : H) → Response H

-- The addresses to which `forward` tried to connect, in order, and its result
pub record Forwarded (H : Type 0) : Type 0 where
  pub attempts : List Address
  pub answer : Option (Response H)

-- `trim_matches(['[', ']'])`
abbrev pub is_bracket : ℕ → Bool
is_bracket b = b == b'[' || b == b']'

unfoldable pub trim_brackets_start : Bytes → Bytes
trim_brackets_start [] = []
trim_brackets_start (b ∷ bs) =
    let rest = trim_brackets_start bs in if is_bracket b then rest else b ∷ bs

unfoldable pub trim_brackets_end : Bytes → Bytes
trim_brackets_end [] = []
trim_brackets_end (b ∷ bs) = elim (trim_brackets_end bs) [
  | [] ↦ if is_bracket b then [] else b ∷ []
  | c ∷ cs ↦ b ∷ c ∷ cs
]

unfoldable pub trim_brackets : Bytes → Bytes
unfolding trim_brackets_start trim_brackets_end
trim_brackets s = trim_brackets_end (trim_brackets_start s)

-- `Some(port)`, or 80 where the request is no `CONNECT`
abbrev pub effective_port : Bool → Option ℕ → Option ℕ
effective_port is_connect (some port) = some port
effective_port is_connect none = if is_connect then none else some 80

abbrev pub is_http : Option Bytes → Bool
is_http none = false
is_http (some scheme) = beq scheme (codes "http")

abbrev pub or_root : Option Bytes → Bytes
or_root none = codes "/"
or_root (some target) = target

abbrev pub first_value : List Bytes → Bytes
first_value [] = []
first_value (v ∷ vs) = v

abbrev pub or_unavailable : {H : Type 0} → Option (Response H) → Response H
or_unavailable none = said 502 (codes "upstream unavailable")
or_unavailable (some response) = response

abbrev pub said_only : {H : Type 0} → ℕ → Bytes → Forwarded H
said_only status message = record { attempts = []; answer = some (said status message) }

abbrev pub attempt : {H : Type 0} → Address → Forwarded H → Forwarded H
attempt a o = record { attempts = a ∷ o.attempts; answer = o.answer }

-- What the program gets from outside, next to the headers: IPv6 text, the name server, base64, whether
-- `TcpStream::connect` gives a stream in five seconds, the texts that `Uri` and `HeaderValue` read, and the
-- exchange with the server behind a stream, which gives its status and headers or fails.
pub record Outside (H : Type 0) : Type 0 where
  pub parse_v6 : Bytes → Option (List ℕ)
  pub show_v6 : List ℕ → Bytes
  pub lookup_host : Bytes → ℕ → Option (List Address)
  pub base64 : Bytes → Bytes
  pub connects : Address → Bool
  pub parse_uri : Bytes → Option Bytes
  pub parse_value : Bytes → Option Bytes
  pub upstream : Address → Bytes → H → Option (ℕ × H)

-- The value of `Proxy-Authorization` that `serve` expects
unfoldable pub authorization : (Bytes → Bytes) → Bytes → Bytes
authorization base64 credential = codes "Basic " ++ base64 (codes "world:" ++ credential)

module _ {H : Type 0} ⦃m : HeaderMap H⦄ where
  -- `get(PROXY_AUTHORIZATION)`, or nothing
  unfoldable pub supplied : Request H → Bytes
  supplied r = first_value (m.get_all (codes "proxy-authorization") r.headers)

module _ {H : Type 0} ⦃m : HeaderMap H⦄ (w : Outside H) where
  -- The request that goes to the server, and its answer
  unfoldable pub relay : Request H → Authority → Address → Option (Response H)
  unfolding strip_hop_headers
  relay r auth a = and_then (w.parse_uri (or_root r.path_and_query)) λ target.
      and_then (w.parse_value auth.text) λ host.
        let stripped = m.insert (codes "host") host (strip_hop_headers r.headers) in
        and_then (w.upstream a target (m.insert (codes "connection") (codes "close") stripped))
          λ (status, headers). some (relayed a status (strip_hop_headers headers))

  abbrev pub on_stream : Request H → Authority → Address → Forwarded H
  on_stream r auth a = record {
    attempts = a ∷ [];
    answer = if r.is_connect then some (tunnel a) else relay r auth a;
  }

  -- The first address that accepts a connection is used.
  unfoldable pub try_each : Request H → Authority → List Address → Forwarded H
  unfolding relay
  try_each r auth [] = record { attempts = []; answer = none }
  try_each r auth (a ∷ rest) =
      let others = try_each r auth rest in
      if w.connects a then on_stream r auth a else attempt a others

  abbrev pub on_route : Request H → Authority → Option (List Address) → Forwarded H
  on_route r auth none = said_only 403 (codes "destination denied by Network policy")
  on_route r auth (some addresses) = try_each r auth addresses

  abbrev pub on_port : Routes → Request H → Authority → Bytes → Option ℕ → Forwarded H
  on_port routes r auth host none = said_only 400 (codes "CONNECT port required")
  on_port routes r auth host (some port) = on_route r auth (get (authority host port) routes)

  abbrev pub on_host : Routes → Request H → Authority → Checked Bytes → Forwarded H
  on_host routes r auth (refused e) = record { attempts = []; answer = none }
  on_host routes r auth (accepted host) =
      on_port routes r auth host (effective_port r.is_connect auth.port_u16)

  abbrev pub on_authority : Routes → Request H → Option Authority → Forwarded H
  on_authority routes r none = said_only 400 (codes "absolute URL required")
  on_authority routes r (some auth) =
      if not r.is_connect && not (is_http r.scheme)
      then said_only 400 (codes "HTTP URL required")
      else on_host routes r auth (canonical_host w.parse_v6 w.show_v6 (trim_brackets auth.host))

  unfoldable pub forward : Routes → Request H → Forwarded H
  unfolding try_each trim_brackets
  forward routes r = on_authority routes r r.authority

  unfoldable pub handle : Prepared → Request H → Forwarded H
  unfolding forward authorization supplied
  handle p r =
      if beq (supplied r) (authorization w.base64 p.credential)
      then record {
        attempts = (forward p.routes r).attempts;
        answer = some (or_unavailable (forward p.routes r).answer);
      }
      else record { attempts = []; answer = some credential_required }
