-- ===== src/Proxy/Reach.antt =====
-- crates/world-runtime/src/proxy.rs: the connections that a request makes the proxy try.
use mathlib.Core.List.{Memᴰ}
use world.Prelude.{
  ap, subst, ◌∙◌, ℕ, ◌≡◌, refl, ◌&&◌, not, List, [], ◌∷◌, Option, none, some, if_cases,
}
use world.Prelude.Pigeonhole.{All}
use world.Prelude.Members.{All-member, member-All}
use world.Bytes.{Bytes, beq, beq_iff}
use world.Map.{get}
use world.Map.Order.{bytes_key}
use world.Policy.{Endpoint, Checked, accepted, refused, Policy, authority, canonical_host, validate}
use world.Proxy.Headers.{HeaderMap}
use world.Proxy.Prepare.{Address, Routes, Prepared, made, prepare}
use world.Proxy.Forward.{
  Authority, Request, Forwarded, Outside, is_http, effective_port, on_route, on_port, on_host,
  on_authority, trim_brackets, try_each, forward, authorization, supplied, handle,
}
use world.Proxy.Routes.{authority-injective}
use world.Proxy.Grants.{IsAddressOf, IsGranted, AreGranted, prepare-AreGranted}

module _ {H : Type 0} ⦃m : HeaderMap H⦄ (w : Outside H) where
  -- A connection that the policy grants to the request: an endpoint has the canonical host and the port
  -- that the request names, and the address is one of that host and port.
  pub record IsAllowed (p : Policy) (r : Request H) (a : Address) : Type 0 where
    pub target : Authority
    pub given : r.authority ≡ some target
    pub host : Bytes
    pub canonical : canonical_host w.parse_v6 w.show_v6 (trim_brackets target.host) ≡ accepted host
    pub port : ℕ
    pub chosen : effective_port r.is_connect target.port_u16 ≡ some port
    pub endpoint : Endpoint
    pub listed : Memᴰ endpoint p.allow
    pub same_host : canonical_host w.parse_v6 w.show_v6 endpoint.host ≡ accepted host
    pub same_port : endpoint.port ≡ port
    pub reached : IsAddressOf w.parse_v6 w.show_v6 w.lookup_host host port a

  -- The key of a route names one host and one port.
  granted-IsAllowed :
      (p : Policy) (r : Request H) (t : Authority) (host : Bytes) (port : ℕ) (a : Address)
      → r.authority ≡ some t
      → canonical_host w.parse_v6 w.show_v6 (trim_brackets t.host) ≡ accepted host
      → effective_port r.is_connect t.port_u16 ≡ some port
      → IsGranted w.parse_v6 w.show_v6 w.lookup_host p.allow (authority host port) a
      → IsAllowed p r a
  granted-IsAllowed p r t host port a h c e g =
      let (hosts, ports) = authority-injective g.host host g.endpoint.port port g.named in
      record {
        target = t;
        given = h;
        host = host;
        canonical = c;
        port = port;
        chosen = e;
        endpoint = g.endpoint;
        listed = g.listed;
        same_host = g.canonical ∙ ap accepted hosts;
        same_port = ports;
        reached =
            subst (λ x. IsAddressOf w.parse_v6 w.show_v6 w.lookup_host x port a) hosts
              (subst (λ q. IsAddressOf w.parse_v6 w.show_v6 w.lookup_host g.host q a) ports
                g.reached);
      }

  try_each-All :
      (P : Address → Type 0) (r : Request H) (target : Authority) (found : List Address)
      → All P found
      → All P (try_each w r target found).attempts
  unfolding try_each
  try_each-All P r target [] h = tt
  try_each-All P r target (a ∷ rest) (x, h) =
      if_cases (λ (o : Forwarded H). All P o.attempts) (w.connects a) _ _ (λ _. (x, tt))
        λ _. (x, try_each-All P r target rest h)

  forward-IsAllowed :
      (p : Policy) (routes : Routes) (r : Request H)
      → AreGranted w.parse_v6 w.show_v6 w.lookup_host p.allow routes
      → All (IsAllowed p r) (forward w routes r).attempts
  unfolding forward AreGranted
  forward-IsAllowed p routes r g = by_authority r.authority refl
    where
      by_route :
          (t : Authority) (host : Bytes) (port : ℕ) (o : Option (List Address))
          → r.authority ≡ some t
          → canonical_host w.parse_v6 w.show_v6 (trim_brackets t.host) ≡ accepted host
          → effective_port r.is_connect t.port_u16 ≡ some port
          → get (authority host port) routes ≡ o
          → All (IsAllowed p r) (on_route w r t o).attempts
      by_route t host port none a c e f = tt
      by_route t host port (some found) a c e f = try_each-All (IsAllowed p r) r t found (
          member-All _ found λ x i.
            granted-IsAllowed p r t host port x a c e
              (All-member _ found (g (authority host port) found f) i))

      by_port :
          (t : Authority) (host : Bytes) (o : Option ℕ)
          → r.authority ≡ some t
          → canonical_host w.parse_v6 w.show_v6 (trim_brackets t.host) ≡ accepted host
          → effective_port r.is_connect t.port_u16 ≡ o
          → All (IsAllowed p r) (on_port w routes r t host o).attempts
      by_port t host none a c e = tt
      by_port t host (some port) a c e = by_route t host port _ a c e refl

      by_host :
          (t : Authority) (o : Checked Bytes)
          → r.authority ≡ some t
          → canonical_host w.parse_v6 w.show_v6 (trim_brackets t.host) ≡ o
          → All (IsAllowed p r) (on_host w routes r t o).attempts
      by_host t (refused e) a c = tt
      by_host t (accepted host) a c = by_port t host _ a c refl

      by_authority :
          (o : Option Authority)
          → r.authority ≡ o
          → All (IsAllowed p r) (on_authority w routes r o).attempts
      by_authority none a = tt
      by_authority (some t) a =
          if_cases (λ (o : Forwarded H). All (IsAllowed p r) o.attempts)
            (not r.is_connect && not (is_http r.scheme)) _ _ (λ _. tt) λ _. by_host t _ a refl

  -- With the routes of a policy that `prepare` accepted, every connection that the proxy tries is for a
  -- request with the credential, and the policy, which is valid, grants it: one of its endpoints has the
  -- canonical host and the port of the request, and the address is the endpoint's literal IP address
  -- with that port, or a public address that the name server gave for that host and port.
  pub handle-IsAllowed :
      (secret : Bytes) (p : Policy) (prepared : Prepared) (r : Request H)
      → prepare w.parse_v6 w.show_v6 w.lookup_host secret p ≡ made prepared
      → (validate w.parse_v6 w.show_v6 p ≡ accepted tt)
        × All
            (λ a. (supplied r ≡ authorization w.base64 prepared.credential) × IsAllowed p r a)
            (handle w prepared r).attempts
  unfolding handle
  handle-IsAllowed secret p prepared r h =
      let (valid, granted) =
        prepare-AreGranted w.parse_v6 w.show_v6 w.lookup_host secret p prepared h in
      (
        valid,
        if_cases (λ (o : Forwarded H). All Tried o.attempts)
            (beq (supplied r) (authorization w.base64 prepared.credential)) _ _
            (λ e. member-All Tried _ λ a i. (
              (beq_iff _ _).0 e,
              All-member (IsAllowed p r) _ (forward-IsAllowed p prepared.routes r granted) i,
            ))
            λ _. tt,
      )
    where
      Tried : Address → Type 0
      Tried a = (supplied r ≡ authorization w.base64 prepared.credential) × IsAllowed p r a
