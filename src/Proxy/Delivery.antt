-- ===== src/Proxy/Delivery.antt =====
-- crates/world-runtime/src/proxy.rs: the endpoints of a policy can be reached.
use world.Prelude.{
  ℕ, ◌≡◌, ◌⊎◌, inl, inr, refl, ap, sym, ◌∙◌, subst, Bool, true, false, ◌||◌, ◌&&◌, not, List, [],
  ◌∷◌, ◌++◌, Option, none, some, is_empty, Option-cases, Bool-cases, if_cases, if◌then◌else◌, arith,
}
use mathlib.Core.List.{Memᴰ}
use world.Prelude.Pigeonhole.{All}
use world.Prelude.Members.{All-member}
use world.Bytes.{Bytes, codes, beq, beq_iff}
use world.Map.{get, insert}
use world.Map.Order.{bytes_key}
use world.Map.Laws.{get-insert}
use world.Policy.{
  Checked, accepted, refused, Endpoint, Policy, authority, parse_ip, canonical_host, validate,
}
use world.Proxy.Headers.{HeaderMap}
use world.Proxy.Prepare.{
  Address, Routes, Prepared, Made, made, failed, any_private, of_answer, addresses_of, route_each,
  with_credential, when_valid, prepare,
}
use world.Proxy.Forward.{
  Authority, Request, said, tunnel, Forwarded, Outside, is_http, effective_port, on_authority,
  on_host, on_port, on_route, trim_brackets, try_each, forward, authorization, supplied, handle,
}
use world.Proxy.Routes.{authority-injective}
use world.Proxy.Grants.{made_inj, with_host-IsRound}

module _ (parse_v6 : Bytes → Option (List ℕ)) (show_v6 : List ℕ → Bytes)
    (lookup_host : Bytes → ℕ → Option (List Address)) where
  of_answer-filled :
      (o : Option (List Address)) (found : List Address)
      → of_answer parse_v6 show_v6 lookup_host o ≡ made found
      → is_empty found ≡ false
  of_answer-filled none found h = cc
  of_answer-filled (some answers) found h =
      if_cases (λ x. x ≡ made found → is_empty found ≡ false)
        (is_empty answers || any_private answers) _ _ (λ _ e. cc)
        (λ t e. subst (λ l. is_empty l ≡ false) (made_inj e) (left _ _ t)) h
    where
      left : (x y : Bool) → (x || y) ≡ false → x ≡ false
      left x y t = ground (arith, t)

  addresses_of-filled :
      (host : Bytes) (port : ℕ) (found : List Address)
      → addresses_of parse_v6 show_v6 lookup_host host port ≡ made found
      → is_empty found ≡ false
  unfolding addresses_of
  addresses_of-filled host port found h = elim (Option-cases (parse_ip parse_v6 show_v6 host)) [
    | inl n ↦ of_answer-filled (lookup_host host port) found (rw n at h)
    | inr (ip, e) ↦ subst (λ l. is_empty l ≡ false) (made_inj (rw e at h)) refl
  ]

  -- A route with the addresses of its host and port
  unfoldable pub HasRoute : Bytes → ℕ → Routes → Type 0
  HasRoute host port routes =
      (found : List Address) × (get (authority host port) routes ≡ some found)
      × (addresses_of parse_v6 show_v6 lookup_host host port ≡ made found)

  -- A later route of the same host and port has their addresses too.
  insert-HasRoute :
      (host : Bytes) (port : ℕ) (found : List Address) (routes : Routes) (other : Bytes) (p : ℕ)
      → addresses_of parse_v6 show_v6 lookup_host host port ≡ made found
      → HasRoute other p routes
      → HasRoute other p (insert (authority host port) found routes)
  unfolding HasRoute
  insert-HasRoute host port found routes other p h (old, g, f) =
      elim (Bool-cases (beq (authority host port) (authority other p))) [
        | inl e ↦
            let (hosts, ports) = authority-injective host other port p ((beq_iff _ _).0 e) in
            (
              found,
              get-insert (authority host port) (authority other p) found routes ∙ rw e refl,
              ap (λ x. addresses_of parse_v6 show_v6 lookup_host x p) (sym hosts)
                  ∙ ap (addresses_of parse_v6 show_v6 lookup_host host) (sym ports)
                  ∙ h,
            )
        | inr e ↦
            (old, get-insert (authority host port) (authority other p) found routes ∙ rw e g, f)
      ]

  inserted-HasRoute :
      (host : Bytes) (port : ℕ) (found : List Address) (routes : Routes)
      → addresses_of parse_v6 show_v6 lookup_host host port ≡ made found
      → HasRoute host port (insert (authority host port) found routes)
  unfolding HasRoute
  inserted-HasRoute host port found routes h =
      let key = authority host port in
      let same : beq key key ≡ true = (beq_iff key key).1 refl in
      (found, get-insert key key found routes ∙ rw same refl, h)

  route_each-HasRoute :
      (es : List Endpoint) (routes after : Routes) (host : Bytes) (port : ℕ)
      → HasRoute host port routes
      → route_each parse_v6 show_v6 lookup_host es routes ≡ made after
      → HasRoute host port after
  unfolding route_each
  route_each-HasRoute [] routes after host port g h = subst (HasRoute host port) (made_inj h) g
  route_each-HasRoute (e ∷ es) routes after host port g h =
      let round = with_host-IsRound parse_v6 show_v6 lookup_host e.port _ _ routes after h in
      route_each-HasRoute es _ after host port
        (insert-HasRoute round.host e.port round.found routes host port round.resolved g)
        round.further

  -- An endpoint that has a route
  pub IsRouted : Routes → Endpoint → Type 0
  IsRouted routes e =
      (host : Bytes) × (canonical_host parse_v6 show_v6 e.host ≡ accepted host)
      × HasRoute host e.port routes

  route_each-IsRouted :
      (es : List Endpoint) (routes after : Routes)
      → route_each parse_v6 show_v6 lookup_host es routes ≡ made after
      → All (IsRouted after) es
  unfolding route_each IsRouted
  route_each-IsRouted [] routes after h = tt
  route_each-IsRouted (e ∷ es) routes after h =
      let round = with_host-IsRound parse_v6 show_v6 lookup_host e.port _ _ routes after h in
      (
        (
          round.host,
          round.canonical,
          route_each-HasRoute es _ after _ _
              (inserted-HasRoute round.host e.port round.found routes round.resolved) round.further,
        ),
        route_each-IsRouted es _ after round.further,
      )

  pub prepare-IsRouted :
      (secret : Bytes) (p : Policy) (prepared : Prepared)
      → prepare parse_v6 show_v6 lookup_host secret p ≡ made prepared
      → All (IsRouted prepared.routes) p.allow
  unfolding prepare
  prepare-IsRouted secret p prepared h = by_validation (validate parse_v6 show_v6 p) h
    where
      by_routes :
          (o : Made Routes)
          → route_each parse_v6 show_v6 lookup_host p.allow [] ≡ o
          → with_credential parse_v6 show_v6 lookup_host secret o ≡ made prepared
          → All (IsRouted prepared.routes) p.allow
      by_routes (failed x) r k = cc
      by_routes (made routes) r k =
          subst (λ q. All (IsRouted q) p.allow) (ap (λ q. q.routes) (made_inj k))
            (route_each-IsRouted p.allow [] routes r)

      by_validation :
          (c : Checked (Unit {0}))
          → when_valid parse_v6 show_v6 lookup_host c (
              with_credential parse_v6 show_v6 lookup_host secret
                (route_each parse_v6 show_v6 lookup_host p.allow []))
            ≡ made prepared
          → All (IsRouted prepared.routes) p.allow
      by_validation (refused x) k = cc
      by_validation (accepted x) k =
          by_routes (route_each parse_v6 show_v6 lookup_host p.allow []) refl k

module _ {H : Type 0} ⦃m : HeaderMap H⦄ (w : Outside H) where
  -- What comes of a `CONNECT` to some addresses: the addresses up to the first that accepts the
  -- connection are tried, or all of them.
  pub IsServed : List Address → Forwarded H → Type 0
  IsServed found o =
      ((before : List Address) × (a : Address) × (after : List Address) × (found
          ≡ before ++ a ∷ after)
        × All (λ b. w.connects b ≡ false) before
        × (w.connects a ≡ true)
        × (o.attempts ≡ before ++ a ∷ [])
        × (o.answer ≡ some (tunnel a)))
      ⊎ (All (λ b. w.connects b ≡ false) found × (o.attempts ≡ found) × (o.answer ≡ none))

  try_each-IsServed :
      (r : Request H) (target : Authority) (found : List Address)
      → r.is_connect ≡ true
      → IsServed found (try_each w r target found)
  unfolding try_each IsServed
  try_each-IsServed r target [] c = inr (tt, refl, refl)
  try_each-IsServed r target (a ∷ rest) c = elim (Bool-cases (w.connects a)) [
    | inl e ↦ inl ([], a, rest, refl, tt, e, rw e refl, rw (e, c) refl)
    | inr e ↦ elim (try_each-IsServed r target rest c) [
      | inl (before, b, after, f, n, k, t, s) ↦
          inl (a ∷ before, b, after, ap (λ l. a ∷ l) f, (e, n), k, rw e (ap (λ l. a ∷ l) t), rw e s)
      | inr (k, t, s) ↦ inr ((e, k), rw e (ap (λ l. a ∷ l) t), rw e s)
    ]
  ]

  forward-IsServed :
      (routes : Routes) (r : Request H) (target : Authority) (host : Bytes) (port : ℕ)
      → (found : List Address) → r.is_connect ≡ true
      → r.authority ≡ some target
      → canonical_host w.parse_v6 w.show_v6 (trim_brackets target.host) ≡ accepted host
      → target.port_u16 ≡ some port
      → get (authority host port) routes ≡ some found
      → IsServed found (forward w routes r)
  unfolding forward
  forward-IsServed routes r target host port found c a h p g =
      subst (IsServed found) (sym reached) (try_each-IsServed r target found c)
    where
      past_scheme : (x y : Bool) (o q : Forwarded H) → x ≡ true → (if not x && y then o else q) ≡ q
      past_scheme x y o q e = ground (arith, e)

      reached : forward w routes r ≡ try_each w r target found
      reached =
          ap (on_authority w routes r) a
          ∙ past_scheme r.is_connect (not (is_http r.scheme)) _ _ c
          ∙ ap (on_host w routes r target) h
          ∙ ap (λ q. on_port w routes r target host (effective_port r.is_connect q)) p
          ∙ ap (on_route w r target) g

  -- What the proxy has done for a `CONNECT` to some addresses: it has tried them in their order up to
  -- the first that accepts the connection, to which the tunnel leads, or it has tried each of them, in
  -- vain, and answers 502.
  unfoldable pub IsAnswered : List Address → Forwarded H → Type 0
  IsAnswered found o =
      ((before : List Address) × (a : Address) × (after : List Address) × (found
          ≡ before ++ a ∷ after)
        × All (λ b. w.connects b ≡ false) before
        × (w.connects a ≡ true)
        × (o.attempts ≡ before ++ a ∷ [])
        × (o.answer ≡ some (tunnel a)))
      ⊎ (All (λ b. w.connects b ≡ false) found
          × (o.attempts ≡ found)
          × (o.answer ≡ some (said 502 (codes "upstream unavailable"))))

  -- A `CONNECT` with the credential, for the canonical host and the port of an endpoint of the policy, is
  -- never denied. The host has addresses, at least one: the endpoint's literal address, or what the
  -- name server gave. The proxy tries them in their order up to the first that accepts the connection,
  -- and gives a tunnel to that one; if none does, it has tried each of them and answers 502.
  pub handle-tunnel :
      (secret : Bytes) (p : Policy) (prepared : Prepared) (e : Endpoint) (r : Request H)
      → (target : Authority) → prepare w.parse_v6 w.show_v6 w.lookup_host secret p ≡ made prepared
      → Memᴰ e p.allow
      → supplied r ≡ authorization w.base64 prepared.credential
      → r.is_connect ≡ true
      → r.authority ≡ some target
      → canonical_host w.parse_v6 w.show_v6 (trim_brackets target.host)
        ≡ canonical_host w.parse_v6 w.show_v6 e.host
      → target.port_u16 ≡ some e.port
      → (host : Bytes) × (found : List Address) × (canonical_host w.parse_v6 w.show_v6 e.host
          ≡ accepted host)
        × (addresses_of w.parse_v6 w.show_v6 w.lookup_host host e.port ≡ made found)
        × (is_empty found ≡ false)
        × IsAnswered found (handle w prepared r)
  unfolding handle HasRoute IsRouted IsServed IsAnswered
  handle-tunnel secret p prepared e r target h i s c a n o =
      let (host, canonical, (found, routed, resolved)) =
        All-member _ p.allow
          (prepare-IsRouted w.parse_v6 w.show_v6 w.lookup_host secret p prepared h) i in
      let known : beq (supplied r) (authorization w.base64 prepared.credential) ≡ true =
        (beq_iff _ _).1 s in
      (
        host,
        found,
        canonical,
        resolved,
        addresses_of-filled w.parse_v6 w.show_v6 w.lookup_host host e.port found resolved,
        elim (forward-IsServed prepared.routes r target host e.port found c a (n ∙ canonical) o
            routed) [
              | inl (before, b, after, f, m, k, t, u) ↦
                  inl (before, b, after, f, m, k, rw (known, t) refl, rw (known, u) refl)
              | inr (k, t, u) ↦ inr (k, rw (known, t) refl, rw (known, u) refl)
            ],
      )
