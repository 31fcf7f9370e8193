-- ===== src/Proxy/Grants.antt =====
-- crates/world-runtime/src/proxy.rs: the policy grants every connection that the proxy tries.
use world.Prelude.{
  ℕ, ◌≡◌, ◌⊎◌, refl, inl, inr, ap, sym, subst, ◌∙◌, Bool, true, false, ◌||◌, not, List, [], ◌∷◌,
  Option, none, some, is_empty, Option-cases, if_cases, arith,
}
use mathlib.Core.List.{Memᴰ}
use world.Prelude.Pigeonhole.{All}
use world.Prelude.Members.{All-member, member-All}
use world.Bytes.{Bytes, beq_iff, beq}
use world.Map.{get, insert}
use world.Map.Order.{bytes_key}
use world.Map.Laws.{get-insert}
use world.Policy.{
  Checked, accepted, refused, Endpoint, Policy, authority, parse_ip, canonical_host, validate,
}
use world.Proxy.Public.{public_ip}
use world.Proxy.Prepare.{
  Address, Routes, Prepared, Made, made, failed, any_private, of_answer, addresses_of, with_route,
  with_host, route_each, with_credential, when_valid, prepare,
}

pub made_inj {ℓ} : {A : Type ℓ} {x y : A} → made x ≡ made y → x ≡ y
made_inj e = ground (arith, e)

module _ (parse_v6 : Bytes → Option (List ℕ)) (show_v6 : List ℕ → Bytes)
    (lookup_host : Bytes → ℕ → Option (List Address)) where
  -- A public address that the name server gave for a host
  pub record IsAnswer (host : Bytes) (port : ℕ) (a : Address) : Type 0 where
    pub is_name : parse_ip parse_v6 show_v6 host ≡ none
    pub answers : List Address
    pub looked_up : lookup_host host port ≡ some answers
    pub listed : Memᴰ a answers
    pub is_public : public_ip a.ip ≡ true

  -- A literal address of the policy, or a public address of its host
  abbrev pub IsAddressOf : Bytes → ℕ → Address → Type 0
  IsAddressOf host port a =
      (parse_ip parse_v6 show_v6 host ≡ some a.ip) × (a.port ≡ port) ⊎ IsAnswer host port a

  -- An endpoint of the policy that the key of a route names, and that has the address
  pub record IsGranted (endpoints : List Endpoint) (key : Bytes) (a : Address) : Type 0 where
    pub endpoint : Endpoint
    pub listed : Memᴰ endpoint endpoints
    pub host : Bytes
    pub canonical : canonical_host parse_v6 show_v6 endpoint.host ≡ accepted host
    pub named : authority host endpoint.port ≡ key
    pub reached : IsAddressOf host endpoint.port a

  any_private-All :
      (found : List Address) → any_private found ≡ false → All (λ a. public_ip a.ip ≡ true) found
  unfolding any_private
  any_private-All [] h = tt
  any_private-All (a ∷ rest) h =
      let (p, q) = parts (public_ip a.ip) (any_private rest) h in (p, any_private-All rest q)
    where
      parts : (x y : Bool) → (not x || y) ≡ false → (x ≡ true) × (y ≡ false)
      parts x y h = ground (arith, h)

  of_answer-IsAnswer :
      (host : Bytes) (port : ℕ) (o : Option (List Address)) (found : List Address)
      → parse_ip parse_v6 show_v6 host ≡ none
      → lookup_host host port ≡ o
      → of_answer parse_v6 show_v6 lookup_host o ≡ made found
      → All (IsAddressOf host port) found
  of_answer-IsAnswer host port none found n l h = cc
  of_answer-IsAnswer host port (some answers) found n l h =
      if_cases (λ x. x ≡ made found → All (IsAddressOf host port) found)
        (is_empty answers || any_private answers) _ _ (λ _ e. cc)
        (λ t e.
          subst (All (IsAddressOf host port)) (made_inj e)
            (all_public (right (is_empty answers) t)))
        h
    where
      right : (x : Bool) {y : Bool} → (x || y) ≡ false → y ≡ false
      right x t = ground (arith, t)

      all_public : any_private answers ≡ false → All (IsAddressOf host port) answers
      all_public t = member-All _ answers λ a i. inr (record {
        is_name = n;
        answers = answers;
        looked_up = l;
        listed = i;
        is_public = All-member _ answers (any_private-All answers t) i;
      })

  addresses_of-All :
      (host : Bytes) (port : ℕ) (found : List Address)
      → addresses_of parse_v6 show_v6 lookup_host host port ≡ made found
      → All (IsAddressOf host port) found
  unfolding addresses_of
  addresses_of-All host port found h = elim (Option-cases (parse_ip parse_v6 show_v6 host)) [
    | inl n ↦ of_answer-IsAnswer host port (lookup_host host port) found n refl (rw n at h)
    | inr (ip, e) ↦ subst (All (IsAddressOf host port)) (made_inj (rw e at h)) (inl (e, refl), tt)
  ]

  -- Every address behind a key is granted to it.
  unfoldable pub AreGranted : List Endpoint → Routes → Type 0
  AreGranted endpoints routes =
      (key : Bytes) (found : List Address)
      → get key routes ≡ some found
      → All (IsGranted endpoints key) found

  insert-AreGranted :
      (endpoints : List Endpoint) (key : Bytes) (found : List Address) (routes : Routes)
      → All (IsGranted endpoints key) found
      → AreGranted endpoints routes
      → AreGranted endpoints (insert key found routes)
  unfolding AreGranted
  insert-AreGranted endpoints key found routes g h other result e =
      if_cases
        (λ (o : Option (List Address)). o ≡ some result → All (IsGranted endpoints other) result)
        (beq key other) (some found) (get other routes)
        (λ t s.
          subst (All (IsGranted endpoints other)) (some_inj s)
            (subst (λ k. All (IsGranted endpoints k) found) ((beq_iff key other).0 t) g))
        (λ _ s. h other result s) (sym (get-insert key other found routes) ∙ e)
    where
      some_inj : some found ≡ some result → found ≡ result
      some_inj s = ground (arith, s)

  -- What a round of the loop has made
  pub record IsRound (port : ℕ) (c : Checked Bytes) (rest : Routes → Made Routes)
      (routes after : Routes) : Type 0 where
    pub host : Bytes
    pub found : List Address
    pub canonical : c ≡ accepted host
    pub resolved : addresses_of parse_v6 show_v6 lookup_host host port ≡ made found
    pub further : rest (insert (authority host port) found routes) ≡ made after

  pub with_host-IsRound :
      (port : ℕ) (c : Checked Bytes) (rest : Routes → Made Routes) (routes after : Routes)
      → with_host parse_v6 show_v6 lookup_host port c rest routes ≡ made after
      → IsRound port c rest routes after
  with_host-IsRound port (refused e) rest routes after h = cc
  with_host-IsRound port (accepted host) rest routes after h =
      by_addresses (addresses_of parse_v6 show_v6 lookup_host host port) refl h
    where
      by_addresses :
          (o : Made (List Address))
          → addresses_of parse_v6 show_v6 lookup_host host port ≡ o
          → with_route parse_v6 show_v6 lookup_host (authority host port) o rest routes ≡ made after
          → IsRound port (accepted host) rest routes after
      by_addresses (failed e) a k = cc
      by_addresses (made found) a k = record {
        host = host;
        found = found;
        canonical = refl;
        resolved = a;
        further = k;
      }

  route_each-AreGranted :
      (endpoints es : List Endpoint) (routes after : Routes)
      → All (λ e. Memᴰ e endpoints) es
      → AreGranted endpoints routes
      → route_each parse_v6 show_v6 lookup_host es routes ≡ made after
      → AreGranted endpoints after
  unfolding route_each
  route_each-AreGranted endpoints [] routes after i g h =
      subst (AreGranted endpoints) (made_inj h) g
  route_each-AreGranted endpoints (e ∷ es) routes after (i, rest) g h =
      let round =
        with_host-IsRound e.port (canonical_host parse_v6 show_v6 e.host)
          (route_each parse_v6 show_v6 lookup_host es) routes after h in
      route_each-AreGranted endpoints es _ after rest
        (insert-AreGranted endpoints (authority round.host e.port) round.found routes
          (granted round.host round.canonical round.found
            (addresses_of-All round.host e.port round.found round.resolved))
          g)
        round.further
    where
      granted :
          (host : Bytes)
          → canonical_host parse_v6 show_v6 e.host ≡ accepted host
          → (found : List Address) → All (IsAddressOf host e.port) found
          → All (IsGranted endpoints (authority host e.port)) found
      granted host c found reached = member-All _ found λ a j. record {
        endpoint = e;
        listed = i;
        host = host;
        canonical = c;
        named = refl;
        reached = All-member _ found reached j;
      }

  pub prepare-AreGranted :
      (secret : Bytes) (p : Policy) (prepared : Prepared)
      → prepare parse_v6 show_v6 lookup_host secret p ≡ made prepared
      → (validate parse_v6 show_v6 p ≡ accepted tt) × AreGranted p.allow prepared.routes
  unfolding prepare AreGranted get
  prepare-AreGranted secret p prepared h = by_validation (validate parse_v6 show_v6 p) refl h
    where
      no_routes : AreGranted p.allow []
      no_routes key found e = cc

      by_routes :
          (o : Made Routes)
          → route_each parse_v6 show_v6 lookup_host p.allow [] ≡ o
          → with_credential parse_v6 show_v6 lookup_host secret o ≡ made prepared
          → AreGranted p.allow prepared.routes
      by_routes (failed x) r k = cc
      by_routes (made routes) r k = subst (AreGranted p.allow) (routes_of k) (
          route_each-AreGranted p.allow p.allow [] routes (member-All _ p.allow λ e i. i) no_routes
            r)
        where
          routes_of : {x : Prepared} → made x ≡ made prepared → x.routes ≡ prepared.routes
          routes_of e = ap (λ q. q.routes) (made_inj e)

      by_validation :
          (c : Checked (Unit {0}))
          → validate parse_v6 show_v6 p ≡ c
          → when_valid parse_v6 show_v6 lookup_host c (
              with_credential parse_v6 show_v6 lookup_host secret
                (route_each parse_v6 show_v6 lookup_host p.allow []))
            ≡ made prepared
          → (validate parse_v6 show_v6 p ≡ accepted tt) × AreGranted p.allow prepared.routes
      by_validation (refused x) v k = cc
      by_validation (accepted x) v k =
          (v, by_routes (route_each parse_v6 show_v6 lookup_host p.allow []) refl k)
