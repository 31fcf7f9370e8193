-- ===== src/Policy/Validation.antt =====
-- crates/world-runtime/src/policy.rs: what `Policy::validate` accepts.
use world.Prelude.{
  ℕ, ◌<◌, ◌≤◌, ◌==◌, ◌≡◌, ◌↔◌, refl, Bool, true, false, ◌||◌, List, [], ◌∷◌, Option, ltb, is_empty,
  length, arith, if◌then◌else◌,
}
use world.Prelude.Pigeonhole.{All}
use world.Bytes.{Bytes, contains}
use world.Policy.{
  Checked, accepted, refused, Refusal, invalid_network_id, too_many_destinations, zero_port,
  Endpoint, Policy, canonical_host, checked_port, check_endpoints, validate,
}

gate :
    (x : Bool) (r : Refusal) (rest : Checked (Unit {0}))
    → (if x then refused r else rest) ≡ accepted tt
    → (x ≡ false) × (rest ≡ accepted tt)
gate true r rest h = cc
gate false r rest h = (refl, h)

five_false :
    (a b c d e : Bool)
    → (a || b || (c || d || e)) ≡ false
    → (a ≡ false) × (b ≡ false) × (c ≡ false) × (d ≡ false) × (e ≡ false)
five_false a b c d e h = ground (arith, h)

module _ (parse_v6 : Bytes → Option (List ℕ)) (show_v6 : List ℕ → Bytes) where
  -- A destination with a host and a port
  abbrev pub IsDestination : Endpoint → Type 0
  IsDestination e =
      ((host : Bytes) × (canonical_host parse_v6 show_v6 e.host ≡ accepted host)) × (0 < e.port)

  pub record IsPolicy (p : Policy) : Type 0 where
    pub filled : is_empty p.network_id ≡ false
    pub short : length p.network_id ≤ 128
    pub no_nul : contains 0 p.network_id ≡ false
    pub no_return : contains b'\r' p.network_id ≡ false
    pub no_newline : contains b'\n' p.network_id ≡ false
    pub few : length p.allow ≤ 256
    pub destinations : All IsDestination p.allow

  checked_port-parts :
      (c : Checked Bytes) (port : ℕ) (rest : Checked (Unit {0}))
      → checked_port parse_v6 show_v6 c port rest ≡ accepted tt
      → ((host : Bytes) × (c ≡ accepted host)) × (0 < port) × (rest ≡ accepted tt)
  checked_port-parts (refused e) port rest h = cc
  checked_port-parts (accepted host) port rest h =
      let (z, r) = gate (port == 0) zero_port rest h in ((host, refl), ground (arith, z), r)

  check_endpoints-All :
      (es : List Endpoint)
      → check_endpoints parse_v6 show_v6 es ≡ accepted tt
      → All IsDestination es
  unfolding check_endpoints
  check_endpoints-All [] h = tt
  check_endpoints-All (e ∷ es) h =
      let (host, port, rest) =
        checked_port-parts (canonical_host parse_v6 show_v6 e.host) e.port _ h in
      ((host, port), check_endpoints-All es rest)

  All-check_endpoints :
      (es : List Endpoint)
      → All IsDestination es
      → check_endpoints parse_v6 show_v6 es ≡ accepted tt
  unfolding check_endpoints
  All-check_endpoints [] h = refl
  All-check_endpoints (e ∷ es) (((host, c), port), rest) =
      let positive : (e.port == 0) ≡ false = ground (arith, port) in
      rw (c, positive) (All-check_endpoints es rest)

  validate-IsPolicy : (p : Policy) → validate parse_v6 show_v6 p ≡ accepted tt → IsPolicy p
  unfolding validate
  validate-IsPolicy p h =
      let (network, h1) = gate _ invalid_network_id _ h in
      let (many, h2) = gate (ltb 256 (length p.allow)) too_many_destinations _ h1 in
      let (a, b, c, d, e) =
        five_false (is_empty p.network_id) (ltb 128 (length p.network_id)) (contains 0 p.network_id)
          (contains b'\r' p.network_id) (contains b'\n' p.network_id) network in
      record {
        filled = a;
        short = ground (arith, b);
        no_nul = c;
        no_return = d;
        no_newline = e;
        few = ground (arith, many);
        destinations = check_endpoints-All p.allow h2;
      }

  IsPolicy-validate : (p : Policy) → IsPolicy p → validate parse_v6 show_v6 p ≡ accepted tt
  unfolding validate
  IsPolicy-validate p i =
      let short : ltb 128 (length p.network_id) ≡ false = ground (arith, i.short) in
      let few : ltb 256 (length p.allow) ≡ false = ground (arith, i.few) in
      rw (i.filled, short, i.no_nul, i.no_return, i.no_newline, few)
        (All-check_endpoints p.allow i.destinations)

  -- `validate` accepts a policy exactly when the identifier of its network has 1 to 128 bytes without NUL
  -- or an end of line, and it has at most 256 destinations, each with a host that `canonical_host`
  -- accepts and a port that is not zero.
  pub validate_iff : (p : Policy) → (validate parse_v6 show_v6 p ≡ accepted tt) ↔ IsPolicy p
  validate_iff p = (validate-IsPolicy p, IsPolicy-validate p)
