-- ===== src/Registry/Free.antt =====
-- crates/world-runtime/src/silo.rs: the search of `allocate` finds an address if there is one.
use world.Prelude.{
  ℕ, zero, suc, ◌+◌, ◌≤◌, ◌<◌, ◌==◌, ==_iff, ◌≡◌, ◌≢◌, ◌⊎◌, inl, inr, refl, ap, ◌∙◌, subst, Bool,
  true, false, ◌&&◌, ◌||◌, not, Option, none, some, Bool-cases, if◌then◌else◌, arith,
}
use world.Bytes.{Bytes, beq, beq_iff}
use world.Map.{Map, get, insert, contains_key}
use world.Map.Order.{bytes_key}
use world.Map.Laws.{get-insert}
use world.Registry.Types.{
  Ipv4Addr, World, Store, Act, done, failed, pool_exhausted, pure, bail, ◌>>=◌,
}
use world.Registry.Paths.{
  plain_path, Host, built, marked, is_linux, root_for, is_usable_root, check_root, new_root,
}
use world.Registry.Roots.{
  ip_at, in_use, insert_new, by_building, write_marker, by_marking, when_owned, is_unmarked_root,
  temp_root_in, mark_root, is_unmarked, claim_marked, claim_root, or_next, allocate_from, allocate,
}
use world.Registry.Logic.{bind-done}

module _ (host : Host) (home : Bytes) where
  -- The root below the home of every address that the loop tries can be built and marked, and is one
  -- that the registry may use.
  pub record IsReady : Type 0 where
    pub builds : (n : ℕ) → host.builds home (ip_at n) ≡ built
    pub marks : (n : ℕ) → host.marks (root_for home (ip_at n)) ≡ marked
    pub usable : (n : ℕ) → is_usable_root host (root_for home (ip_at n)) ≡ true

  -- The root of an address is there, without the owner's marker.
  abbrev pub IsHeld : Ipv4Addr → Bytes → Store → Type 0
  IsHeld ip owner s =
      (entry : Option Bytes) × (get (plain_path (root_for home ip)) s.disk ≡ some entry)
      × (entry ≢ some owner)

  new_root-ready :
      (ready : IsReady) (n : ℕ) (s : Store)
      → new_root host home (ip_at n) s ≡ (done (root_for home (ip_at n)), s)
  unfolding new_root check_root
  new_root-ready ready n s = rw (ready.usable n) refl

  -- The tree of the root is built, and the marker is tried.
  claim_unmarked :
      (ready : IsReady) (n : ℕ) (owner : Bytes) (s : Store)
      → is_unmarked (get (plain_path (root_for home (ip_at n))) s.disk) ≡ false
      → claim_root host home (ip_at n) owner s
        ≡ (mark_root host (root_for home (ip_at n)) owner >>= λ owned.
              pure (when_owned (root_for home (ip_at n)) owned))
            (insert_new (plain_path (root_for home (ip_at n))) s)
  unfolding claim_root temp_root_in
  claim_unmarked ready n owner s u =
      let root = root_for home (ip_at n) in
      bind-done (new_root host home (ip_at n)) _ s root s (new_root-ready ready n s)
      ∙ bind-done (is_unmarked_root host root) (claim_marked host home (ip_at n) owner root) s false
          s (ap (λ b. (done b, s)) u)
      ∙ bind-done (temp_root_in host home (ip_at n))
          (λ _. mark_root host root owner >>= λ owned. pure (when_owned root owned)) s root
          (insert_new (plain_path root) s) (ap (λ b. by_building b root s) (ready.builds n))

  marked_by :
      (root owner : Bytes) (s : Store) (entry : Option (Option Bytes)) (b : Bool) (t : Store)
      → host.marks root ≡ marked
      → get (plain_path root) s.disk ≡ entry
      → by_marking marked (plain_path root) owner entry s ≡ (done b, t)
      → (mark_root host root owner >>= λ owned. pure (when_owned root owned)) s
        ≡ (done (when_owned root b), t)
  unfolding mark_root pure
  marked_by root owner s entry b t r g h = bind-done (mark_root host root owner) _ s b t (
      ap (λ m. by_marking m (plain_path root) owner (get (plain_path root) s.disk) s) r
      ∙ ap (λ e. by_marking marked (plain_path root) owner e s) g
      ∙ h)

  unmarked_root :
      (ready : IsReady) (n : ℕ) (owner : Bytes) (s : Store)
      → get (plain_path (root_for home (ip_at n))) s.disk ≡ some none
      → claim_root host home (ip_at n) owner s ≡ (done none, s)
  unfolding claim_root new_root check_root
  unmarked_root ready n owner s g = rw (ready.usable n, g) refl

  abbrev pub IsTried : Ipv4Addr → Bytes → Store → Type 0
  IsTried ip owner s =
      ((claim_root host home ip owner s ≡ (done none, s)) × IsHeld ip owner s)
      ⊎ ((t : Store) × (claim_root host home ip owner s ≡ (done (some (root_for home ip)), t)))

  claim_root-IsTried :
      (ready : IsReady) (n : ℕ) (owner : Bytes) (s : Store) → IsTried (ip_at n) owner s
  unfolding contains_key
  claim_root-IsTried ready n owner s = by_entry (get key s.disk) refl
    where
      root : Bytes
      root = root_for home (ip_at n)

      key : Bytes
      key = plain_path root

      not_unmarked :
          (o : Option (Option Bytes))
          → get key s.disk ≡ o
          → is_unmarked o ≡ false
          → is_unmarked (get key s.disk) ≡ false
      not_unmarked o g e = ap is_unmarked g ∙ e

      contained : (o : Option Bytes) → get key s.disk ≡ some o → contains_key key s.disk ≡ true
      contained o g = ground (arith, g)

      missing : get key s.disk ≡ none → contains_key key s.disk ≡ false
      missing g = ground (arith, g)

      kept : (o : Option Bytes) → get key s.disk ≡ some o → insert_new key s ≡ s
      kept o g =
          ap (λ b. if b then s else (record s { disk = insert key none s.disk })) (contained o g)

      added : get key s.disk ≡ none → insert_new key s ≡ record s { disk = insert key none s.disk }
      added g = ap (λ b. if b then s else (record s { disk = insert key none s.disk })) (missing g)

      there : get key (insert key none s.disk) ≡ some none
      there = get-insert key key none s.disk ∙ rw ((beq_iff key key).1 refl) refl

      by_text : (text : Bytes) → get key s.disk ≡ some (some text) → IsTried (ip_at n) owner s
      by_text text g =
          let tried : (b : Bool)
              → beq text owner ≡ b
              → claim_root host home (ip_at n) owner s ≡ (done (when_owned root b), s) =
            λ b e.
              claim_unmarked ready n owner s (not_unmarked (some (some text)) g refl)
              ∙ ap (mark_root host root owner >>= λ owned. pure (when_owned root owned))
                  (kept (some text) g)
              ∙ marked_by root owner s (some (some text)) b s (ready.marks n) g
                  (ap (λ x. (done x, s)) e) in
          elim (Bool-cases (beq text owner)) [
            | inl e ↦ inr (s, tried true e)
            | inr e ↦ inl (tried false e, (some text, g, apart text e))
          ]
        where
          apart : (text : Bytes) → beq text owner ≡ false → some text ≢ some owner
          apart text e k = ground (arith, e, k, beq_iff text owner)

      by_entry : (o : Option (Option Bytes)) → get key s.disk ≡ o → IsTried (ip_at n) owner s
      by_entry none g = inr (
        write_marker key owner (record s { disk = insert key none s.disk }),
        claim_unmarked ready n owner s (not_unmarked none g refl)
            ∙ ap (mark_root host root owner >>= λ owned. pure (when_owned root owned)) (added g)
            ∙ marked_by root owner (record s { disk = insert key none s.disk }) (some none) true _
                (ready.marks n) there refl,
      )
      by_entry (some none) g = inl (unmarked_root ready n owner s g, (none, g, not_owner))
        where
          not_owner : ◌≢◌ {A = Option Bytes} none (some owner)
          not_owner e = cc
      by_entry (some (some text)) g = by_text text g

  -- The address of a round cannot be had.
  abbrev pub IsTaken : Map Bytes World → Bytes → Store → ℕ → Type 0
  IsTaken worlds owner s n =
      ((in_use (ip_at n) worlds || (not (is_linux host.target) && host.alias_ready (ip_at n)))
        ≡ true)
      ⊎ IsHeld (ip_at n) owner s

  abbrev pub IsSearched : Map Bytes World → Bytes → (rounds n : ℕ) → Store → Type 0
  IsSearched worlds owner rounds n s =
      ((place : Ipv4Addr × Bytes) × (t : Store) × (allocate_from host worlds home owner rounds n s
          ≡ (done place, t)))
      ⊎ ((allocate_from host worlds home owner rounds n s ≡ (failed pool_exhausted, s))
          × ((k : ℕ) → n ≤ k → k < n + rounds → IsTaken worlds owner s k))

  allocate_from-IsSearched :
      (ready : IsReady) (worlds : Map Bytes World) (owner : Bytes) (rounds n : ℕ) (s : Store)
      → IsSearched worlds owner rounds n s
  unfolding allocate_from bail
  allocate_from-IsSearched ready worlds owner zero n s =
      inr (refl, λ k a b. absurd (omega (arith, a, b)))
  allocate_from-IsSearched ready worlds owner (suc rounds) n s =
      by_use
        (Bool-cases
          (in_use (ip_at n) worlds || (not (is_linux host.target) && host.alias_ready (ip_at n))))
        (allocate_from-IsSearched ready worlds owner rounds (suc n) s)
        (claim_root-IsTried ready n owner s)
    where
      more : Act (Ipv4Addr × Bytes)
      more = allocate_from host worlds home owner rounds (suc n)

      at_or_after :
          IsTaken worlds owner s n
          → ((k : ℕ) → suc n ≤ k → k < suc n + rounds → IsTaken worlds owner s k)
          → (k : ℕ) → n ≤ k
          → k < n + suc rounds
          → IsTaken worlds owner s k
      at_or_after first rest k a b = elim (Bool-cases (n == k)) [
        | inl e ↦ subst (IsTaken worlds owner s) ((==_iff n k).0 e) first
        | inr e ↦ rest k (ground (arith, a, e)) (omega (arith, b))
      ]

      test : Bool
      test = in_use (ip_at n) worlds || (not (is_linux host.target) && host.alias_ready (ip_at n))

      branch :
          (b : Bool)
          → test ≡ b
          → allocate_from host worlds home owner (suc rounds) n s
            ≡ (if b
                  then more
                  else (claim_root host home (ip_at n) owner >>= or_next host (ip_at n) more))
                s
      branch b e =
          ap
            (λ x.
              (if x
                  then more
                  else (claim_root host home (ip_at n) owner >>= or_next host (ip_at n) more))
                s)
            e

      -- The later rounds, if this one leaves everything as it is
      go_on :
          allocate_from host worlds home owner (suc rounds) n s ≡ more s
          → IsTaken worlds owner s n
          → IsSearched worlds owner rounds (suc n) s
          → IsSearched worlds owner (suc rounds) n s
      go_on same taken (inl (place, t, h)) = inl (place, t, same ∙ h)
      go_on same taken (inr (h, rest)) = inr (same ∙ h, at_or_after taken rest)

      by_use :
          (test ≡ true) ⊎ (test ≡ false)
          → IsSearched worlds owner rounds (suc n) s
          → IsTried (ip_at n) owner s
          → IsSearched worlds owner (suc rounds) n s
      by_use (inl e) later claim = go_on (branch true e) (inl e) later
      by_use (inr e) later (inl (c, held)) =
          go_on
            (branch false e
              ∙ bind-done (claim_root host home (ip_at n) owner) (or_next host (ip_at n) more) s
                  none s c)
            (inr held) later
      by_use (inr e) later (inr (t, c)) = inl (
        (ip_at n, root_for home (ip_at n)),
        t,
        branch false e
            ∙ bind-done (claim_root host home (ip_at n) owner) (or_next host (ip_at n) more) s
                (some (root_for home (ip_at n))) t c,
      )

  -- Where the root below the home of every address that the loop tries is usable and can be built and
  -- marked, `allocate` finds an address, or it leaves
  -- everything as it is and every one of the 65534 addresses is in use in the registry, bound
  -- on a host that is not Linux, or has a root without the owner's marker.
  pub allocate-IsSearched :
      (ready : IsReady) (worlds : Map Bytes World) (owner : Bytes) (s : Store)
      → ((place : Ipv4Addr × Bytes) × (t : Store) × (allocate host worlds home owner s
            ≡ (done place, t)))
        ⊎ ((allocate host worlds home owner s ≡ (failed pool_exhausted, s))
            × ((k : ℕ) → 1 ≤ k → k ≤ 65534 → IsTaken worlds owner s k))
  unfolding allocate
  allocate-IsSearched ready worlds owner s =
      elim (allocate_from-IsSearched ready worlds owner 65534 1 s) [
        | inl h ↦ inl h
        | inr (h, rest) ↦ inr (h, λ k a b. rest k a (omega (arith, b)))
      ]
