-- ===== src/Registry/Owners.antt =====
-- crates/world-runtime/src/silo.rs: what the claims of temp roots find and leave.
use world.Prelude.{
  ℕ, zero, suc, ◌/◌, ◌%◌, ◌==◌, ◌≡◌, refl, ap, sym, ◌∙◌, subst, Bool, true, false, ◌&&◌, ◌||◌, not,
  [], ◌∷◌, ◌++◌, Option, none, some, if_cases, arith,
}
use world.Bytes.{Bytes, beq_iff, contains}
use world.Map.{Map, get, insert}
use world.Map.Order.{bytes_key}
use world.Map.Laws.{get-insert}
use world.Fs.Codec.Escape.{hex_digit}
use world.Proxy.Prepare.{hex}
use world.Registry.Types.{
  Ipv4Addr, World, Stored, absent, unreadable, holds, Store, Act, Tried, done, pure, ensure,
  invalid_registry_id, unusable_root,
}
use world.Registry.Paths.{
  plain_path, Host, Marking, marked, not_marked, torn, Persistence, durable, unwritten, unsynced,
  root_for, is_usable_root, is_linux, check_root, new_root,
}
use world.Registry.Records.{all_hex, hex_id}
use world.Registry.Roots.{
  persist_id, by_marking, by_registry_id, registry_id, root_owner, temp_root_in, mark_root,
  is_unmarked_root, claim_marked, claim_root, or_next, when_owned, ip_at, in_use, allocate_from,
  allocate,
}
use world.Registry.Logic.{bind-IsDone, seq-IsDone, done_inj, ensure-done}

-- The marker of a temp root names its owner.
abbrev pub IsMarked : Bytes → Bytes → Store → Type 0
IsMarked root owner s = get (plain_path root) s.disk ≡ some (some owner)

by_marking-IsMarked :
    (m : Marking) (key owner : Bytes) (entry : Option (Option Bytes)) (s t : Store)
    → get key s.disk ≡ entry
    → by_marking m key owner entry s ≡ (done true, t)
    → get key t.disk ≡ some (some owner)
by_marking-IsMarked marked root owner (some none) s t g h =
    let written : get root (insert root (some owner) s.disk) ≡ some (some owner) =
      get-insert root root (some owner) s.disk ∙ rw ((beq_iff root root).1 refl) refl in
    subst (λ (x : Store). get root x.disk ≡ some (some owner)) (done_inj h).1 written
by_marking-IsMarked marked root owner (some (some text)) s t g h =
    let (same, u) = done_inj h in
    subst (λ (x : Store). get root x.disk ≡ some (some owner)) u
      (g ∙ ap (λ x. some (some x)) ((beq_iff text owner).0 same))
by_marking-IsMarked marked root owner none s t g h = cc
by_marking-IsMarked (torn text) root owner (some none) s t g h = cc
by_marking-IsMarked (torn text) root owner (some (some other)) s t g h = cc
by_marking-IsMarked (torn text) root owner none s t g h = cc
by_marking-IsMarked not_marked root owner entry s t g h = cc

no_newline_hex : (cs : Bytes) → all_hex cs ≡ true → contains 10 cs ≡ false
unfolding all_hex contains
no_newline_hex [] h = refl
no_newline_hex (c ∷ cs) h = ground (arith, no_newline_hex cs, h)

no_newline_digit : (n : ℕ) → (hex_digit n == 10) ≡ false
no_newline_digit n = ground arith

no_newline-hex : (bs : Bytes) → contains 10 (hex bs) ≡ false
unfolding hex contains
no_newline-hex [] = refl
no_newline-hex (b ∷ bs) =
    rw (no_newline_digit (b / 16), no_newline_digit (b % 16)) (no_newline-hex bs)

-- The text of a marker
abbrev pub owner_text : Bytes → Bytes → Bytes
owner_text registry id = registry ++ b'\n' ∷ (id ++ b'\n' ∷ [])

persist_id-done :
    (p : Persistence) (id other : Bytes) (s t : Store)
    → persist_id p id s ≡ (done other, t)
    → (t.id_file ≡ holds other) × (id ≡ other)
persist_id-done durable id other s t h =
    let (same, u) = done_inj h in (subst (λ x. x.id_file ≡ holds other) u (ap holds same), same)
persist_id-done unwritten id other s t h = cc
persist_id-done unsynced id other s t h = cc

module _ (host : Host) where
  -- Whose marker an owner's text is
  pub record IsOwner (id owner : Bytes) (t : Store) : Type 0 where
    pub registry : Bytes
    pub identity : t.id_file ≡ holds registry
    pub one_line : contains b'\n' registry ≡ false
    pub text : owner_text registry id ≡ owner

  registry_id-done :
      (s t : Store) (id : Bytes)
      → registry_id host s ≡ (done id, t)
      → (t.id_file ≡ holds id) × (contains b'\n' id ≡ false)
  unfolding registry_id hex_id
  registry_id-done s t id h = by_file s.id_file refl h
    where
      right : (a b : Bool) → (a && b) ≡ true → b ≡ true
      right a b e = ground (arith, e)

      by_file :
          (f : Stored Bytes)
          → s.id_file ≡ f
          → by_registry_id host f s ≡ (done id, t)
          → (t.id_file ≡ holds id) × (contains b'\n' id ≡ false)
      by_file absent g k =
          let (u, same) = persist_id-done host.persistence (hex host.random) id s t k in
          (u, subst (λ x. contains b'\n' x ≡ false) same (no_newline-hex host.random))
      by_file unreadable g k = cc
      by_file (holds other) g k =
          let parts =
            seq-IsDone (ensure (hex_id other) invalid_registry_id) (pure other) s id t k in
          let (valid, kept) =
            ensure-done (hex_id other) invalid_registry_id s parts.between parts.first in
          let (same, u) = done_inj parts.then_done in
          (
            subst (λ x. x.id_file ≡ holds id) (kept ∙ u) (g ∙ ap holds same),
            subst (λ x. contains b'\n' x ≡ false) same (no_newline_hex other (right _ _ valid)),
          )

  pub root_owner-IsOwner :
      (id owner : Bytes) (s t : Store) → root_owner host id s ≡ (done owner, t) → IsOwner id owner t
  unfolding root_owner
  root_owner-IsOwner id owner s t h =
      let parts = bind-IsDone (registry_id host) _ s owner t h in
      let (identity, one_line) = registry_id-done s parts.between parts.value parts.first in
      let (same, u) = done_inj parts.then_done in
      record {
        registry = parts.value;
        identity = subst (λ x. x.id_file ≡ holds parts.value) u identity;
        one_line = one_line;
        text = same;
      }

  pub mark_root-IsMarked :
      (root owner : Bytes) (s t : Store)
      → mark_root host root owner s ≡ (done true, t)
      → IsMarked root owner t
  unfolding mark_root
  mark_root-IsMarked root owner s t h =
      by_marking-IsMarked (host.marks root) (plain_path root) owner (get (plain_path root) s.disk) s
        t refl h

  -- A root that was claimed
  pub record IsClaimed (home : Bytes) (ip : Ipv4Addr) (owner root : Bytes) (t : Store)
      : Type 0 where
    pub place : root ≡ root_for home ip
    pub usable : is_usable_root host root ≡ true
    pub mark : IsMarked root owner t

  new_root-done :
      (home root : Bytes) (ip : Ipv4Addr) (s t : Store)
      → new_root host home ip s ≡ (done root, t)
      → (root ≡ root_for home ip) × (is_usable_root host root ≡ true) × (s ≡ t)
  unfolding new_root check_root
  new_root-done home root ip s t h =
      let parts =
        seq-IsDone (check_root host (root_for home ip)) (pure (root_for home ip)) s root t h in
      let (usable, kept) =
        ensure-done (is_usable_root host (root_for home ip)) unusable_root s parts.between
          parts.first in
      let (same, u) = done_inj parts.then_done in
      (sym same, subst (λ r. is_usable_root host r ≡ true) same usable, kept ∙ u)

  pub claim_root-IsClaimed :
      (home : Bytes) (ip : Ipv4Addr) (owner root : Bytes) (s t : Store)
      → claim_root host home ip owner s ≡ (done (some root), t)
      → IsClaimed home ip owner root t
  unfolding claim_root
  claim_root-IsClaimed home ip owner root s t h =
      let first = bind-IsDone (new_root host home ip) _ s (some root) t h in
      let (place, usable, _) = new_root-done home first.value ip s first.between first.first in
      let second =
        bind-IsDone (is_unmarked_root host first.value)
          (claim_marked host home ip owner first.value) first.between (some root) t
          first.then_done in
      by_unmarked first.value second.value second.between place usable second.then_done
    where
      owned :
          (known : Bytes) (b : Bool) (u : Store)
          → ◌≡◌ {A = Tried (Option Bytes) × Store}
              (done (when_owned known b), u)
              (done (some root), t)
          → (b ≡ true) × (known ≡ root) × (u ≡ t)
      owned known true u e = ground (arith, e)
      owned known false u e = cc

      by_unmarked :
          (known : Bytes) (b : Bool) (u : Store)
          → known ≡ root_for home ip
          → is_usable_root host known ≡ true
          → claim_marked host home ip owner known b u ≡ (done (some root), t)
          → IsClaimed home ip owner root t
      by_unmarked known true u place usable k = cc
      by_unmarked known false u place usable k =
          let tree = bind-IsDone (temp_root_in host home ip) _ u (some root) t k in
          let marking =
            bind-IsDone (mark_root host known owner) _ tree.between (some root) t tree.then_done in
          let (yes_owned, same, kept) =
            owned known marking.value marking.between marking.then_done in
          let mark =
            mark_root-IsMarked known owner tree.between marking.between
              (marking.first ∙ ap (λ b. (done b, marking.between)) yes_owned) in
          record {
            place = sym same ∙ place;
            usable = subst (λ r. is_usable_root host r ≡ true) same usable;
            mark = subst (λ r. IsMarked r owner t) same (subst (IsMarked known owner) kept mark);
          }

  -- The address and the root that a search has found
  pub record IsPlace (worlds : Map Bytes World) (home owner : Bytes) (place : Ipv4Addr × Bytes)
      (t : Store) : Type 0 where
    pub number : ℕ
    pub address : place.0 ≡ ip_at number
    pub unused : in_use place.0 worlds ≡ false
    pub claimed : IsClaimed home place.0 owner place.1 t

  allocate_from-IsPlace :
      (worlds : Map Bytes World) (home owner : Bytes) (rounds n : ℕ) (place : Ipv4Addr × Bytes)
      → (s t : Store) → allocate_from host worlds home owner rounds n s ≡ (done place, t)
      → IsPlace worlds home owner place t
  unfolding allocate_from
  allocate_from-IsPlace worlds home owner zero n place s t h = cc
  allocate_from-IsPlace worlds home owner (suc rounds) n place s t h =
      let later = allocate_from-IsPlace worlds home owner rounds (suc n) place in
      if_cases
        (λ (m : Act (Ipv4Addr × Bytes)). m s ≡ (done place, t) → IsPlace worlds home owner place t)
        (in_use (ip_at n) worlds || (not (is_linux host.target) && host.alias_ready (ip_at n))) _ _
        (λ _ k. later s t k)
        (λ free k.
          let claim = bind-IsDone (claim_root host home (ip_at n) owner) _ s place t k in
          by_claim claim.value claim.between (left _ _ free)
            (claim_root-IsClaimed home (ip_at n) owner) claim.first (later claim.between t)
            claim.then_done)
        h
    where
      left : (a b : Bool) → (a || b) ≡ false → a ≡ false
      left a b e = ground (arith, e)

      by_claim :
          (o : Option Bytes) (u : Store)
          → in_use (ip_at n) worlds ≡ false
          → ((root : Bytes) (s t : Store)
              → claim_root host home (ip_at n) owner s ≡ (done (some root), t)
              → IsClaimed home (ip_at n) owner root t)
          → claim_root host home (ip_at n) owner s ≡ (done o, u)
          → (allocate_from host worlds home owner rounds (suc n) u ≡ (done place, t)
              → IsPlace worlds home owner place t)
          → or_next host (ip_at n) (allocate_from host worlds home owner rounds (suc n)) o u
            ≡ (done place, t)
          → IsPlace worlds home owner place t
      by_claim none u free claims c later k = later k
      by_claim (some root) u free claims c later k =
          let (same, kept) = done_inj k in
          let found : IsPlace worlds home owner (ip_at n, root) u = record {
            number = n;
            address = refl;
            unused = free;
            claimed = claims root s u c;
          } in
          subst (λ p. IsPlace worlds home owner p t) same
            (subst (IsPlace worlds home owner (ip_at n, root)) kept found)

  pub allocate-IsPlace :
      (worlds : Map Bytes World) (home owner : Bytes) (place : Ipv4Addr × Bytes) (s t : Store)
      → allocate host worlds home owner s ≡ (done place, t)
      → IsPlace worlds home owner place t
  unfolding allocate
  allocate-IsPlace worlds home owner place s t h =
      allocate_from-IsPlace worlds home owner 65534 1 place s t h
