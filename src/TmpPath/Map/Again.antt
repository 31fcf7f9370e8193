-- ===== src/TmpPath/Map/Again.antt =====
-- crates/world-tmp-path/src/lib.rs: `map_with` on a path that is below the root already.
use world.Prelude.{
  ℕ, ◌==◌, ◌≤◌, leb, ◌≡◌, ◌≢◌, refl, sym, ap, subst, ◌∙◌, Bool, true, false, ◌&&◌, ◌||◌, not, [],
  ◌∷◌, ◌++◌, none, some, length, Bool-cases, inl, inr, arith, if_cases,
}
use world.Bytes.{Bytes, beq, codes, split, starts_with_slash, ends_with_slash, contains}
use world.Bytes.Split.{split-append, behind, behind-split}
use world.Result.{Result, ok}
use world.TmpPath.{
  Base, Scan, base, other, temp, whole_rest, all_plain, outside, host_roots, tail, valid_root,
  max_root_len,
}
use world.TmpPath.Scanning.{at_end, scan, scan_from, scan_step, count_dotdot, dotdot_count}
use world.TmpPath.Map.{settle, map_loop, map_with}
use world.TmpPath.Map.Plain.{HostRoot, location, is_other, dotdot_count-slash}
use world.TmpPath.Map.Root.{IsRoot, below_root}

valid_root-parts :
    (root : Bytes)
    → valid_root root ≡ true
    → (8 ≤ length root)
      × (starts_with_slash root ≡ true)
      × (all_plain (split b'/' (tail root)) ≡ true)
      × (outside host_roots root ≡ true)
unfolding valid_root
valid_root-parts root h =
    let (a, b, c, d) =
      parts (leb 8 (length root)) (leb (length root) max_root_len) (starts_with_slash root)
        (not (ends_with_slash root)) (not (contains 0 root)) (all_plain (split b'/' (tail root)))
        (outside host_roots root) h in
    (leb_le 8 (length root) a, b, c, d)
  where
    leb_le : (m n : ℕ) → leb m n ≡ true → m ≤ n
    leb_le m n h = ground (arith, h)

    parts :
        (a b c d e f g : Bool)
        → (a && b && c && d && e && f && g) ≡ true
        → (a ≡ true) × (c ≡ true) × (f ≡ true) × (g ≡ true)
    parts a b c d e f g h = ground (arith, h)

valid_root-IsRoot :
    (r : Bytes)
    → valid_root (b'/' ∷ r) ≡ true
    → b'/' ∷ r ≢ codes "/private"
    → b'/' ∷ r ≢ codes "/private/var"
    → IsRoot (split b'/' r)
valid_root-IsRoot r v p w =
    let (long, slash, plain, apart) = valid_root-parts (b'/' ∷ r) v in
    let same : b'/' ∷ r ≡ behind b'/' (split b'/' r) = sym (behind-split b'/' r) in
    record {
      plain = plain;
      apart = subst (λ x. outside host_roots x ≡ true) same apart;
      long = subst (λ x. 8 ≤ length x) same long;
      not_private = λ e. p (same ∙ e);
      not_private_var = λ e. w (same ∙ e);
    }

-- A location without its slash
abbrev inner : HostRoot → Bytes
inner HostRoot.long_var = codes "var/tmp"
inner HostRoot.long_tmp = codes "tmp"
inner HostRoot.short_var = codes "var/tmp"
inner HostRoot.short_tmp = codes "tmp"

location-slash : (p : HostRoot) (rest : Bytes) → location p ++ rest ≡ b'/' ∷ (inner p ++ rest)
location-slash HostRoot.long_var rest = refl
location-slash HostRoot.long_tmp rest = refl
location-slash HostRoot.short_var rest = refl
location-slash HostRoot.short_tmp rest = refl

inner-plain :
    (p : HostRoot) (rest : Bytes)
    → whole_rest rest ≡ some rest
    → dotdot_count rest ≡ 0
    → count_dotdot (split b'/' (inner p ++ rest)) ≡ 0
unfolding split count_dotdot dotdot_count beq
inner-plain HostRoot.long_var [] w h = refl
inner-plain HostRoot.long_tmp [] w h = refl
inner-plain HostRoot.short_var [] w h = refl
inner-plain HostRoot.short_tmp [] w h = refl
inner-plain p (b ∷ r) w h = elim (Bool-cases (b == b'/')) [
  | inl e ↦
      let slash : b ≡ b'/' = ground (arith, e) in
      below p r slash (sym (dotdot_count-slash r) ∙ subst (λ x. dotdot_count (x ∷ r) ≡ 0) slash h)
  | inr e ↦ absurd (ground (arith, e, w))
]
  where
    below :
        (p : HostRoot) {b : ℕ} (r : Bytes)
        → b ≡ b'/'
        → count_dotdot (split b'/' r) ≡ 0
        → count_dotdot (split b'/' (inner p ++ b ∷ r)) ≡ 0
    below HostRoot.long_var r e h = rw e (omega (arith, h))
    below HostRoot.long_tmp r e h = rw e (omega (arith, h))
    below HostRoot.short_var r e h = rw e (omega (arith, h))
    below HostRoot.short_tmp r e h = rw e (omega (arith, h))

scan-slash : (x : Bytes) → scan (b'/' ∷ x) ≡ scan_from (b'/' ∷ x) 1 (base Base.root) (split b'/' x)
unfolding scan scan_from scan_step split
scan-slash x = refl

scan-below :
    (r q : Bytes)
    → IsRoot (split b'/' r)
    → count_dotdot (split b'/' q) ≡ 0
    → (s : Scan) × (scan (b'/' ∷ (r ++ b'/' ∷ q)) ≡ at_end s) × (is_other s ≡ true)
scan-below r q i h =
    let cur = b'/' ∷ (r ++ b'/' ∷ q) in
    let (s, e, o) = below_root cur (split b'/' q) h 1 (split b'/' r) i in
    let pieces = ap (scan_from cur 1 (base Base.root)) (split-append b'/' r q) in
    (s, scan-slash (r ++ b'/' ∷ q) ∙ pieces ∙ e, o)

scan-mapped :
    (root : Bytes) (p : HostRoot) (rest : Bytes)
    → valid_root root ≡ true
    → root ≢ codes "/private"
    → root ≢ codes "/private/var"
    → whole_rest rest ≡ some rest
    → dotdot_count rest ≡ 0
    → (s : Scan) × (scan (root ++ (location p ++ rest)) ≡ at_end s) × (is_other s ≡ true)
unfolding starts_with_slash
scan-mapped [] p rest v n m w h = absurd (no_slash ((valid_root-parts [] v).1))
  where
    no_slash : starts_with_slash [] ≢ true
    no_slash h = cc
scan-mapped (b ∷ r) p rest v n m w h =
    let slash = is_slash b r ((valid_root-parts (b ∷ r) v).1) in
    rw (slash, location-slash p rest)
      (scan-below r (inner p ++ rest)
        (valid_root-IsRoot r (subst (λ x. valid_root (x ∷ r) ≡ true) slash v)
          (subst (λ x. x ∷ r ≢ codes "/private") slash n)
          (subst (λ x. x ∷ r ≢ codes "/private/var") slash m))
        (inner-plain p rest w h))
  where
    is_slash : (b : ℕ) (r : Bytes) → starts_with_slash (b ∷ r) ≡ true → b ≡ b'/'
    is_slash b r h = ground (arith, h)

settle-other :
    (root : Bytes) (room : ℕ) (cur : Bytes) (s : Scan)
    → is_other s ≡ true
    → settle root room cur false s ≡ ok none
unfolding settle
settle-other root room cur (base b) h = refl
settle-other root room cur (other b depth) h = refl
settle-other root room cur (temp sub above start depth named) h = cc

module _ {S : Type 0} (path_max : ℕ) (resolve : S → Bytes → Result Bytes × S) (root : Bytes) where
  map_with-other :
      (path : Bytes) (room : ℕ) (s : S) (st : Scan)
      → scan path ≡ at_end st
      → is_other st ≡ true
      → map_with path_max resolve root path room s ≡ some (ok none, s)
  unfolding map_with map_loop
  map_with-other path room s st e o =
      if_cases (λ r. r ≡ some (ok none, s))
        (not (starts_with_slash path) || leb path_max (length path)) _ _ (λ _. refl)
        λ _. rw (e, map_loop) (rw (settle-other root room path st o) refl)

  -- A path that is below the root's temp directories already, without `..` below them, is left as it is,
  -- for every root that is accepted but `/private` and `/private/var`: a mapped path is not mapped twice.
  pub map_with-again :
      (p : HostRoot) (rest : Bytes) (room : ℕ) (s : S)
      → valid_root root ≡ true
      → root ≢ codes "/private"
      → root ≢ codes "/private/var"
      → whole_rest rest ≡ some rest
      → dotdot_count rest ≡ 0
      → map_with path_max resolve root (root ++ (location p ++ rest)) room s ≡ some (ok none, s)
  map_with-again p rest room s v n m w h =
      let (st, e, o) = scan-mapped root p rest v n m w h in
      map_with-other (root ++ (location p ++ rest)) room s st e o
