-- ===== src/TmpPath/Unmap/Names.antt =====
-- crates/world-tmp-path/src/lib.rs: the names that `unmap_in_place` gives back.
use world.Prelude.{
  ◌+◌, ◌≤◌, ◌≡◌, refl, ap, ◌∙◌, ◌↔◌, true, [], ◌∷◌, ◌++◌, some, Option-cases, inl, inr, length,
  length-append, arith, subst, sym,
}
use world.Bytes.{Bytes}
use world.TmpPath.{
  tmp, var_tmp, private_tmp, private_var_tmp, canonical, strip_prefix, whole_rest, component_rest,
  valid_root,
}
use world.TmpPath.Unmap.{find_canonical, canonical_parts, unmap}
use world.TmpPath.Map.Plain.{HostRoot, long_var, long_tmp, location, reported}

pub strip_prefix-append : (p r : Bytes) → strip_prefix (p ++ r) p ≡ some r
unfolding strip_prefix
strip_prefix-append [] r = refl
strip_prefix-append (b ∷ p) r = ground (arith, strip_prefix-append p r)

pub append-strip_prefix : (path p r : Bytes) → strip_prefix path p ≡ some r → path ≡ p ++ r
unfolding strip_prefix
append-strip_prefix path [] r h = ground (arith, h)
append-strip_prefix [] (x ∷ p) r h = cc
append-strip_prefix (b ∷ path) (x ∷ p) r h = ground (arith, h, append-strip_prefix path p r)

whole_rest-same : (x r : Bytes) → whole_rest x ≡ some r → x ≡ r
whole_rest-same [] r h = ground (arith, h)
whole_rest-same (b ∷ x) r h = ground (arith, h)

-- A rest after whole components
pub record IsRest (path p r : Bytes) : Type 0 where
  pub parts : path ≡ p ++ r
  pub whole : whole_rest r ≡ some r

pub component_rest-IsRest : (path p r : Bytes) → component_rest path p ≡ some r → IsRest path p r
unfolding component_rest
component_rest-IsRest path p r h = elim (Option-cases (strip_prefix path p)) [
  | inl e ↦ absurd (ground (arith, h, e))
  | inr (x, e) ↦
      let w : whole_rest x ≡ some r = ground (arith, h, e) in
      let same = whole_rest-same x r w in
      record {
        parts = append-strip_prefix path p x e ∙ ap (λ (y : Bytes). p ++ y) same;
        whole = subst (λ y. whole_rest y ≡ some r) same w;
      }
]

pub component_rest-append :
    (p r : Bytes) → whole_rest r ≡ some r → component_rest (p ++ r) p ≡ some r
unfolding component_rest
component_rest-append p r w = rw (strip_prefix-append p r) w

find_canonical-location :
    (p : HostRoot) (rest : Bytes)
    → whole_rest rest ≡ some rest
    → find_canonical canonical (location p ++ rest) ≡ some (reported p, rest)
unfolding find_canonical strip_prefix component_rest
find_canonical-location long_var rest w = rw (w, find_canonical) refl
find_canonical-location long_tmp rest w = rw (w, find_canonical) refl
find_canonical-location HostRoot.short_var rest w = rw (w, find_canonical) refl
find_canonical-location HostRoot.short_tmp rest w = rw (w, find_canonical) refl

-- A name of a place below a temp directory of the root: its path, and the host name of it
pub record IsPlace (root path name : Bytes) : Type 0 where
  pub at : HostRoot
  pub rest : Bytes
  pub whole : whole_rest rest ≡ some rest
  pub physical : path ≡ root ++ (location at ++ rest)
  pub named : name ≡ reported at ++ rest

record IsNamed (x name r : Bytes) : Type 0 where
  at : HostRoot
  whole : whole_rest r ≡ some r
  parts : x ≡ location at ++ r
  named : name ≡ reported at

find_canonical-IsNamed :
    (x name r : Bytes) → find_canonical canonical x ≡ some (name, r) → IsNamed x name r
unfolding find_canonical
find_canonical-IsNamed x name r h = elim (Option-cases (component_rest x var_tmp)) [
  | inr (y, e) ↦
      let same : (private_var_tmp ≡ name) × (y ≡ r) = ground (arith, h, e) in
      let i = component_rest-IsRest x var_tmp r (e ∙ ap some same.1) in
      record { at = long_var; whole = i.whole; parts = i.parts; named = sym same.0 }
  | inl n ↦ elim (Option-cases (component_rest x tmp)) [
    | inr (y, e) ↦
        let same : (private_tmp ≡ name) × (y ≡ r) = ground (arith, h, e, n) in
        let i = component_rest-IsRest x tmp r (e ∙ ap some same.1) in
        record { at = long_tmp; whole = i.whole; parts = i.parts; named = sym same.0 }
    | inl e ↦ absurd (ground (arith, h, e, n))
  ]
]

canonical_parts-IsPlace :
    (root path name r : Bytes)
    → canonical_parts root path ≡ some (name, r)
    → IsPlace root path (name ++ r)
unfolding canonical_parts
canonical_parts-IsPlace root path name r h = elim (Option-cases (component_rest path root)) [
  | inl e ↦ absurd (ground (arith, h, e))
  | inr (x, e) ↦
      let i = find_canonical-IsNamed x name r (ground (arith, h, e)) in
      let j = component_rest-IsRest path root x e in
      record {
        at = i.at;
        rest = r;
        whole = i.whole;
        physical = j.parts ∙ ap (λ (y : Bytes). root ++ y) i.parts;
        named = ap (λ (y : Bytes). y ++ r) i.named;
      }
]

unmap-IsPlace : (root path name : Bytes) → unmap root path ≡ some name → IsPlace root path name
unfolding unmap
unmap-IsPlace root path name h = elim (Option-cases (canonical_parts root path)) [
  | inl e ↦ absurd (ground (arith, h, e))
  | inr ((n, r), e) ↦
      subst (IsPlace root path) (ground (arith, h, e)) (canonical_parts-IsPlace root path n r e)
]

location-whole :
    (p : HostRoot) (rest : Bytes) → whole_rest (location p ++ rest) ≡ some (location p ++ rest)
location-whole long_var rest = refl
location-whole p rest = refl

pub canonical_parts-location :
    (root : Bytes) (p : HostRoot) (rest : Bytes)
    → whole_rest rest ≡ some rest
    → canonical_parts root (root ++ (location p ++ rest)) ≡ some (reported p, rest)
unfolding canonical_parts
canonical_parts-location root p rest w =
    rw (component_rest-append root (location p ++ rest) (location-whole p rest), canonical_parts)
      (find_canonical-location p rest w)

pub unmap-location :
    (root : Bytes) (p : HostRoot) (rest : Bytes)
    → whole_rest rest ≡ some rest
    → unmap root (root ++ (location p ++ rest)) ≡ some (reported p ++ rest)
unfolding unmap
unmap-location root p rest w = rw (canonical_parts-location root p rest w, unmap) refl

-- A path has a host name exactly when it is the root's `/tmp` or `/var/tmp` or below it, and the name
-- is `/private/tmp` or `/private/var/tmp` with the same rest.
pub unmap_iff : (root path name : Bytes) → (unmap root path ≡ some name) ↔ IsPlace root path name
unmap_iff root path name = (
  unmap-IsPlace root path name,
  λ i. ap (unmap root) i.physical ∙ unmap-location root i.at i.rest i.whole ∙ ap some (sym i.named),
)

reported-le : (p : HostRoot) → length (reported p) ≤ 8 + length (location p)
reported-le long_var = omega arith
reported-le p = omega arith

pub place-le :
    {root path name : Bytes} → 8 ≤ length root → IsPlace root path name → length name ≤ length path
place-le {root} {path} {name} h i = omega (
  arith,
  ap length i.named,
  ap length i.physical,
  length-append (reported i.at) i.rest,
  length-append root (location i.at ++ i.rest),
  length-append (location i.at) i.rest,
  reported-le i.at,
)

valid_root-le : (root : Bytes) → valid_root root ≡ true → 8 ≤ length root
unfolding valid_root
valid_root-le root h = ground (arith, h)

-- With a valid root a host name is no longer than the physical path, so that it fits in its place.
pub unmap-le :
    (root path name : Bytes)
    → valid_root root ≡ true
    → unmap root path ≡ some name
    → length name ≤ length path
unmap-le root path name v e = place-le (valid_root-le root v) (unmap-IsPlace root path name e)
