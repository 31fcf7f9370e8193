-- ===== src/Registry/Redirect.antt =====
-- crates/world-runtime/src/silo.rs and crates/world-tmp-path/src/lib.rs: the roots that `allocate` hands
-- out on macOS suit the mapping of host temp paths.
use world.Prelude.{
  ℕ, ◌+◌, ◌≤◌, ◌≡◌, ◌≢◌, ap, sym, ◌∙◌, subst, Bool, true, ◌&&◌, ◌||◌, not, ◌∷◌, ◌++◌, none, some,
  length, length-append, ltb, is_empty, if◌then◌else◌, if_cases, arith,
}
use world.Bytes.{Bytes, codes, ends_with_slash}
use world.Map.{Map}
use world.Result.{Result, ok}
use world.Fs.Codec.Number.{display}
use world.Policy.{show_v4}
use world.TmpPath.{whole_rest, valid_root, max_root_len}
use world.TmpPath.Scanning.{dotdot_count}
use world.TmpPath.Map.{map_with}
use world.TmpPath.Map.Plain.{HostRoot, location}
use world.TmpPath.Map.Again.{map_with-again}
use world.Registry.Types.{Ipv4Addr, World, Store, done}
use world.Registry.Paths.{
  Host, macos, is_macos, join, ip_name, root_for, is_normalized, in_shared_temp, is_usable_root,
}
use world.Registry.Roots.{allocate}
use world.Registry.Owners.{allocate-IsPlace}

length-join : (p q : Bytes) → length p + length q ≤ length (join p q)
unfolding join
length-join p q =
    if_cases (λ x. length p + length q ≤ length x) (is_empty p || ends_with_slash p) (p ++ q)
      (p ++ b'/' ∷ q) (λ _. omega (arith, length-append p q))
      λ _. omega (arith, length-append p (b'/' ∷ q))

pub length-ip_name : (ip : Ipv4Addr) → 3 ≤ length (ip_name ip)
unfolding ip_name show_v4
length-ip_name ip =
    let a = display 10 ip.first in
    let b = display 10 ip.second in
    let c = display 10 ip.third in
    let d = display 10 ip.fourth in
    omega (
      arith,
      length-append a (b'.' ∷ (b ++ b'.' ∷ (c ++ b'.' ∷ d))),
      length-append b (b'.' ∷ (c ++ b'.' ∷ d)),
      length-append c (b'.' ∷ d),
    )

length-root_for : (home : Bytes) (ip : Ipv4Addr) → 13 ≤ length (root_for home ip)
unfolding root_for
length-root_for home ip = omega (
  arith,
  length-join home (codes ".world/tmp"),
  length-join (join home (codes ".world/tmp")) (ip_name ip),
  length-ip_name ip,
)

longer : (p q : Bytes) → length q ≤ 12 → 13 ≤ length p → p ≢ q
longer p q h k e = omega (arith, h, k, ap length e)

usable-valid_root :
    (host : Host) (root : Bytes)
    → host.target ≡ macos
    → is_usable_root host root ≡ true
    → valid_root root ≡ true
unfolding is_usable_root
usable-valid_root host root m h = right _ _ (
    sym (
      ap
        (λ t.
          if is_macos t
          then not (ltb max_root_len (length root)) && valid_root root
          else is_normalized root && not (in_shared_temp host root))
        m)
    ∙ h)
  where
    right : (a b : Bool) → (a && b) ≡ true → b ≡ true
    right a b e = ground (arith, e)

module _ {S : Type 0} (path_max : ℕ) (resolve : S → Bytes → Result Bytes × S) (host : Host) where
  -- A temp root that `allocate` hands out on macOS is accepted by the mapping of host temp paths, and is
  -- none of the two roots for which a mapped path is mapped again: a path below the root's temp
  -- directories, without `..` below them, is left as it is.
  pub allocate-map_with :
      (worlds : Map Bytes World) (home owner : Bytes) (place : Ipv4Addr × Bytes) (s t : Store)
      → (p : HostRoot) (rest : Bytes) (room : ℕ) (k : S) → host.target ≡ macos
      → allocate host worlds home owner s ≡ (done place, t)
      → whole_rest rest ≡ some rest
      → dotdot_count rest ≡ 0
      → (valid_root place.1 ≡ true)
        × (map_with path_max resolve place.1 (place.1 ++ (location p ++ rest)) room k
            ≡ some (ok none, k))
  allocate-map_with worlds home owner place s t p rest room k m h w d =
      let found = allocate-IsPlace host worlds home owner place s t h in
      let valid = usable-valid_root host place.1 m found.claimed.usable in
      let long : 13 ≤ length place.1 =
        subst (λ r. 13 ≤ length r) (sym found.claimed.place) (length-root_for home place.0) in
      (
        valid,
        map_with-again path_max resolve place.1 p rest room k valid
            (longer place.1 (codes "/private") (omega arith) long)
            (longer place.1 (codes "/private/var") (omega arith) long) w d,
      )
