-- ===== src/TmpPath/RoundTrip.antt =====
-- crates/world-tmp-path/src/lib.rs: `map_with` and `unmap_in_place` one after the other, and `map_target` and
-- `map_at_with`, which call `map_with`.
use world.Prelude.{
  ℕ, ◌<◌, leb, ◌≡◌, ◌≢◌, ◌+◌, refl, sym, ap, ◌∙◌, Bool, true, false, ◌||◌, not, ◌++◌, Option, none,
  some, length, if_cases, Bool-cases, inl, inr, arith,
}
use world.Bytes.{Bytes, starts_with_slash}
use world.Result
use world.Result.{Result, ok, err, Errno, enametoolong, unresolved}
use world.TmpPath.{whole_rest}
use world.TmpPath.Scanning.{Escape, Scanned, at_end, escaped, scan, dotdot_count}
use world.TmpPath.Unmap.{unmap}
use world.TmpPath.Unmap.Names.{unmap-location}
use world.TmpPath.Map.{
  put, prefix_of, settle, by_scan, by_rewrite, rewrite_escape, map_loop, map_with, refusal,
  or_verbatim, or_verbatim_out, map_target,
}
use world.TmpPath.Map.Total.{IsMapped, map_with-IsMapped}
use world.TmpPath.Map.Plain.{HostRoot, host_name, location, reported, map_with-host}
use world.TmpPath.MapAt.{report, is_mapped, may_reach, map_joined, map_below, map_at_with}

-- The host root whose name is reported
abbrev long_of : HostRoot → HostRoot
long_of HostRoot.long_var = HostRoot.long_var
long_of HostRoot.long_tmp = HostRoot.long_tmp
long_of HostRoot.short_var = HostRoot.long_var
long_of HostRoot.short_tmp = HostRoot.long_tmp

host_name-long_of : (p : HostRoot) → host_name (long_of p) ≡ reported p
host_name-long_of HostRoot.long_var = refl
host_name-long_of HostRoot.long_tmp = refl
host_name-long_of HostRoot.short_var = refl
host_name-long_of HostRoot.short_tmp = refl

location-long_of : (p : HostRoot) → location (long_of p) ≡ location p
location-long_of HostRoot.long_var = refl
location-long_of HostRoot.long_tmp = refl
location-long_of HostRoot.short_var = refl
location-long_of HostRoot.short_tmp = refl

module _ {S : Type 0} (path_max : ℕ) (resolve : S → Bytes → Result Bytes × S) (root : Bytes) where
  -- A path at a host temp root or below it, without `..`, that is mapped and then given back as a host
  -- name: the name is the canonical one with the same rest, and it is mapped to the same place again.
  pub unmap-map_with :
      (p : HostRoot) (rest : Bytes) (room : ℕ) (s : S)
      → whole_rest rest ≡ some rest
      → dotdot_count rest ≡ 0
      → length (host_name p ++ rest) < path_max
      → length (reported p ++ rest) < path_max
      → length (root ++ (location p ++ rest)) < room
      → (name : Bytes) × (map_with path_max resolve root (host_name p ++ rest) room s
          ≡ some (ok (some name), s))
        × (unmap root name ≡ some (reported p ++ rest))
        × (map_with path_max resolve root (reported p ++ rest) room s ≡ some (ok (some name), s))
  unmap-map_with p rest room s w h l l' r = (
    root ++ (location p ++ rest),
    map_with-host path_max resolve root p rest room s w h l r,
    unmap-location root p rest w,
    rw (sym (host_name-long_of p), sym (location-long_of p))
        (map_with-host path_max resolve root (long_of p) rest room s w h
          (rw (host_name-long_of p) l') (rw (location-long_of p) r)),
  )

or_verbatim-err : (e : Errno) (name : Bytes) → or_verbatim (err e) ≢ ok (some name)
or_verbatim-err unresolved name h = cc
or_verbatim-err e name h = cc

-- Without a kernel an escape ends in an errno.
refused :
    (path_max : ℕ) (root : Bytes) (room : ℕ) (cur : Bytes) (e : Escape) (n : ℕ)
    → (errno : Errno) × (rewrite_escape path_max refusal root room cur e n tt ≡ (err errno, tt))
unfolding rewrite_escape world.Result.◌>>=◌
refused path_max root room cur e n =
    if_cases (λ (x : Result Bytes × Unit {0}). (errno : Errno) × (x ≡ (err errno, tt)))
      (leb room (length (prefix_of root cur e) + 1)) _ _ (λ _. (enametoolong, refl))
      λ _. (unresolved, refl)

or_verbatim_out-refused :
    (path_max : ℕ) (root : Bytes) (room : ℕ) (cur : Bytes) (e : Escape) (n : ℕ)
    (f : Bytes → Unit {0} → Option (Result (Option Bytes) × Unit {0})) (name : Bytes)
    → or_verbatim_out
        (by_rewrite path_max refusal (rewrite_escape path_max refusal root room cur e n tt) f)
      ≢ some (ok (some name))
or_verbatim_out-refused path_max root room cur e n f name h =
    let (errno, x) = refused path_max root room cur e n in
    or_verbatim-err errno name
      (un_some (ap (λ y. or_verbatim_out (by_rewrite path_max refusal y f)) (sym x) ∙ h))
  where
    un_some : {x y : Result (Option Bytes)} → some x ≡ some y → x ≡ y
    un_some h = ground (arith, h)

or_verbatim-some :
    (r : Result (Option Bytes)) (name : Bytes) → or_verbatim r ≡ ok (some name) → r ≡ ok (some name)
or_verbatim-some (ok x) name h = h
or_verbatim-some (err e) name h = absurd (or_verbatim-err e name h)

abbrev Answer : Type 0 → Type 0
Answer S = Option (Result (Option Bytes) × S)

by_scan-kernel :
    {S : Type 0} (path_max : ℕ) (root cur : Bytes) (room n : ℕ) (s : S) (x : Scanned)
    (f : Escape → Bytes → Unit {0} → Answer (Unit {0})) (g : Escape → Answer S) (name : Bytes)
    → or_verbatim_out (
        by_scan {A = Answer (Unit {0})} x
          (λ st. some (settle root room cur false st, tt))
          λ e.
            by_rewrite path_max refusal
              (rewrite_escape path_max refusal root room cur e n tt)
              (f e))
      ≡ some (ok (some name))
    → by_scan {A = Answer S} x (λ st. some (settle root room cur false st, s)) g
      ≡ some (ok (some name), s)
by_scan-kernel path_max root cur room n s (at_end st) f g name h =
    rw (or_verbatim-some (settle root room cur false st) name (ground (arith, h))) refl
by_scan-kernel path_max root cur room n s (escaped e) f g name h =
    absurd (or_verbatim_out-refused path_max root room cur e n (f e) name h)

-- A symlink target that `map_target` maps is mapped to the same name by `map_with`, whatever the kernel
-- answers.
pub map_target-map_with :
    {S : Type 0} (path_max : ℕ) (resolve : S → Bytes → Result Bytes × S) (root target : Bytes)
    (room : ℕ) (s : S) (name : Bytes)
    → map_target path_max root target room ≡ some (ok (some name))
    → map_with path_max resolve root target room s ≡ some (ok (some name), s)
unfolding map_target map_with map_loop
map_target-map_with path_max resolve root target room s name h =
    elim (Bool-cases (not (starts_with_slash target) || leb path_max (length target))) [
      | inl t ↦ absurd (kept_ne (rw t at h))
      | inr t ↦ rw t (
          by_scan-kernel path_max root target room (dotdot_count target) s (scan target) _ _ name
            (rw t at h))
    ]
  where
    kept_ne : or_verbatim_out (some (ok none, tt)) ≢ some (ok (some name))
    kept_ne h = ground (arith, h)

-- An answer fits a buffer of `room` bytes with its NUL.
abbrev pub Fits : ℕ → Result (Option Bytes) → Type 0
Fits room (ok (some name)) = length name < room
Fits room r = Unit {0}

IsMapped-Fits :
    (root : Bytes) (room : ℕ) (r : Result (Option Bytes)) → IsMapped root room r → Fits room r
IsMapped-Fits root room _ (IsMapped.kept) = tt
IsMapped-Fits root room _ (IsMapped.failed e) = tt
IsMapped-Fits root room _ (IsMapped.inside sub rest at w below h) = h
IsMapped-Fits root room _ (IsMapped.outside text s e t h) = h

report-Fits :
    (room : ℕ) (under : Bool) (joined : Bytes) (r : Result (Option Bytes))
    → Fits room r
    → Fits room (report room under joined r)
unfolding report put
report-Fits room under joined (err e) h = tt
report-Fits room under joined (ok (some name)) h = h
report-Fits room false joined (ok none) h = tt
report-Fits room true joined (ok none) h =
    if_cases (Fits room) (leb room (length joined)) _ _ (λ _. tt) λ t. ground (arith, t)

module _ {S : Type 0} (path_max : ℕ) (resolve : S → Bytes → Result Bytes × S) (root : Bytes) where
  Returns : ℕ → Option (Result (Option Bytes) × S) → Type 0
  Returns room o = (r : Result (Option Bytes)) × (s : S) × (o ≡ some (r, s)) × Fits room r

  map_with-Returns :
      (path : Bytes) (room : ℕ) (s : S) → Returns room (map_with path_max resolve root path room s)
  unfolding Returns
  map_with-Returns path room s =
      let (r, s', e, m) = map_with-IsMapped path_max resolve root path room s in
      (r, s', e, IsMapped-Fits root room r m)

  map_joined-Returns :
      (room : ℕ) (under : Bool) (s : S) (joined : Result Bytes)
      → Returns room (map_joined path_max resolve root room under s joined)
  unfolding map_joined Returns
  map_joined-Returns room under s (err e) = (err e, s, refl, tt)
  map_joined-Returns room under s (ok joined) =
      let (r, s', e, f) = map_with-Returns joined room s in
      (report room under joined r, s', rw e refl, report-Fits room under joined r f)

  map_below-Returns :
      (path : Bytes) (room : ℕ) (x : Result Bytes × S)
      → Returns room (map_below path_max resolve root path room x)
  unfolding map_below Returns
  map_below-Returns path room (err e, s) = (err e, s, refl, tt)
  map_below-Returns path room (ok name, s) =
      if_cases (Returns room) (leb path_max (length name)) _ _
        (λ _. (err enametoolong, s, refl, tt))
        λ _. map_joined-Returns room (is_mapped (unmap root name)) s _

  -- `map_at_with` returns, whatever the kernel answers for the directory and for the paths: it leaves
  -- the path alone, fails, or gives a name that fits the buffer with its NUL.
  pub map_at_with-Fits :
      (path : Bytes) (room : ℕ) (base : S → Result Bytes × S) (s : S)
      → (r : Result (Option Bytes)) × (s' : S) × (map_at_with path_max resolve root path room base s
          ≡ some (r, s'))
        × Fits room r
  unfolding map_at_with Returns
  map_at_with-Fits path room base s =
      if_cases (Returns room) (starts_with_slash path) _ _ (λ _. map_with-Returns path room s)
        λ _.
          if_cases (Returns room) (not (may_reach path)) _ _ (λ _. (ok none, s, refl, tt))
            λ _. map_below-Returns path room (base s)
