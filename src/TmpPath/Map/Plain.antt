-- ===== src/TmpPath/Map/Plain.antt =====
-- crates/world-tmp-path/src/lib.rs: `map_with` on a path without `..`: the scan only moves on.
use world.Prelude.{
  ℕ, ◌+◌, ◌==◌, ◌<◌, leb, ◌≡◌, refl, sym, subst, ◌∙◌, Bool, true, false, List, [], ◌∷◌, ◌++◌,
  Option, none, some, length, is_empty, drop, drop-append_length, if_cases, Bool-cases, inl, inr,
  arith, if◌then◌else◌,
}
use world.Bytes.{Bytes, beq, dot, dotdot, split, starts_with_slash}
use world.Result.{Result, ok}
use world.TmpPath.{
  Base, Scan, base, other, temp, tmp, var_tmp, private_tmp, private_var_tmp, whole_rest,
}
use world.TmpPath.Scanning.{
  at_end, scan, scan_from, scan_step, push_name, count_dotdot, dotdot_count,
}
use world.TmpPath.Map.{put, settle, map_loop, map_with}

-- The four host temp roots
pub data HostRoot : Type 0 where
  long_var long_tmp short_var short_tmp : HostRoot

abbrev pub host_name : HostRoot → Bytes
host_name long_var = private_var_tmp
host_name long_tmp = private_tmp
host_name short_var = var_tmp
host_name short_tmp = tmp

abbrev pub location : HostRoot → Bytes
location long_var = var_tmp
location long_tmp = tmp
location short_var = var_tmp
location short_tmp = tmp

-- What is reported for the location
abbrev pub reported : HostRoot → Bytes
reported long_var = private_var_tmp
reported long_tmp = private_tmp
reported short_var = private_var_tmp
reported short_tmp = private_tmp

beq_no_dotdot :
    (c : Bytes) (cs : List Bytes)
    → count_dotdot (c ∷ cs) ≡ 0
    → (beq c dotdot ≡ false) × (count_dotdot cs ≡ 0)
unfolding count_dotdot
beq_no_dotdot c cs h = ground (arith, h)

pub scan_step_name :
    (cur : Bytes) (pos : ℕ) (s : Scan) (c : Bytes)
    → beq c dotdot ≡ false
    → scan_step cur pos s c
      ≡ at_end (if is_empty c then s else if beq c dot then s else push_name s (pos + length c) c)
unfolding scan_step
scan_step_name cur pos s c h = ground (arith, h)

-- What every name keeps is kept over a text without `..`.
module _ (P : Scan → Type 0)
    (keep : (s : Scan) (end : ℕ) (c : Bytes) → P s → P (push_name s end c)) where
  pub scan_from_plain :
      (cur : Bytes) (pos : ℕ) (s : Scan) (cs : List Bytes)
      → count_dotdot cs ≡ 0
      → P s
      → (s' : Scan) × (scan_from cur pos s cs ≡ at_end s') × P s'
  unfolding scan_from
  scan_from_plain cur pos s [] h p = (s, refl, p)
  scan_from_plain cur pos s (c ∷ cs) h p =
      let (d, k) = beq_no_dotdot c cs h in
      let s' : Scan =
        if is_empty c then s else if beq c dot then s else push_name s (pos + length c) c in
      let q : P s' =
        if_cases P (is_empty c) _ _ (λ _. p)
          λ _. if_cases P (beq c dot) _ _ (λ _. p) λ _. keep s _ c p in
      let (t, e, r) = scan_from_plain cur (pos + length c + 1) s' cs k q in
      (t, rw (scan_step_name cur pos s c d, scan_from) e, r)

abbrev pub temp_at : Scan → Option (Bytes × ℕ)
temp_at (temp sub above start depth named) = some (sub, start)
temp_at s = none

temp_at-push_name :
    (x : Bytes × ℕ) (s : Scan) (end : ℕ) (c : Bytes)
    → temp_at s ≡ some x
    → temp_at (push_name s end c) ≡ some x
unfolding push_name
temp_at-push_name x (base b) end c h = cc
temp_at-push_name x (other b depth) end c h = cc
temp_at-push_name x (temp sub above start depth named) end c h = h

abbrev pub is_other : Scan → Bool
is_other (other b depth) = true
is_other s = false

pub is_other-push_name :
    (s : Scan) (end : ℕ) (c : Bytes) → is_other s ≡ true → is_other (push_name s end c) ≡ true
unfolding push_name
is_other-push_name (base b) end c h = cc
is_other-push_name (other b depth) end c h = refl
is_other-push_name (temp sub above start depth named) end c h = cc

settle-temp :
    (root : Bytes) (room : ℕ) (cur : Bytes) (rewritten : Bool) (s : Scan) (sub : Bytes) (start : ℕ)
    → temp_at s ≡ some (sub, start)
    → settle root room cur rewritten s ≡ put room (root ++ (sub ++ drop start cur))
unfolding settle
settle-temp root room cur rewritten (base b) sub start h = cc
settle-temp root room cur rewritten (other b depth) sub start h = cc
settle-temp root room cur rewritten (temp sub' above start' depth named) sub start h = cc

abbrev Ends : Bytes → Bytes → ℕ → Type 0
Ends cur sub start = (s : Scan) × (scan cur ≡ at_end s) × (temp_at s ≡ some (sub, start))

pub dotdot_count-slash : (r : Bytes) → dotdot_count (b'/' ∷ r) ≡ count_dotdot (split b'/' r)
unfolding dotdot_count split beq
dotdot_count-slash r = omega arith

-- From just below a temp root, the scan of the rest stays there.
stays :
    (cur : Bytes) (pos : ℕ) (sub : Bytes) (above : Base) (start : ℕ) (r : Bytes)
    → dotdot_count (b'/' ∷ r) ≡ 0
    → (s : Scan) × (scan_from cur pos (temp sub above start 0 false) (split b'/' r) ≡ at_end s)
      × (temp_at s ≡ some (sub, start))
stays cur pos sub above start r h =
    scan_from_plain (λ s. temp_at s ≡ some (sub, start)) (temp_at-push_name (sub, start)) cur pos
      (temp sub above start 0 false) (split b'/' r) (sym (dotdot_count-slash r) ∙ h) refl

scan-host_slash :
    (p : HostRoot) (r : Bytes)
    → dotdot_count (b'/' ∷ r) ≡ 0
    → Ends (host_name p ++ b'/' ∷ r) (location p) (length (host_name p))
unfolding scan split beq
scan-host_slash long_var r h = stays (private_var_tmp ++ b'/' ∷ r) 17 var_tmp Base.priv_var 16 r h
scan-host_slash long_tmp r h = stays (private_tmp ++ b'/' ∷ r) 13 tmp Base.private 12 r h
scan-host_slash short_var r h = stays (var_tmp ++ b'/' ∷ r) 9 var_tmp Base.priv_var 8 r h
scan-host_slash short_tmp r h = stays (tmp ++ b'/' ∷ r) 5 tmp Base.private 4 r h

scan-host :
    (p : HostRoot) (rest : Bytes)
    → whole_rest rest ≡ some rest
    → dotdot_count rest ≡ 0
    → Ends (host_name p ++ rest) (location p) (length (host_name p))
unfolding scan split beq
scan-host long_var [] w h = (temp var_tmp Base.priv_var 16 0 false, refl, refl)
scan-host long_tmp [] w h = (temp tmp Base.private 12 0 false, refl, refl)
scan-host short_var [] w h = (temp var_tmp Base.priv_var 8 0 false, refl, refl)
scan-host short_tmp [] w h = (temp tmp Base.private 4 0 false, refl, refl)
scan-host p (b ∷ r) w h = elim (Bool-cases (b == b'/')) [
  | inl e ↦
      let slash : b ≡ b'/' = ground (arith, e) in
      rw slash (scan-host_slash p r (subst (λ x. dotdot_count (x ∷ r) ≡ 0) slash h))
  | inr e ↦ absurd (ground (arith, e, w))
]

host-starts : (p : HostRoot) (rest : Bytes) → starts_with_slash (host_name p ++ rest) ≡ true
unfolding starts_with_slash
host-starts long_var rest = refl
host-starts p rest = refl

module _ {S : Type 0} (path_max : ℕ) (resolve : S → Bytes → Result Bytes × S) (root : Bytes) where
  -- A path at a host temp root or below it, without `..`, is mapped to its location below the root,
  -- with the rest of it as it is, if that fits the buffer; the kernel is not asked.
  pub map_with-host :
      (p : HostRoot) (rest : Bytes) (room : ℕ) (s : S)
      → whole_rest rest ≡ some rest
      → dotdot_count rest ≡ 0
      → length (host_name p ++ rest) < path_max
      → length (root ++ (location p ++ rest)) < room
      → map_with path_max resolve root (host_name p ++ rest) room s
        ≡ some (ok (some (root ++ (location p ++ rest))), s)
  unfolding map_with map_loop put
  map_with-host p rest room s w h l r =
      let (st, e, t) = scan-host p rest w h in
      let tested : leb path_max (length (host_name p ++ rest)) ≡ false = ground arith in
      let fits : leb room (length (root ++ (location p ++ rest))) ≡ false = ground arith in
      rw (host-starts p rest, tested)
        (rw (e, map_loop)
          (rw
            (settle-temp root room (host_name p ++ rest) false st (location p)
              (length (host_name p)) t)
            (rw (drop-append_length (host_name p) rest) (rw (fits, put) refl))))
