-- ===== src/TmpPath/Map/Total.antt =====
-- crates/world-tmp-path/src/lib.rs: the loop of `map_with`, for any kernel: that it ends, and what it
-- can answer.
use world.Prelude.{
  ap, sym, ◌∙◌, ℕ, zero, suc, ◌+◌, ◌<◌, leb, ◌≡◌, refl, ◌⊎◌, Bool, true, false, ◌||◌, not, [], ◌∷◌,
  ◌++◌, Option, none, some, length, drop, if_cases, arith, ltb→lt,
}
use world.Bytes.{Bytes, split, starts_with_slash}
use world.Result
use world.Result.{Result, ok, err, Errno}
use world.Result.Yields.{Yields, Yields-ok, Yields-err, Yields-bind, Yields-guard}
use world.TmpPath.{whole_rest, Scan, base, other, temp, tmp, var_tmp}
use world.TmpPath.Scanning.{Escape, Scanned, at_end, escaped, scan, dotdot_count}
use world.TmpPath.Map.Below.{
  IsInside, IsFound, scan-IsFound, stays_below, stays-end, behind-whole_rest, behind-stays_below,
}
use world.TmpPath.Map.{
  put, settle, prefix_of, rewritten_text, resolved_text, rewrite_escape, by_scan, by_rewrite,
  map_loop, map_with,
}

abbrev pub is_temp : Scan → Bool
is_temp (temp sub above start depth named) = true
is_temp s = false

-- What `map_with` may answer: the path is kept; an errno; a name below a temp directory of the root: its
-- rest is empty or begins with a slash, and no `..` of it leads above the directory; or another text,
-- whose own scan does not end in a host temp root. A name fits the buffer with its NUL.
pub data IsMapped (root : Bytes) (room : ℕ) : Result (Option Bytes) → Type 0 where
  kept : IsMapped root room (ok none)
  failed : (e : Errno) → IsMapped root room (err e)
  inside :
      (sub rest : Bytes)
      → (sub ≡ tmp) ⊎ (sub ≡ var_tmp)
      → whole_rest rest ≡ some rest
      → stays_below 0 (split b'/' rest) ≡ true
      → length (root ++ (sub ++ rest)) < room
      → IsMapped root room (ok (some (root ++ (sub ++ rest))))
  outside :
      (text : Bytes) (s : Scan)
      → scan text ≡ at_end s
      → is_temp s ≡ false
      → length text < room
      → IsMapped root room (ok (some text))

module _ (root : Bytes) (room : ℕ) where
  settle-IsMapped :
      (cur : Bytes) (rewritten : Bool) (s : Scan)
      → scan cur ≡ at_end s
      → IsInside cur s []
      → IsMapped root room (settle root room cur rewritten s)
  unfolding settle put
  settle-IsMapped cur rewritten (temp sub above start depth named) e (l, names, t, n, w) =
      if_cases (IsMapped root room) (leb room (length (root ++ (sub ++ drop start cur)))) _ _
        (λ t. failed _)
        λ f.
          inside sub (drop start cur) l
            (ap whole_rest t ∙ behind-whole_rest names ∙ ap some (sym t))
            (ap (λ x. stays_below 0 (split b'/' x)) t
              ∙ behind-stays_below names n (w ∙ stays-end depth))
            (ground (arith, f))
  settle-IsMapped cur false (base b) e h = kept
  settle-IsMapped cur false (other b depth) e h = kept
  settle-IsMapped cur true (base b) e h =
      if_cases (IsMapped root room) (leb room (length cur)) _ _ (λ t. failed _)
        λ t. outside cur (base b) e refl (ground (arith, t))
  settle-IsMapped cur true (other b depth) e h =
      if_cases (IsMapped root room) (leb room (length cur)) _ _ (λ t. failed _)
        λ t. outside cur (other b depth) e refl (ground (arith, t))

module _ {S : Type 0} (path_max : ℕ) (resolve : S → Bytes → Result Bytes × S) (root : Bytes) where
  rewritten_text-lt :
      (cur : Bytes) (e : Escape) (dotdots : ℕ) (resolved : Bytes)
      → Yields
          (λ next. dotdot_count next < dotdots)
          (rewritten_text path_max resolve root cur e dotdots resolved)
  unfolding rewritten_text
  rewritten_text-lt cur e dotdots resolved =
      Yields-guard _ _ _
        λ _. Yields-guard _ _ _ λ _. Yields-guard _ _ _ λ h. Yields-ok _ (ltb→lt _ _ h)

  resolved_text-lt :
      (cur : Bytes) (e : Escape) (dotdots : ℕ) (x : Result Bytes × S)
      → Yields
          (λ next. dotdot_count next < dotdots)
          (resolved_text path_max resolve root cur e dotdots x).0
  resolved_text-lt cur e dotdots x =
      Yields-bind (λ r. Unit {0}) x.0 _ (record { of = λ r p. tt })
        λ r _. rewritten_text-lt cur e dotdots r

  rewrite_escape-lt :
      (room : ℕ) (cur : Bytes) (e : Escape) (dotdots : ℕ) (s : S)
      → Yields
          (λ next. dotdot_count next < dotdots)
          (rewrite_escape path_max resolve root room cur e dotdots s).0
  unfolding rewrite_escape
  rewrite_escape-lt room cur e dotdots s =
      let prefix = prefix_of root cur e in
      let asked = resolve s (prefix ++ b'/' ∷ 0 ∷ []) in
      if_cases (λ (x : Result Bytes × S). Yields (λ next. dotdot_count next < dotdots) x.0)
        (leb room (length prefix + 1)) (err Result.enametoolong, s)
        (resolved_text path_max resolve root cur e dotdots asked) (λ _. Yields-err _)
        λ _. resolved_text-lt cur e dotdots asked

  -- The call ends, with an answer of `IsMapped`.
  Ends : ℕ → Option (Result (Option Bytes) × S) → Type 0
  Ends room o = (r : Result (Option Bytes)) × (s : S) × (o ≡ some (r, s)) × IsMapped root room r

  by_scan-Ends :
      (room : ℕ) (cur : Bytes) (r : Scanned) (f : Scan → Option (Result (Option Bytes) × S))
      (g : Escape → Option (Result (Option Bytes) × S))
      → IsFound cur r []
      → ((s : Scan) → r ≡ at_end s → IsInside cur s [] → Ends room (f s))
      → ((e : Escape) → Ends room (g e))
      → Ends room (by_scan r f g)
  by_scan-Ends room cur (at_end s) f g h k l = k s refl h
  by_scan-Ends room cur (escaped e) f g h k l = l e

  by_rewrite-Ends :
      (room n : ℕ) (x : Result Bytes × S) (f : Bytes → S → Option (Result (Option Bytes) × S))
      → Yields (λ next. dotdot_count next < n) x.0
      → ((next : Bytes) (s : S) → dotdot_count next < n → Ends room (f next s))
      → Ends room (by_rewrite path_max resolve x f)
  unfolding Ends
  by_rewrite-Ends room n (err e, s) f h k = (err e, s, refl, failed e)
  by_rewrite-Ends room n (ok next, s) f h k = k next s (h.of next refl)

  map_loop-Ends :
      (fuel room : ℕ) (cur : Bytes) (rewritten : Bool) (dotdots : ℕ) (s : S)
      → dotdots < fuel
      → Ends room (map_loop path_max resolve fuel root room cur rewritten dotdots s)
  unfolding map_loop Ends
  map_loop-Ends zero room cur rewritten dotdots s h = absurd (omega arith)
  map_loop-Ends (suc fuel) room cur rewritten dotdots s h =
      by_scan-Ends room cur (scan cur) _ _ (scan-IsFound cur)
        (λ st e l. (
          settle root room cur rewritten st,
          s,
          refl,
          settle-IsMapped root room cur rewritten st e l,
        ))
        λ e.
          by_rewrite-Ends room dotdots _ _ (rewrite_escape-lt room cur e dotdots s)
            λ next s' l. map_loop-Ends fuel room next _ (dotdot_count next) s' (omega arith)

  -- `map_with` returns, whatever the kernel answers and however its answers differ from call to call:
  -- it keeps the path, fails, or gives a name that fits the buffer. The name is a temp directory of the
  -- root, alone or with components behind a slash that do not climb above it by `..`, or it is a text
  -- whose own scan does not end in a host temp root.
  pub map_with-IsMapped :
      (path : Bytes) (room : ℕ) (s : S)
      → (r : Result (Option Bytes)) × (s' : S) × (map_with path_max resolve root path room s
          ≡ some (r, s'))
        × IsMapped root room r
  unfolding map_with Ends
  map_with-IsMapped path room s =
      if_cases (Ends room) (not (starts_with_slash path) || leb path_max (length path)) _ _
        (λ _. (ok none, s, refl, kept))
        λ _.
          map_loop-Ends (suc (dotdot_count path)) room path false (dotdot_count path) s
            (omega arith)
