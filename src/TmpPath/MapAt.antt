-- ===== src/TmpPath/MapAt.antt =====
-- crates/world-tmp-path/src/lib.rs: `map_at_with`, the mapping of a path relative to a directory.
use world.Prelude.{
  ℕ, zero, suc, ◌-◌, ◌==◌, ltb, leb, Bool, true, false, ◌&&◌, ◌||◌, not, List, [], ◌∷◌, ◌++◌,
  Option, none, some, length, take, get_or, if◌then◌else◌,
}
use world.Bytes.{Bytes, codes, dotdot, beq, split, is_real, starts_with_slash}
use world.Result.{Result, ok, err, enametoolong, ◌>>◌, guard}
use world.TmpPath.Scanning.{any_component}
use world.TmpPath.Unmap.{unmap}
use world.TmpPath.Map.{put, or_resolved, with_slash, map_with}

-- `while *len > 1 && joined[*len - 1] != b'/'`: the length that is left
unfoldable pub drop_name : Bytes → ℕ → ℕ
drop_name joined zero = zero
drop_name joined (suc n) = elim (ltb 0 n && not (get_or joined n 0 == b'/')) [
  | true ↦ drop_name joined n
  | false ↦ suc n
]

unfoldable pub pop_component : Bytes → Bytes
unfolding drop_name
pop_component joined =
    let len = drop_name joined (length joined) in take (if ltb 1 len then len - 1 else len) joined

-- The loop over the leading `.` and `..`: the directory and the rest that is left
unfoldable pub pop_leading : Bytes → Bytes → Bytes × Bytes
unfolding pop_component
pop_leading joined [] = (joined, [])
pop_leading joined (a ∷ []) = if a == b'.' then (joined, []) else (joined, a ∷ [])
pop_leading joined (a ∷ b ∷ []) =
    if a == b'.' && b == b'.'
    then (pop_component joined, [])
    else if a == b'.' && b == b'/'
    then (joined, [])
    else (joined, a ∷ b ∷ [])
pop_leading joined (a ∷ b ∷ c ∷ rest) = elim (a == b'.' && b == b'/') [
  | true ↦ pop_leading joined (c ∷ rest)
  | false ↦ elim (a == b'.' && b == b'.' && c == b'/') [
    | true ↦ pop_leading (pop_component joined) rest
    | false ↦ (joined, a ∷ b ∷ c ∷ rest)
  ]
]

unfoldable pub first_real : List Bytes → Bytes
first_real [] = []
first_real (c ∷ cs) = if is_real c then c else first_real cs

unfoldable pub first_real_component : Bytes → Bytes
unfolding first_real
first_real_component path = first_real (split b'/' path)

-- Whether a relative path can reach a temp root at all
unfoldable pub may_reach : Bytes → Bool
unfolding first_real_component any_component
may_reach path =
    let first = first_real_component path in
    any_component dotdot (split b'/' path)
    || beq first (codes "tmp")
    || beq first (codes "private")
    || beq first (codes "var")

abbrev pub is_mapped : Option Bytes → Bool
is_mapped none = false
is_mapped (some name) = true

-- The joined text is used also where the mapping leaves it alone, if the directory was under the root.
unfoldable pub report : ℕ → Bool → Bytes → Result (Option Bytes) → Result (Option Bytes)
unfolding put
report room under joined (ok none) = if under then put room joined else ok none
report room under joined r = r

abbrev pub report_out :
    {S : Type 0}
    → ℕ
    → Bool
    → Bytes
    → Option (Result (Option Bytes) × S)
    → Option (Result (Option Bytes) × S)
report_out room under joined none = none
report_out room under joined (some (r, s)) = some (report room under joined r, s)

module _ {S : Type 0} (path_max : ℕ) (resolve : S → Bytes → Result Bytes × S) where
  -- The directory joined with what is left of the path
  unfoldable pub join_rest : Bytes × Bytes → Result Bytes
  join_rest (joined, []) = ok joined
  join_rest (joined, b ∷ rest) = do
    guard (beq joined (codes "/") || ltb (length joined) path_max) enametoolong
    let whole = with_slash joined ++ b ∷ rest
    guard (ltb (length whole) path_max) enametoolong
    ok whole

  unfoldable pub map_joined :
      Bytes → ℕ → Bool → S → Result Bytes → Option (Result (Option Bytes) × S)
  unfolding map_with report
  map_joined root room under s (err e) = some (err e, s)
  map_joined root room under s (ok joined) =
      report_out room under joined (map_with path_max resolve root joined room s)

  -- The name of the directory, which the kernel has given
  unfoldable pub map_below :
      Bytes → Bytes → ℕ → Result Bytes × S → Option (Result (Option Bytes) × S)
  unfolding map_joined pop_leading join_rest unmap
  map_below root path room (err e, s) = some (err e, s)
  map_below root path room (ok name, s) =
      if leb path_max (length name)
      then some (err enametoolong, s)
      else map_joined root room (is_mapped (unmap root name)) s
          (join_rest (pop_leading (or_resolved name (unmap root name)) path))

  unfoldable pub map_at_with :
      Bytes → Bytes → ℕ → (S → Result Bytes × S) → S → Option (Result (Option Bytes) × S)
  unfolding map_with may_reach map_below
  map_at_with root path room base s =
      if starts_with_slash path
      then map_with path_max resolve root path room s
      else if not (may_reach path)
      then some (ok none, s)
      else map_below root path room (base s)
