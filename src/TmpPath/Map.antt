-- ===== src/TmpPath/Map.antt =====
-- crates/world-tmp-path/src/lib.rs: `map_with`, `map_target` and `map_at_with`. A call writes a name
-- into a buffer of `room` bytes, with a NUL behind it: `ok (some name)`; `ok none` leaves the path as it
-- is. The kernel that resolves a path is a parameter, with a state of its own, since two calls of it
-- need not agree.
pub mod Below
pub mod Total
pub mod Plain
pub mod Root
pub mod Again
use world.Prelude.{
  ℕ, zero, suc, ◌+◌, ◌-◌, ◌==◌, ltb, leb, min, Bool, true, false, ◌&&◌, ◌||◌, not, List, [], ◌∷◌,
  ◌++◌, Option, none, some, length, is_empty, take, drop, get_or, if◌then◌else◌,
}
use world.Bytes.{Bytes, codes, dot, dotdot, beq, split, is_real, starts_with_slash}
use world.Result
use world.Result.{Result, ok, err, Errno, enametoolong, eloop, unresolved, ◌>>=◌, ◌>>◌, guard}
use world.Fs.Paths.{split_last_slash, dir_text}
use world.TmpPath.{Scan, base, other, temp}
use world.TmpPath.Scanning.{Escape, Scanned, at_end, escaped, scan, dotdot_count, any_component}
use world.TmpPath.Unmap.{unmap}

abbrev pub parent_part : Option (Bytes × Bytes) → Bytes
parent_part none = b'/' ∷ []
parent_part (some (d, n)) = dir_text d

unfoldable pub textual_parent : Bytes → Bytes
unfolding split_last_slash
textual_parent path = parent_part (split_last_slash path)

-- A name and its NUL, in a buffer of `room` bytes
unfoldable pub put : ℕ → Bytes → Result (Option Bytes)
put room name = if leb room (length name) then err enametoolong else ok (some name)

abbrev pub head_of : Bytes → Option Bytes → Bytes
head_of root none = []
head_of root (some sub) = root ++ sub

abbrev pub has_sub : Option Bytes → Bool
has_sub none = false
has_sub (some sub) = true

-- `path` below the directory `dir`, by a slash unless that is the root
abbrev pub with_slash : Bytes → Bytes
with_slash d = if beq d (codes "/") then d else d ++ b'/' ∷ []

abbrev pub or_resolved : Bytes → Option Bytes → Bytes
or_resolved path none = path
or_resolved path (some host) = host

-- The end of a scan without an escape
unfoldable pub settle : Bytes → ℕ → Bytes → Bool → Scan → Result (Option Bytes)
unfolding put
settle root room cur rewritten (temp sub above start depth named) =
    put room (root ++ (sub ++ drop start cur))
settle root room cur rewritten s = if rewritten then put room cur else ok none

-- The physical path up to the escaping `..`, and the slash that makes a file fail
unfoldable pub prefix_of : Bytes → Bytes → Escape → Bytes
prefix_of root cur e = head_of root e.sub ++ take (e.comp_start - e.start) (drop e.start cur)

-- What stands behind the `..` and its slash
unfoldable pub remainder_of : Bytes → Escape → Bytes
remainder_of cur e =
    drop (if ltb e.dotdot_end (length cur) then e.dotdot_end + 1 else length cur) cur

abbrev pub by_scan {ℓ} : {A : Type ℓ} → Scanned → (Scan → A) → (Escape → A) → A
by_scan (at_end s) f g = f s
by_scan (escaped e) f g = g e

-- `path_max` is libc's PATH_MAX.
module _ {S : Type 0} (path_max : ℕ) (resolve : S → Bytes → Result Bytes × S) where
  -- The text that the next scan reads, from what the kernel resolved
  unfoldable pub rewritten_text : Bytes → Bytes → Escape → ℕ → Bytes → Result Bytes
  unfolding textual_parent unmap remainder_of dotdot_count
  rewritten_text root cur e dotdots resolved = do
    let parent = textual_parent (or_resolved resolved (unmap root resolved))
    guard (ltb (length parent) path_max) enametoolong
    let next = with_slash parent ++ remainder_of cur e
    guard (ltb (length next) path_max) enametoolong
    guard (ltb (dotdot_count next) dotdots) eloop
    ok next

  abbrev pub resolved_text : Bytes → Bytes → Escape → ℕ → Result Bytes × S → Result Bytes × S
  resolved_text root cur e dotdots (r, s) = (r >>= rewritten_text root cur e dotdots, s)

  unfoldable pub rewrite_escape : Bytes → ℕ → Bytes → Escape → ℕ → S → Result Bytes × S
  unfolding rewritten_text prefix_of
  rewrite_escape root room cur e dotdots s =
      let prefix = prefix_of root cur e in
      if leb room (length prefix + 1)
      then (err enametoolong, s)
      else resolved_text root cur e dotdots (resolve s (prefix ++ b'/' ∷ 0 ∷ []))

  abbrev pub by_rewrite :
      Result Bytes × S
      → (Bytes → S → Option (Result (Option Bytes) × S))
      → Option (Result (Option Bytes) × S)
  by_rewrite (err n, s) f = some (err n, s)
  by_rewrite (ok next, s) f = f next s

  -- The loop of `map_with`; `none` when the fuel is spent
  unfoldable pub map_loop :
      ℕ → Bytes → ℕ → Bytes → Bool → ℕ → S → Option (Result (Option Bytes) × S)
  unfolding scan settle rewrite_escape
  map_loop zero root room cur rewritten dotdots s = none
  map_loop (suc fuel) root room cur rewritten dotdots s =
      by_scan (scan cur) (λ st. some (settle root room cur rewritten st, s))
        λ e. by_rewrite (rewrite_escape root room cur e dotdots s) λ next s'.
          map_loop fuel root room next (rewritten || has_sub e.sub) (dotdot_count next) s'

  unfoldable pub map_with : Bytes → Bytes → ℕ → S → Option (Result (Option Bytes) × S)
  unfolding map_loop
  map_with root path room s =
      if not (starts_with_slash path) || leb path_max (length path)
      then some (ok none, s)
      else map_loop (suc (dotdot_count path)) root room path false (dotdot_count path) s

-- `map_target`: a lookup that would need the kernel leaves the target as it is.
abbrev pub or_verbatim : Result (Option Bytes) → Result (Option Bytes)
or_verbatim (err unresolved) = ok none
or_verbatim r = r

abbrev pub or_verbatim_out :
    Option (Result (Option Bytes) × Unit {0}) → Option (Result (Option Bytes))
or_verbatim_out none = none
or_verbatim_out (some (r, s)) = some (or_verbatim r)

abbrev pub refusal : Unit {0} → Bytes → Result Bytes × Unit {0}
refusal s path = (err unresolved, s)

unfoldable pub map_target : ℕ → Bytes → Bytes → ℕ → Option (Result (Option Bytes))
unfolding map_with
map_target path_max root target room =
    or_verbatim_out (map_with path_max refusal root target room tt)
