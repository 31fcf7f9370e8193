-- ===== src/TmpPath/Unmap.antt =====
-- crates/world-tmp-path/src/lib.rs: physical names back to host names: `unmap_in_place`, `copy_cwd`,
-- `copy_link`, and the socket addresses.
pub mod Names
pub mod Buffer
pub mod Nul
pub mod Address
pub mod Requery
use world.Prelude.{
  ℕ, ◌+◌, ◌-◌, ◌%◌, ◌==◌, ltb, leb, min, Bool, true, false, ◌&&◌, ◌||◌, not, List, [], ◌∷◌, ◌++◌,
  Option, none, some, length, take, drop, get_or, replicate, if◌then◌else◌,
}
use world.Bytes.{Bytes}
use world.Result.{Result, ok, err, Errno, erange, enoent, enotdir, eacces, same_errno}
use world.TmpPath.{component_rest, canonical}

-- `buf[at..at + src.len()].copy_from_slice(src)`, within the buffer
unfoldable pub overwrite : ℕ → Bytes → Bytes → Bytes
overwrite at src buf = take at buf ++ (src ++ drop (at + length src) buf)

-- The canonical name, with what follows the location that it stands for
unfoldable pub find_canonical : List (Bytes × Bytes) → Bytes → Option (Bytes × Bytes)
unfolding component_rest
find_canonical [] rest = none
find_canonical ((sub, name) ∷ more) rest = elim (component_rest rest sub) [
  | some r ↦ some (name, r)
  | none ↦ find_canonical more rest
]

abbrev canonical_below : Option Bytes → Option (Bytes × Bytes)
canonical_below none = none
canonical_below (some rest) = find_canonical canonical rest

unfoldable pub canonical_parts : Bytes → Bytes → Option (Bytes × Bytes)
unfolding find_canonical
canonical_parts root path = canonical_below (component_rest path root)

-- The name alone, for a caller that reads `buf[..new_len]`
abbrev pub joined_parts : Option (Bytes × Bytes) → Option Bytes
joined_parts none = none
joined_parts (some (name, r)) = some (name ++ r)

unfoldable pub unmap : Bytes → Bytes → Option Bytes
unfolding canonical_parts
unmap root path = joined_parts (canonical_parts root path)

abbrev pub written_parts : Bytes → Option (Bytes × Bytes) → Option (Bytes × ℕ)
written_parts buf none = none
written_parts buf (some (name, r)) = some (overwrite 0 (name ++ r) buf, length name + length r)

-- The buffer after it and the new length. `copy_within` leaves what stands behind the new end.
unfoldable pub unmap_in_place : Bytes → Bytes → ℕ → Option (Bytes × ℕ)
unfolding overwrite canonical_parts
unmap_in_place root buf len = written_parts buf (canonical_parts root (take len buf))

-- `unmap_in_place(..).unwrap_or(len)`: the buffer and the length that are read on
abbrev pub unmapped_or : Bytes → ℕ → Option (Bytes × ℕ) → Bytes × ℕ
unmapped_or buf len none = (buf, len)
unmapped_or buf len (some b) = b

-- The caller's buffer after the call
unfoldable pub copy_cwd : Bytes → Bytes → ℕ → Bytes → Result (Bytes × ℕ)
unfolding unmap_in_place
copy_cwd root local len dst =
    let (buf, n) = unmapped_or local len (unmap_in_place root local len) in
    if ltb (length dst) (n + 1) then err erange else ok (overwrite 0 (take n buf ++ 0 ∷ []) dst, n)

unfoldable pub copy_link : Bytes → Bytes → ℕ → Bytes → Bytes × ℕ
unfolding unmap_in_place
copy_link root local len dst =
    let (buf, n) = unmapped_or local len (unmap_in_place root local len) in
    let copied = min n (length dst) in (overwrite 0 (take copied buf) dst, copied)

abbrev pub sun_path_offset : ℕ
sun_path_offset = 2

-- What comes before the first NUL
unfoldable pub before_nul : Bytes → Bytes
before_nul [] = []
before_nul (b ∷ bs) = if b == 0 then [] else b ∷ before_nul bs

-- `af_unix` is the platform's AF_UNIX.
module _ (af_unix : ℕ) where
  unfoldable pub unix_path : Bytes → Option Bytes
  unfolding before_nul
  unix_path sa =
      if leb (length sa) sun_path_offset || not (get_or sa 1 0 == af_unix)
      then none
      else some (before_nul (drop sun_path_offset sa))

  -- The address after the path region became `region'`, with `new_len` bytes of path
  unfoldable pub shrunk_sockaddr : Bytes → ℕ → Option (Bytes × ℕ) → Option (Bytes × ℕ)
  unfolding overwrite
  shrunk_sockaddr sa reported none = none
  shrunk_sockaddr sa reported (some (region', new_len)) =
      let region = reported - sun_path_offset in
      let sa' = take sun_path_offset sa ++ region' in
      let zeroed =
        overwrite (sun_path_offset + new_len) (replicate (reported - (sun_path_offset + new_len)) 0)
          sa' in
      let total = sun_path_offset + new_len + (if ltb new_len region then 1 else 0) in
      some (overwrite 0 (total % 256 ∷ []) zeroed, total)

  unfoldable pub unmap_sockaddr : Bytes → Bytes → ℕ → Option (Bytes × ℕ)
  unfolding shrunk_sockaddr unmap_in_place before_nul
  unmap_sockaddr root sa reported =
      if leb reported sun_path_offset || ltb (length sa) reported || not (get_or sa 1 0 == af_unix)
      then none
      else shrunk_sockaddr sa reported (
          unmap_in_place root (drop sun_path_offset sa)
            (length (before_nul (drop sun_path_offset (take reported sa)))))

  abbrev pub capped_copy : ℕ → Bytes → Option (Bytes × ℕ) → Option (Bytes × ℕ)
  capped_copy room dst none = none
  capped_copy room dst (some (storage, total)) =
      let n = min (min (min room total) (length storage)) (length dst) in
      some (overwrite 0 (take n storage) dst, total)

  -- The caller's buffer, and the unmapped total, which may be more than `room`
  unfoldable pub requeried_unix : Bytes → Bytes → ℕ → ℕ → Bytes → Option (Bytes × ℕ)
  unfolding unmap_sockaddr
  requeried_unix root storage reported room dst =
      capped_copy room dst (unmap_sockaddr root storage reported)

unfoldable pub skippable : Errno → Bool
skippable enoent = true
skippable enotdir = true
skippable eacces = true
skippable e = false
