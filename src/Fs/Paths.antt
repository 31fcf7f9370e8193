-- ===== src/Fs/Paths.antt =====
-- crates/world-fsmodel/src/lib.rs: the operands' text, before any lookup.
pub mod Parts
use world.Prelude.{
  ℕ, ◌==◌, ltb, Bool, true, false, ◌&&◌, [], ◌∷◌, Option, none, some, length, if◌then◌else◌,
}
use world.Bytes.{Bytes, starts_with_slash, ends_with_slash, dot}
use world.Result.{Result, ok, err, enoent, einval}
use world.Fs.Types.{Start, fd, root}

unfoldable pub at_start : ℕ → Bytes → Start
unfolding starts_with_slash
at_start dirfd path = if starts_with_slash path then root else fd dirfd

unfoldable pub all_slashes : Bytes → Bool
all_slashes [] = true
all_slashes (b ∷ bs) = b == b'/' && all_slashes bs

unfoldable pub is_root_operand : Bytes → Bool
unfolding all_slashes
is_root_operand [] = false
is_root_operand (b ∷ bs) = all_slashes (b ∷ bs)

-- The loop that moves `end` back over the slashes at the end: what is left is `path[..end]`.
unfoldable pub trim_end : Bytes → Bytes
trim_end [] = []
trim_end (b ∷ bs) = elim (trim_end bs) [
  | [] ↦ if b == b'/' then [] else b ∷ []
  | c ∷ cs ↦ b ∷ c ∷ cs
]

-- `rposition` of a slash, as the two slices on its sides
unfoldable pub split_last_slash : Bytes → Option (Bytes × Bytes)
split_last_slash [] = none
split_last_slash (b ∷ bs) = elim (split_last_slash bs) [
  | some (d, n) ↦ some (b ∷ d, n)
  | none ↦ if b == b'/' then some ([], bs) else none
]

pub record Split : Type 0 where
  pub dir : Bytes
  pub name : Bytes
  pub trailing : Bool

abbrev pub dir_text : Bytes → Bytes
dir_text [] = b'/' ∷ []
dir_text (b ∷ bs) = b ∷ bs

abbrev pub name_in : Bytes → Option (Bytes × Bytes) → Bool → Split
name_in trimmed none t = record { dir = dot; name = trimmed; trailing = t }
name_in trimmed (some (d, n)) t = record { dir = dir_text d; name = n; trailing = t }

abbrev pub split_trimmed : Bytes → Bytes → Result Split
split_trimmed path [] = err einval
split_trimmed path (b ∷ bs) =
    ok (name_in (b ∷ bs) (split_last_slash (b ∷ bs)) (ltb (length (b ∷ bs)) (length path)))

unfoldable pub parent_and_name : Bytes → Result Split
unfolding trim_end split_last_slash
parent_and_name [] = err enoent
parent_and_name (b ∷ bs) = split_trimmed (b ∷ bs) (trim_end (b ∷ bs))

-- `path.len() > 1 && path.ends_with(b"/")`
unfoldable pub has_trailing_slash : Bytes → Bool
unfolding ends_with_slash
has_trailing_slash path = ltb 1 (length path) && ends_with_slash path
