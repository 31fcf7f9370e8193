-- ===== src/TmpPath.antt =====
-- crates/world-tmp-path/src/lib.rs: the mapping of host temp paths below the root of a workspace, and
-- back: the tables, the roots that are accepted, and the states of the scan.
pub mod Scanning
pub mod Map
pub mod Unmap
pub mod MapAt
pub mod RoundTrip
pub mod Tests
mod Witnesses
use world.Prelude.{
  ℕ, ◌+◌, leb, Bool, true, false, ◌&&◌, not, List, [], ◌∷◌, ◌==◌, Option, none, some, length,
  is_empty, if◌then◌else◌,
}
use world.Bytes.{
  Bytes, codes, dot, dotdot, beq, split, contains, starts_with_slash, ends_with_slash,
}

abbrev pub tmp : Bytes
tmp = codes "/tmp"

abbrev pub var_tmp : Bytes
var_tmp = codes "/var/tmp"

abbrev pub private_tmp : Bytes
private_tmp = codes "/private/tmp"

abbrev pub private_var_tmp : Bytes
private_var_tmp = codes "/private/var/tmp"

abbrev pub max_root_len : ℕ
max_root_len = 512

-- Each host temp root with its location below the root of the workspace
abbrev pub host_roots : List (Bytes × Bytes)
host_roots = (private_var_tmp, var_tmp) ∷ (private_tmp, tmp) ∷ (var_tmp, var_tmp) ∷ (tmp, tmp) ∷ []

-- Each location with the name that is reported for it
abbrev pub canonical : List (Bytes × Bytes)
canonical = (var_tmp, private_var_tmp) ∷ (tmp, private_tmp) ∷ []

unfoldable pub strip_prefix : Bytes → Bytes → Option Bytes
strip_prefix path [] = some path
strip_prefix [] (p ∷ ps) = none
strip_prefix (b ∷ bs) (p ∷ ps) = if b == p then strip_prefix bs ps else none

-- A rest after whole components: empty, or from a slash on
abbrev pub whole_rest : Bytes → Option Bytes
whole_rest [] = some []
whole_rest (b ∷ bs) = if b == b'/' then some (b ∷ bs) else none

abbrev pub and_rest : Option Bytes → Option Bytes
and_rest none = none
and_rest (some rest) = whole_rest rest

unfoldable pub component_rest : Bytes → Bytes → Option Bytes
unfolding strip_prefix
component_rest path prefix = and_rest (strip_prefix path prefix)

abbrev pub is_none : Option Bytes → Bool
is_none none = true
is_none (some x) = false

unfoldable pub all_plain : List Bytes → Bool
all_plain [] = true
all_plain (c ∷ cs) = not (is_empty c) && not (beq c dot) && not (beq c dotdot) && all_plain cs

unfoldable pub outside : List (Bytes × Bytes) → Bytes → Bool
unfolding component_rest
outside [] root = true
outside ((host, sub) ∷ hosts) root = is_none (component_rest root host) && outside hosts root

-- `root[1..]`
abbrev pub tail : Bytes → Bytes
tail [] = []
tail (b ∷ bs) = bs

unfoldable pub valid_root : Bytes → Bool
unfolding all_plain outside
valid_root root =
    leb 8 (length root)
    && leb (length root) max_root_len
    && starts_with_slash root
    && not (ends_with_slash root)
    && not (contains 0 root)
    && all_plain (split b'/' (tail root))
    && outside host_roots root

-- Where a leading prefix stands among the directories that lead to a temp root
pub data Base : Type 0 where
  root private priv_var : Base

unfoldable pub base_parent : Base → Base
base_parent Base.root = Base.root
base_parent Base.private = Base.root
base_parent Base.priv_var = Base.private

-- `Scan::Base`, `Scan::Other` and `Scan::Temp`
pub data Scan : Type 0 where
  base : Base → Scan
  other : (at : Base) (depth : ℕ) → Scan
  temp : (sub : Bytes) (above : Base) (start depth : ℕ) (named : Bool) → Scan
