-- ===== src/Registry/Paths.antt =====
-- crates/world-runtime/src/silo.rs: the places of workdirs and temp roots. A path is the list of its
-- bytes, and a directory given to `under` is absolute.
use world.Prelude.{
  ltb, Bool, true, false, ◌&&◌, ◌||◌, not, List, [], ◌∷◌, ◌++◌, reverse, Option, none, some, length,
  is_empty, if◌then◌else◌,
}
use world.Bytes.{
  Bytes, codes, beq, dotdot, split, real_components, starts_with_slash, ends_with_slash,
}
use world.Policy.{show_v4}
use world.TmpPath.{valid_root, max_root_len}
use world.Registry.Types.{
  Ipv4Addr, Act, below_shared_temp, unusable_root, bad_workdir, no_home, pure, ensure, or_fail,
  ◌>>=◌, ◌>>◌,
}

-- `cfg!(target_os)`
pub data Platform : Type 0 where
  macos linux other : Platform

abbrev pub is_macos : Platform → Bool
is_macos macos = true
is_macos linux = false
is_macos other = false

abbrev pub is_linux : Platform → Bool
is_linux macos = false
is_linux linux = true
is_linux other = false

-- How `persist` ends: an error before the rename leaves the old file, and one of the last `sync_all`
-- leaves the new one.
pub data Persistence : Type 0 where
  durable unwritten unsynced : Persistence

-- How `temp_root_in` ends: it gets through its descriptors and finds the root where it belongs, or fails,
-- before or after the directory of the root is there
pub data Building : Type 0 where
  built not_built half_built : Building

-- How a marker is written or read: a write that fails leaves what it has written.
pub data Marking : Type 0 where
  marked not_marked : Marking
  torn : Bytes → Marking

-- The kernel's answers; `random` is what `rand::random` gives.
pub record Host : Type 0 where
  pub target : Platform
  pub home_var : Option Bytes
  pub canonicalize : Bytes → Option Bytes
  pub is_directory : Bytes → Bool
  pub builds : Bytes → Ipv4Addr → Building
  pub marks : Bytes → Marking
  pub alias_ready : Ipv4Addr → Bool
  pub random : Bytes
  pub persistence : Persistence

unfoldable pub is_prefix : List Bytes → List Bytes → Bool
is_prefix [] cs = true
is_prefix (d ∷ ds) [] = false
is_prefix (d ∷ ds) (c ∷ cs) = beq d c && is_prefix ds cs

-- `Path::starts_with`
unfoldable pub under : Bytes → Bytes → Bool
unfolding is_prefix real_components
under dir p = starts_with_slash p && is_prefix (real_components dir) (real_components p)

unfoldable pub any_parent_dir : List Bytes → Bool
any_parent_dir [] = false
any_parent_dir (c ∷ cs) = beq c dotdot || any_parent_dir cs

-- `is_absolute()`, without `.` and `..`: the components of an absolute path skip `.`.
unfoldable pub is_normalized : Bytes → Bool
unfolding any_parent_dir real_components
is_normalized p = starts_with_slash p && not (any_parent_dir (real_components p))

-- `Path::join` of a relative path
unfoldable pub join : Bytes → Bytes → Bytes
join p q = if is_empty p || ends_with_slash p then p ++ q else p ++ b'/' ∷ q

unfoldable pub ip_name : Ipv4Addr → Bytes
unfolding show_v4
ip_name ip = show_v4 ip.first ip.second ip.third ip.fourth

unfoldable pub root_for : Bytes → Ipv4Addr → Bytes
unfolding join ip_name
root_for home ip = join (join home (codes ".world/tmp")) (ip_name ip)

-- `Path::parent`, of the pieces behind the first slash, last one first
unfoldable pub skip_blank : List Bytes → List Bytes
skip_blank [] = []
skip_blank (c ∷ cs) =
    let rest = skip_blank cs in if is_empty c || beq c (codes ".") then rest else c ∷ cs

unfoldable pub parent_pieces : List Bytes → Option (List Bytes)
unfolding skip_blank
parent_pieces [] = none
parent_pieces (c ∷ cs) = some (skip_blank cs)

unfoldable pub pieces_text : List Bytes → Bytes
pieces_text [] = []
pieces_text (c ∷ []) = c
pieces_text (c ∷ d ∷ cs) = c ++ b'/' ∷ pieces_text (d ∷ cs)

-- An absolute path, written with single slashes and without `.`
unfoldable pub plain_path : Bytes → Bytes
unfolding pieces_text real_components
plain_path p = b'/' ∷ pieces_text (real_components p)

-- `p == q`, where one of them is absolute: paths are equal by their components.
unfoldable pub same_path : Bytes → Bytes → Bool
unfolding plain_path beq
same_path p q = starts_with_slash p && starts_with_slash q && beq (plain_path p) (plain_path q)

abbrev pub behind_slash : Bytes → Bytes
behind_slash [] = []
behind_slash (b ∷ bs) = bs

abbrev pub grandparent : Option (List Bytes) → Option (List Bytes)
grandparent none = none
grandparent (some cs) = parent_pieces cs

abbrev pub text_of : Option (List Bytes) → Option Bytes
text_of none = none
text_of (some cs) = some (b'/' ∷ pieces_text (reverse cs))

-- `ancestors().nth(3)`, of an absolute path
unfoldable pub third_ancestor : Bytes → Option Bytes
unfolding parent_pieces pieces_text split
third_ancestor p =
    text_of (
      grandparent
        (grandparent (parent_pieces (skip_blank (reverse (split b'/' (behind_slash p)))))))

module _ (host : Host) where
  abbrev pub shared_temp : List Bytes
  shared_temp =
      if is_macos host.target
      then codes "/private/tmp" ∷ codes "/private/var/tmp" ∷ []
      else codes "/tmp" ∷ codes "/var/tmp" ∷ []

  abbrev pub under_real : Bytes → Option Bytes → Bool
  under_real p none = false
  under_real p (some real) = under real p

  unfoldable pub in_temp_dirs : Bytes → List Bytes → Bool
  unfolding under
  in_temp_dirs p [] = false
  in_temp_dirs p (dir ∷ dirs) =
      (under dir p || under_real p (host.canonicalize dir)) || in_temp_dirs p dirs

  unfoldable pub in_shared_temp : Bytes → Bool
  unfolding in_temp_dirs
  in_shared_temp p = in_temp_dirs p shared_temp

  unfoldable pub reject_shared_temp : Bytes → Act (Unit {0})
  unfolding in_shared_temp ensure
  reject_shared_temp p = ensure (not (in_shared_temp p)) below_shared_temp

  unfoldable pub check_workdir : Bytes → Act (Unit {0})
  unfolding reject_shared_temp
  check_workdir dir = reject_shared_temp dir

  abbrev pub in_shared_real : Option Bytes → Bool
  in_shared_real none = false
  in_shared_real (some p) = in_shared_temp p

  unfoldable pub stale_workdir : Bytes → Bool
  unfolding in_shared_temp under
  stale_workdir stored =
      in_shared_temp stored
      || (under (codes "/tmp") stored || under (codes "/var/tmp") stored)
      || in_shared_real (host.canonicalize stored)

  abbrev pub canonical_of : Option Bytes → Option Bytes
  canonical_of none = none
  canonical_of (some p) = host.canonicalize p

  unfoldable pub host_home : Act Bytes
  unfolding ◌>>◌ reject_shared_temp
  host_home = do
    home ← or_fail (canonical_of host.home_var) no_home
    reject_shared_temp home
    pure home

  abbrev pub holds_home : Bytes → Option Bytes → Bool
  holds_home dir none = false
  holds_home dir (some home) = under dir home

  -- `run::workdir`
  unfoldable pub workdir_of : Bytes → Act Bytes
  unfolding ◌>>◌ under
  workdir_of path = do
    dir ← or_fail (host.canonicalize path) bad_workdir
    ensure (host.is_directory dir) bad_workdir
    ensure (not (beq dir (codes "/") || holds_home dir (canonical_of host.home_var))) bad_workdir
    pure dir

  unfoldable pub is_usable_root : Bytes → Bool
  unfolding is_normalized in_shared_temp valid_root
  is_usable_root root =
      if is_macos host.target
      then not (ltb max_root_len (length root)) && valid_root root
      else is_normalized root && not (in_shared_temp root)

  unfoldable pub check_root : Bytes → Act (Unit {0})
  unfolding is_usable_root ensure
  check_root root = ensure (is_usable_root root) unusable_root

  unfoldable pub new_root : Bytes → Ipv4Addr → Act Bytes
  unfolding ◌>>◌ root_for check_root
  new_root home ip = do check_root (root_for home ip); pure (root_for home ip)
