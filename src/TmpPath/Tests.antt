-- ===== src/TmpPath/Tests.antt =====
-- Runs of the mapping at a root, with a kernel that knows one link.
use world.Prelude.{ℕ, ◌+◌, ◌≡◌, refl, true, [], ◌∷◌, ◌++◌, none, some, if◌then◌else◌}
use world.Bytes.{Bytes, beq, codes}
use world.Result
use world.Result.{Result, ok, err, enoent}
use world.TmpPath.{valid_root}
use world.TmpPath.Unmap.{unmap, copy_cwd, unmap_sockaddr}
use world.TmpPath.Map.{map_with, map_target}
use world.TmpPath.MapAt.{map_at_with}

-- The definitions that a run computes with
unfoldable pub machine : Unit {0}
unfolding world.Bytes.beq world.Bytes.lex world.Bytes.starts_with world.Bytes.ends_with_slash
    world.Bytes.starts_with_slash world.Bytes.contains world.Bytes.split world.Bytes.is_real
    world.Bytes.keep_real world.Bytes.real_components world.Bytes.lower
    world.Bytes.to_ascii_lowercase world.Fs.Paths.at_start world.Fs.Paths.all_slashes
    world.Fs.Paths.is_root_operand world.Fs.Paths.trim_end world.Fs.Paths.split_last_slash
    world.Fs.Paths.parent_and_name world.Fs.Paths.has_trailing_slash world.Result.guard
    world.Result.◌>>=◌ world.Result.◌>>◌ world.TmpPath.strip_prefix world.TmpPath.component_rest
    world.TmpPath.all_plain world.TmpPath.outside world.TmpPath.valid_root world.TmpPath.base_parent
    world.TmpPath.Map.textual_parent world.TmpPath.Map.put world.TmpPath.Map.settle
    world.TmpPath.Map.prefix_of world.TmpPath.Map.remainder_of world.TmpPath.Map.rewritten_text
    world.TmpPath.Map.rewrite_escape world.TmpPath.Map.map_loop world.TmpPath.Map.map_with
    world.TmpPath.Map.map_target world.TmpPath.MapAt.drop_name world.TmpPath.MapAt.pop_component
    world.TmpPath.MapAt.pop_leading world.TmpPath.MapAt.first_real
    world.TmpPath.MapAt.first_real_component world.TmpPath.MapAt.may_reach
    world.TmpPath.MapAt.report world.TmpPath.MapAt.join_rest world.TmpPath.MapAt.map_joined
    world.TmpPath.MapAt.map_below world.TmpPath.MapAt.map_at_with
    world.TmpPath.Scanning.any_component world.TmpPath.Scanning.has_tmp_component
    world.TmpPath.Scanning.count_dotdot world.TmpPath.Scanning.dotdot_count
    world.TmpPath.Scanning.enter_name world.TmpPath.Scanning.push_name
    world.TmpPath.Scanning.pop_name world.TmpPath.Scanning.scan_step
    world.TmpPath.Scanning.scan_from world.TmpPath.Scanning.scan world.TmpPath.Unmap.overwrite
    world.TmpPath.Unmap.find_canonical world.TmpPath.Unmap.canonical_parts world.TmpPath.Unmap.unmap
    world.TmpPath.Unmap.unmap_in_place world.TmpPath.Unmap.copy_cwd world.TmpPath.Unmap.copy_link
    world.TmpPath.Unmap.before_nul world.TmpPath.Unmap.unix_path world.TmpPath.Unmap.shrunk_sockaddr
    world.TmpPath.Unmap.unmap_sockaddr world.TmpPath.Unmap.requeried_unix
    world.TmpPath.Unmap.skippable
machine = tt

abbrev pub ws : Bytes
ws = codes "/Users/me/ws"

-- The kernel's one answer, where `/Users/me/ws/tmp/out` is a link to `/tmp/a/b`; its state counts the calls.
abbrev pub kernel : ℕ → Bytes → Result Bytes × ℕ
kernel n path = (
  if beq path (codes "/Users/me/ws/tmp/out/..//" ++ 0 ∷ [])
      then ok (codes "/Users/me/ws/tmp/a")
      else err enoent,
  n + 1,
)

maps_below :
    map_with 1024 kernel ws (codes "/tmp/./a") 1024 0
    ≡ some (ok (some (codes "/Users/me/ws/tmp/./a")), 0)
unfolding machine
maps_below = refl

-- The parent of what the link leads to, not the text before it
follows_link :
    map_with 1024 kernel ws (codes "/tmp/out/../../x") 1024 0
    ≡ some (ok (some (codes "/Users/me/ws/tmp/x")), 1)
unfolding machine
follows_link = refl

stores_verbatim : map_target 1024 ws (codes "/tmp/out/../../x") 1024 ≡ some (ok none)
unfolding machine
stores_verbatim = refl

reads_cwd : copy_cwd ws (codes "/Users/me/ws/var/tmp/d") 22 (7 ∷ []) ≡ err Result.erange
unfolding machine
reads_cwd = refl

-- The two roots that lead back into the host's temp directories are accepted.
accepts_private :
    (valid_root (codes "/private") ≡ true) × (valid_root (codes "/private/var") ≡ true)
unfolding machine
accepts_private = (refl, refl)

maps_to_host :
    map_with 1024 kernel (codes "/private") (codes "/tmp/a") 1024 0
    ≡ some (ok (some (codes "/private/tmp/a")), 0)
unfolding machine
maps_to_host = refl

maps_at :
    map_at_with 1024 kernel ws (codes "../tmp/a") 1024 (λ n. (ok (codes "/Users"), n)) 0
    ≡ some (ok (some (codes "/Users/me/ws/tmp/a")), 0)
unfolding machine
maps_at = refl
