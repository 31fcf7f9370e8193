-- ===== src/TmpPath/Witnesses.antt =====
-- The theorems about the mapping at concrete inputs.
use world.Prelude.{
  drop, ◌≢◌, ap, get_or, ℕ, ◌≡◌, ◌↔◌, ◌≤◌, refl, true, [], ◌∷◌, ◌++◌, Option, none, some, length,
  take, arith,
}
use world.Bytes.{Bytes, codes}
use world.Result.{Result, ok}
use world.TmpPath.{valid_root}
use world.TmpPath.Scanning.{dotdot_count}
use world.TmpPath.Unmap.{unmap, copy_cwd, copy_link, unmap_sockaddr, unix_path, requeried_unix}
use world.TmpPath.Unmap.Names.{IsPlace, unmap_iff, unmap-le}
use world.TmpPath.Unmap.Buffer.{host_of, cwd_copy, link_copy, copy_cwd_equation, copy_link_equation}
use world.TmpPath.Unmap.Requery.{requeried_unix-within}
use world.TmpPath.Unmap.Address.{unmap_sockaddr-name, address, path_of, total_of}
use world.TmpPath.Map.{map_with, map_target}
use world.TmpPath.Map.Total.{IsMapped, map_with-IsMapped}
use world.TmpPath.Map.Plain.{HostRoot}
use world.TmpPath.Map.Again.{map_with-again}
use world.TmpPath.MapAt.{map_at_with}
use world.TmpPath.RoundTrip.{unmap-map_with, map_target-map_with, Fits, map_at_with-Fits}
use world.TmpPath.Tests.{machine, ws, kernel}

ws_valid : valid_root ws ≡ true
unfolding machine
ws_valid = refl

not_private : ws ≢ codes "/private"
not_private e = omega (arith, ap (λ (l : Bytes). get_or l 1 0) e)

not_private_var : ws ≢ codes "/private/var"
not_private_var e = omega (arith, ap (λ (l : Bytes). get_or l 1 0) e)

plain : dotdot_count (codes "/a") ≡ 0
unfolding machine
plain = refl

map_with-IsMapped_example :
    (r : Result (Option Bytes)) × (n : ℕ) × (map_with 1024 kernel ws
        (codes "/tmp/out/../../x")
        1024
        0
      ≡ some (r, n))
    × IsMapped ws 1024 r
map_with-IsMapped_example = map_with-IsMapped 1024 kernel ws (codes "/tmp/out/../../x") 1024 0

map_with-again_example :
    map_with 1024 kernel ws (codes "/Users/me/ws/var/tmp/a") 1024 0 ≡ some (ok none, 0)
map_with-again_example =
    map_with-again 1024 kernel ws HostRoot.short_var (codes "/a") 1024 0 ws_valid not_private
      not_private_var refl plain

unmap-map_with_example :
    (name : Bytes) × (map_with 1024 kernel ws (codes "/tmp/a") 1024 0 ≡ some (ok (some name), 0))
    × (unmap ws name ≡ some (codes "/private/tmp/a"))
    × (map_with 1024 kernel ws (codes "/private/tmp/a") 1024 0 ≡ some (ok (some name), 0))
unmap-map_with_example =
    unmap-map_with 1024 kernel ws HostRoot.short_tmp (codes "/a") 1024 0 refl plain (omega arith)
      (omega arith) (omega arith)

unmap_iff_example :
    (unmap ws (codes "/Users/me/ws/tmp/a") ≡ some (codes "/private/tmp/a"))
    ↔ IsPlace ws (codes "/Users/me/ws/tmp/a") (codes "/private/tmp/a")
unmap_iff_example = unmap_iff ws (codes "/Users/me/ws/tmp/a") (codes "/private/tmp/a")

unmapped : unmap ws (codes "/Users/me/ws/tmp/a") ≡ some (codes "/private/tmp/a")
unfolding machine
unmapped = refl

unmap-le_example : length (codes "/private/tmp/a") ≤ length (codes "/Users/me/ws/tmp/a")
unmap-le_example =
    unmap-le ws (codes "/Users/me/ws/tmp/a") (codes "/private/tmp/a") ws_valid unmapped

abbrev local : Bytes
local = codes "/Users/me/ws/tmp/a"

copy_cwd_equation_example :
    copy_cwd ws local 18 (codes "xxxxxxxxxxxxxxxx")
    ≡ cwd_copy (host_of ws local) (codes "xxxxxxxxxxxxxxxx")
copy_cwd_equation_example =
    copy_cwd_equation ws local 18 (codes "xxxxxxxxxxxxxxxx") ws_valid (omega arith)

copy_link_equation_example :
    copy_link ws local 18 (codes "xxx") ≡ link_copy (host_of ws local) (codes "xxx")
copy_link_equation_example = copy_link_equation ws local 18 (codes "xxx") ws_valid (omega arith)

abbrev socket : Bytes
socket = 21 ∷ 1 ∷ (local ++ 0 ∷ [])

socket_place : unmap ws (path_of socket 21) ≡ some (codes "/private/tmp/a")
unfolding machine
socket_place = refl

unmap_sockaddr-name_example :
    (sa' : Bytes) × (total : ℕ) × (unmap_sockaddr 1 ws socket 21 ≡ some (sa', total))
    × (sa' ≡ address socket 1 21 (codes "/private/tmp/a"))
    × (total ≡ total_of 19 14)
    × (total ≤ 21)
    × (length sa' ≡ length socket)
    × (unix_path 1 (take total sa') ≡ some (codes "/private/tmp/a"))
unmap_sockaddr-name_example =
    unmap_sockaddr-name 1 ws socket 21 (codes "/private/tmp/a") ws_valid (omega arith) (omega arith)
      refl socket_place

stored :
    map_target 1024 ws (codes "/var/tmp/a") 1024 ≡ some (ok (some (codes "/Users/me/ws/var/tmp/a")))
unfolding machine
stored = refl

map_target-map_with_example :
    map_with 1024 kernel ws (codes "/var/tmp/a") 1024 0
    ≡ some (ok (some (codes "/Users/me/ws/var/tmp/a")), 0)
map_target-map_with_example =
    map_target-map_with 1024 kernel ws (codes "/var/tmp/a") 1024 0 (codes "/Users/me/ws/var/tmp/a")
      stored

map_at_with-Fits_example :
    (r : Result (Option Bytes)) × (n : ℕ) × (map_at_with 1024 kernel ws
        (codes "../tmp/a")
        1024
        (λ k. (ok (codes "/Users"), k))
        0
      ≡ some (r, n))
    × Fits 1024 r
map_at_with-Fits_example =
    map_at_with-Fits 1024 kernel ws (codes "../tmp/a") 1024 (λ k. (ok (codes "/Users"), k)) 0

requeried : requeried_unix 1 ws socket 21 4 (codes "xxxxxx") ≡ some (17 ∷ 1 ∷ codes "/pxx", 17)
unfolding machine
requeried = refl

requeried_unix-within_example :
    ((made : Bytes) × (unmap_sockaddr 1 ws socket 21 ≡ some (made, 17)))
    × (length (17 ∷ 1 ∷ codes "/pxx") ≡ length (codes "xxxxxx"))
    × (drop 4 (17 ∷ 1 ∷ codes "/pxx") ≡ drop 4 (codes "xxxxxx"))
requeried_unix-within_example =
    requeried_unix-within 1 ws socket 21 4 (codes "xxxxxx") (17 ∷ 1 ∷ codes "/pxx") 17 requeried
