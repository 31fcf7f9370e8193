-- ===== src/Proxy/Witnesses.antt =====
-- The theorems about the proxy at concrete inputs.
use world.Prelude.{◌≡◌, refl, not, false, [], ◌∷◌, is_empty, arith}
use mathlib.Core.List.{List}
use mathlib.Core.List.Memᴰ
use world.Prelude.Pigeonhole.{All}
use world.Bytes.{Bytes, codes}
use world.Policy.{accepted, v4, canonical_host, validate}
use world.Policy.Tests.{no_v6, no_text}
use world.Proxy.Public.{public_ip}
use world.Proxy.Ranges.{special_address, public_ip-v4}
use world.Proxy.Prepare.{Address, made, prepare, addresses_of}
use world.Proxy.Forward.{trim_brackets, authorization, supplied, handle}
use world.Proxy.Reach.{IsAllowed, handle-IsAllowed}
use world.Proxy.Delivery.{IsAnswered, handle-tunnel}
use world.Proxy.Tests.{
  machine, Fields, fields, doubled, one_name, small_net, api, two_hosts, two_routes, api_target,
  connect_api,
}

public_ip-v4_example : public_ip (v4 172 32 0 1) ≡ not (special_address 172 32 0)
public_ip-v4_example = public_ip-v4 172 32 0 1 (omega arith, omega arith, omega arith, omega arith)

abbrev hop_fields : Fields
hop_fields =
    (codes "Connection", codes "close, X-Hop")
    ∷ (codes "x-hop", codes "1")
    ∷ (codes "accept", codes "2")
    ∷ []

prepared : prepare no_v6 no_text one_name (10 ∷ 255 ∷ []) two_hosts ≡ made two_routes
unfolding machine
prepared = refl

known : supplied connect_api ≡ authorization doubled two_routes.credential
unfolding machine
known = refl

same_host :
    canonical_host no_v6 no_text (trim_brackets api_target.host)
    ≡ canonical_host no_v6 no_text api.host
unfolding machine
same_host = refl

handle-IsAllowed_example :
    (validate no_v6 no_text two_hosts ≡ accepted tt)
    × All
        (λ a.
          (supplied connect_api ≡ authorization doubled two_routes.credential)
          × IsAllowed small_net two_hosts connect_api a)
        (handle small_net two_routes connect_api).attempts
handle-IsAllowed_example =
    handle-IsAllowed small_net (10 ∷ 255 ∷ []) two_hosts two_routes connect_api prepared

handle-tunnel_example :
    (host : Bytes) × (found : List Address) × (canonical_host no_v6 no_text api.host
      ≡ accepted host)
    × (addresses_of no_v6 no_text one_name host api.port ≡ made found)
    × (is_empty found ≡ false)
    × IsAnswered small_net found (handle small_net two_routes connect_api)
handle-tunnel_example =
    handle-tunnel small_net (10 ∷ 255 ∷ []) two_hosts two_routes api connect_api api_target prepared
      (Memᴰ.head refl) known refl refl same_host refl
