-- ===== src/Registry/Witnesses.antt =====
-- The theorems about the registry at concrete inputs.
use native.Mathlib.Nat.{mod-lt}
use world.Prelude.{
  leb, zero, suc, ◌+◌, ◌<◌, ◌==◌, ◌/◌, ◌%◌, ltb, ap, ◌∙◌, Bool, ◌&&◌, not, is_empty, if_cases,
  length-append, ℕ, ◌≤◌, ◌≡◌, ◌⊎◌, refl, true, false, [], ◌∷◌, ◌++◌, none, some, length, arith,
}
use world.Bytes.{Bytes, codes, beq, split, contains, dot, dotdot, ends_with_slash}
use world.Result.{ok}
use world.Fs.Codec.Number.{display, digits}
use world.Fs.Codec.Digits.{contains-display, contains-append}
use world.Fs.Codec.Words.{split-word}
use world.Policy.{show_v4}
use world.TmpPath.{valid_root, max_root_len, all_plain, tail}
use world.TmpPath.Scanning.{dotdot_count}
use world.TmpPath.Map.{map_with}
use world.TmpPath.Map.Plain.{HostRoot}
use world.TmpPath.Tests.{kernel}
use world.Registry.Types.{Ipv4Addr, Store, done, failed, pool_exhausted}
use world.Registry.Paths.{Host, macos, ip_name, root_for, is_usable_root}
use world.Registry.Roots.{ip_at, allocate}
use world.Registry.Create.{owned_temp_root}
use world.Registry.Steps.{create, perform, Disk, Run}
use world.Registry.Worlds.{IsRegistry}
use world.Registry.Invariant.{perform-IsRegistry}
use world.Registry.Exclusive.{owned_temp_root-exclusive}
use world.Registry.Free.{IsReady, IsTaken, allocate-IsSearched}
use world.Registry.Redirect.{length-ip_name, allocate-map_with}
use world.Registry.Tests.{
  machine, host, host_two, empty_store, ip_one, world_one, owner_one, store_one, other_registry,
}

empty_store-IsRegistry : IsRegistry empty_store
unfolding machine
empty_store-IsRegistry = record { named = λ id w g. cc; apart = λ id other w v g h s. cc }

perform-IsRegistry_example :
    IsRegistry (perform host (create (codes "one") (codes "/work/a")) empty_store)
perform-IsRegistry_example =
    perform-IsRegistry host (create (codes "one") (codes "/work/a")) empty_store
      empty_store-IsRegistry

-- The disk after another registry has made a workspace
abbrev later_disk : Disk
later_disk = (perform host_two (create (codes "two") (codes "/work/b")) other_registry).disk

abbrev later_store : Store
later_store = record store_one { disk = later_disk }

first_owned :
    owned_temp_root host world_one store_one
    ≡ (done (world_one, codes "/home/u/.world/tmp/127.77.0.1"), store_one)
unfolding machine
first_owned = refl

again_owned :
    owned_temp_root host world_one later_store
    ≡ (done (world_one, codes "/home/u/.world/tmp/127.77.0.1"), later_store)
unfolding machine
again_owned = refl

owned_temp_root-exclusive_example :
    (world_one.id ≡ world_one.id) × (store_one.id_file ≡ later_store.id_file)
owned_temp_root-exclusive_example =
    owned_temp_root-exclusive host host world_one world_one
      (world_one, codes "/home/u/.world/tmp/127.77.0.1")
      (world_one, codes "/home/u/.world/tmp/127.77.0.1") store_one store_one later_store later_store
      first_owned
      (Run.step host_two (create (codes "two") (codes "/work/b")) other_registry refl Run.here)
      again_owned refl

abbrev mac : Host
mac = record host { target = macos }

abbrev mac_root : Bytes
mac_root = codes "/home/u/.world/tmp/127.77.0.1"

mac_allocates :
    allocate mac [] (codes "/home/u") owner_one empty_store
    ≡ (done (ip_one, mac_root), record empty_store { disk = (mac_root, some owner_one) ∷ [] })
unfolding machine
mac_allocates = refl

plain : dotdot_count (codes "/a") ≡ 0
unfolding machine
plain = refl

allocate-map_with_example :
    (valid_root mac_root ≡ true)
    × (map_with 1024 kernel mac_root (codes "/home/u/.world/tmp/127.77.0.1/var/tmp/a") 1024 0
        ≡ some (ok none, 0))
allocate-map_with_example =
    allocate-map_with 1024 kernel mac [] (codes "/home/u") owner_one (ip_one, mac_root) empty_store
      (record empty_store { disk = (mac_root, some owner_one) ∷ [] }) HostRoot.short_var
      (codes "/a") 1024 0 refl mac_allocates refl plain

ip_name-without :
    (k : ℕ) (ip : Ipv4Addr) → k < b'0' → (b'.' == k) ≡ false → contains k (ip_name ip) ≡ false
unfolding ip_name show_v4 contains
ip_name-without k ip h d = apart (display 10 ip.first) _ (shown ip.first) (
    apart (display 10 ip.second) _ (shown ip.second)
      (apart (display 10 ip.third) _ (shown ip.third) (shown ip.fourth)))
  where
    shown : (n : ℕ) → contains k (display 10 n) ≡ false
    shown n = contains-display k 10 n h

    apart :
        (xs ys : Bytes)
        → contains k xs ≡ false
        → contains k ys ≡ false
        → contains k (xs ++ b'.' ∷ ys) ≡ false
    apart xs ys p q = contains-append k xs (b'.' ∷ ys) p (rw (d, q) refl)

one_digit : (fuel n : ℕ) → n < 10 → length (digits fuel 10 n) ≤ 1
unfolding digits
one_digit zero n h = omega arith
one_digit (suc fuel) n h =
    if_cases (λ (x : Bytes). length x ≤ 1) (ltb n 10) _ _ (λ _. omega arith)
      λ e. absurd (ground (arith, e, h))

two_digits : (fuel n : ℕ) → n < 100 → length (digits fuel 10 n) ≤ 2
unfolding digits
two_digits zero n h = omega arith
two_digits (suc fuel) n h =
    if_cases (λ (x : Bytes). length x ≤ 2) (ltb n 10) _ _ (λ _. omega arith)
      λ _. omega (
        arith,
        length-append (digits fuel 10 (n / 10)) ((b'0' + n % 10) ∷ []),
        one_digit fuel (n / 10) (omega (arith, h)),
      )

three_digits : (fuel n : ℕ) → n < 1000 → length (digits fuel 10 n) ≤ 3
unfolding digits
three_digits zero n h = omega arith
three_digits (suc fuel) n h =
    if_cases (λ (x : Bytes). length x ≤ 3) (ltb n 10) _ _ (λ _. omega arith)
      λ _. omega (
        arith,
        length-append (digits fuel 10 (n / 10)) ((b'0' + n % 10) ∷ []),
        two_digits fuel (n / 10) (omega (arith, h)),
      )

octet_digits : (n : ℕ) → length (display 10 (n % 256)) ≤ 3
unfolding display
octet_digits n =
    let small : n % 256 < 256 = mod-lt n (omega arith) in
    three_digits (suc (n % 256)) (n % 256) (omega (arith, small))

-- The octets of an address that the loop tries have at most three digits.
length-ip_at : (n : ℕ) → length (ip_name (ip_at n)) ≤ 14
unfolding ip_name show_v4 ip_at machine
length-ip_at n = omega (
  arith,
  length-append (display 10 (n / 256 % 256)) (b'.' ∷ display 10 (n % 256)),
  octet_digits (n / 256),
  octet_digits n,
)

-- What `valid_root` asks of the last name
long_name :
    (c : Bytes) → 3 ≤ length c → (is_empty c ≡ false) × (beq c dot ≡ false) × (beq c dotdot ≡ false)
unfolding beq
long_name [] h = absurd (omega (arith, h))
long_name (a ∷ []) h = absurd (omega (arith, h))
long_name (a ∷ b ∷ []) h = absurd (omega (arith, h))
long_name (a ∷ b ∷ c ∷ cs) h = (refl, ground arith, ground arith)

no_slash_end : (c : Bytes) → contains b'/' c ≡ false → ends_with_slash c ≡ false
unfolding contains ends_with_slash
no_slash_end [] h = refl
no_slash_end (a ∷ []) h = ground (arith, h)
no_slash_end (a ∷ b ∷ c) h = no_slash_end (b ∷ c) (ground (arith, h))

slash_before : (c : Bytes) → is_empty c ≡ false → ends_with_slash (b'/' ∷ c) ≡ ends_with_slash c
unfolding ends_with_slash
slash_before [] h = cc
slash_before (a ∷ c) h = refl

all_hold :
    (x a b c d e f g : Bool)
    → x ≡ false
    → a ≡ true
    → b ≡ true
    → c ≡ true
    → d ≡ false
    → e ≡ false
    → f ≡ true
    → g ≡ true
    → (not x && (a && b && c && not d && not e && f && g)) ≡ true
all_hold x a b c d e f g hx ha hb hc hd he hf hg = rw (hx, ha, hb, hc, hd, he, hf, hg) refl

below : Bytes → Bytes
below name = codes "/home/u/.world/tmp/" ++ name

named_usable :
    (name : Bytes)
    → contains b'/' name ≡ false
    → contains 0 name ≡ false
    → 3 ≤ length name
    → length name ≤ 14
    → is_usable_root mac (below name) ≡ true
unfolding machine below
named_usable name slash nul long short =
    let (filled, single, double) = long_name name long in
    all_hold _ (leb 8 (length (below name))) (leb (length (below name)) max_root_len) _ _ _
      (all_plain (split b'/' (tail (below name)))) _ (ground (arith, short)) (ground (arith, long))
      (ground (arith, short)) refl (slash_before name filled ∙ no_slash_end name slash) nul
      (rw (split-word b'/' name slash, filled, single, double) refl) refl

below_home : (ip : Ipv4Addr) → root_for (codes "/home/u") ip ≡ below (ip_name ip)
unfolding machine below
below_home ip = refl

mac_usable : (n : ℕ) → is_usable_root mac (root_for (codes "/home/u") (ip_at n)) ≡ true
mac_usable n =
    ap (is_usable_root mac) (below_home (ip_at n))
    ∙ named_usable (ip_name (ip_at n)) (ip_name-without b'/' (ip_at n) (omega arith) refl)
        (ip_name-without 0 (ip_at n) (omega arith) refl) (length-ip_name (ip_at n)) (length-ip_at n)

home_ready : IsReady mac (codes "/home/u")
home_ready = record { builds = λ n. refl; marks = λ n. refl; usable = mac_usable }

allocate-IsSearched_example :
    ((place : Ipv4Addr × Bytes) × (t : Store) × (allocate mac []
          (codes "/home/u")
          owner_one
          store_one
        ≡ (done place, t)))
    ⊎ ((allocate mac [] (codes "/home/u") owner_one store_one ≡ (failed pool_exhausted, store_one))
        × ((k : ℕ) → 1 ≤ k → k ≤ 65534 → IsTaken mac (codes "/home/u") [] owner_one store_one k))
allocate-IsSearched_example =
    allocate-IsSearched mac (codes "/home/u") home_ready [] owner_one store_one
