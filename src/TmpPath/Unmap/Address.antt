-- ===== src/TmpPath/Unmap/Address.antt =====
-- crates/world-tmp-path/src/lib.rs: what `unmap_sockaddr` leaves in a socket address, and what `unix_path` reads.
use world.Prelude.{
  ℕ, zero, suc, ◌+◌, ◌-◌, ◌%◌, ◌==◌, ◌≤◌, ◌<◌, ltb, leb, ◌≡◌, refl, sym, ap, ◌∙◌, true, false, [],
  ◌∷◌, ◌++◌, some, Option-cases, inl, inr, length, length-append, length-take, length-drop,
  length-replicate, take, drop, replicate, get_or, take-append_length, arith, if◌then◌else◌,
  if_cases,
}
use world.Bytes.{Bytes, contains}
use world.TmpPath.{valid_root}
use world.TmpPath.Unmap.{
  overwrite, canonical_parts, unmap, unmap_in_place, before_nul, unix_path, shrunk_sockaddr,
  unmap_sockaddr, sun_path_offset,
}
use world.TmpPath.Unmap.Names.{unmap-le, unmap_iff}
use world.TmpPath.Unmap.Buffer.{overwrite_zero}
use world.TmpPath.Unmap.Nul.{
  take-before_nul, before_nul-le, contains-before_nul, before_nul-append, before_nul-same,
  contains-unmap,
}
use world.TmpPath.Map.Plain.{HostRoot, reported}

unmap_in_place-name :
    (root buf : Bytes) (len : ℕ) (name : Bytes)
    → unmap root (take len buf) ≡ some name
    → unmap_in_place root buf len ≡ some (name ++ drop (length name) buf, length name)
unfolding unmap_in_place unmap
unmap_in_place-name root buf len name h =
    elim (Option-cases (canonical_parts root (take len buf))) [
      | inl e ↦ absurd (ground (arith, h, e))
      | inr ((c, r), e) ↦
          let same : c ++ r ≡ name = ground (arith, h, e) in
          rw (e, overwrite_zero (c ++ r) buf, sym (length-append c r), same) refl
    ]

pub drop_behind :
    (k : ℕ) (name region : Bytes)
    → length name ≤ k
    → length name ≤ length region
    → drop k (name ++ drop (length name) region) ≡ drop k region
drop_behind k [] region h l = refl
drop_behind zero (x ∷ name) region h l = absurd (omega (arith, h))
drop_behind (suc k) (x ∷ name) [] h l = absurd (omega (arith, l))
drop_behind (suc k) (x ∷ name) (r ∷ region) h l =
    drop_behind k name region (omega (arith, h)) (omega (arith, l))

-- `total`, for a path region of `region` bytes
abbrev pub total_of : ℕ → ℕ → ℕ
total_of region n = sun_path_offset + n + (if ltb n region then 1 else 0)

-- The address with a name for its path: the NULs reach to the end of what was reported, and the rest is kept.
abbrev pub address : Bytes → ℕ → ℕ → Bytes → Bytes
address sa family count name =
    total_of (count - sun_path_offset) (length name) % 256
    ∷ family
    ∷ (name ++ (replicate (count - (sun_path_offset + length name)) 0 ++ drop count sa))

-- The write of a text behind two bytes and a name
overwrite-behind :
    (a b : ℕ) (name xs zeros : Bytes)
    → overwrite (2 + length name) zeros (a ∷ b ∷ (name ++ xs))
      ≡ a ∷ b ∷ (name ++ (zeros ++ drop (length name + length zeros) (name ++ xs)))
unfolding overwrite
overwrite-behind a b name xs zeros =
    let at : 2 + length name ≡ suc (suc (length name)) = omega arith in
    let from : 2 + length name + length zeros ≡ suc (suc (length name + length zeros)) =
      omega arith in
    ap
      (λ k.
        take (2 + length name) (a ∷ b ∷ (name ++ xs)) ++ (zeros ++ drop k (a ∷ b ∷ (name ++ xs))))
      from
    ∙ ap
        (λ k.
          take k (a ∷ b ∷ (name ++ xs))
          ++ (zeros ++ drop (length name + length zeros) (name ++ xs)))
        at
    ∙ ap (λ t. a ∷ b ∷ (t ++ (zeros ++ drop (length name + length zeros) (name ++ xs))))
        (take-append_length name xs)

zeroed-name :
    (a b : ℕ) (region : Bytes) (count : ℕ) (name : Bytes)
    → 2 + length name ≤ count
    → count ≤ 2 + length region
    → overwrite
        (2 + length name)
        (replicate (count - (2 + length name)) 0)
        (a ∷ b ∷ (name ++ drop (length name) region))
      ≡ a ∷ b ∷ (name ++ (replicate (count - (2 + length name)) 0 ++ drop count (a ∷ b ∷ region)))
zeroed-name a b region count name h l =
    let zeros = replicate (count - (2 + length name)) 0 in
    let k = length name + length zeros in
    let whole : suc (suc k) ≡ count =
      omega (arith, h, length-replicate {A = ℕ} (count - (2 + length name)) 0) in
    overwrite-behind a b name (drop (length name) region) zeros
    ∙ ap (λ t. a ∷ b ∷ (name ++ (zeros ++ t)))
        (drop_behind k name region (omega arith) (omega (arith, whole, h, l))
          ∙ ap (λ j. drop j (a ∷ b ∷ region)) whole)

module _ (af_unix : ℕ) where
  shrunk_sockaddr-name :
      (a b : ℕ) (region : Bytes) (count : ℕ) (name : Bytes)
      → sun_path_offset + length name ≤ count
      → count ≤ 2 + length region
      → shrunk_sockaddr af_unix
          (a ∷ b ∷ region)
          count
          (some (name ++ drop (length name) region, length name))
        ≡ some (
          address (a ∷ b ∷ region) b count name,
          total_of (count - sun_path_offset) (length name),
        )
  unfolding shrunk_sockaddr overwrite
  shrunk_sockaddr-name a b region count name h l = rw (zeroed-name a b region count name h l) refl

take-append_one :
    (xs : Bytes) (y : ℕ) (ys : Bytes) → take (length xs + 1) (xs ++ y ∷ ys) ≡ xs ++ y ∷ []
take-append_one [] y ys = refl
take-append_one (x ∷ xs) y ys =
    ap (λ k. take k (x ∷ (xs ++ y ∷ ys))) one_more ∙ ap (λ l. x ∷ l) (take-append_one xs y ys)
  where
    one_more : suc (length xs) + 1 ≡ suc (length xs + 1)
    one_more = omega arith

total-le :
    (count n : ℕ) → sun_path_offset + n ≤ count → total_of (count - sun_path_offset) n ≤ count
total-le count n h =
    if_cases (λ e. sun_path_offset + n + e ≤ count) (ltb n (count - sun_path_offset)) 1 0
      (λ t. ground (arith, t, h)) λ t. omega (arith, h)

length-address :
    (sa : Bytes) (family count : ℕ) (name : Bytes)
    → count ≤ length sa
    → sun_path_offset + length name ≤ count
    → length (address sa family count name) ≡ length sa
length-address sa family count name l h =
    let zeros = count - (sun_path_offset + length name) in
    omega (
      arith,
      l,
      h,
      length-append name (replicate zeros 0 ++ drop count sa),
      length-append (replicate {A = ℕ} zeros 0) (drop count sa),
      length-replicate {A = ℕ} zeros 0,
      length-drop count sa,
    )

reported-pos : (p : HostRoot) → 0 < length (reported p)
reported-pos HostRoot.long_var = omega arith
reported-pos p = omega arith

unmap-pos : (root path name : Bytes) → unmap root path ≡ some name → 0 < length name
unmap-pos root path name e =
    let i = (unmap_iff root path name).0 e in
    omega (arith, ap length i.named, length-append (reported i.at) i.rest, reported-pos i.at)

-- The path that the kernel has reported
abbrev pub path_of : Bytes → ℕ → Bytes
path_of sa count = before_nul (drop sun_path_offset (take count sa))

take-path_of :
    (a b : ℕ) (region : Bytes) (count : ℕ)
    → sun_path_offset < count
    → take (length (path_of (a ∷ b ∷ region) count)) region ≡ path_of (a ∷ b ∷ region) count
take-path_of a b region count h =
    let part : drop sun_path_offset (take count (a ∷ b ∷ region)) ≡ take (count - 2) region =
      ap (λ k. drop sun_path_offset (take k (a ∷ b ∷ region))) (split_count h) in
    rw part (take-before_nul (count - 2) region)
  where
    split_count : 2 < count → count ≡ suc (suc (count - 2))
    split_count h = omega (arith, h)

module _ (af_unix : ℕ) where
  unmap_sockaddr-shrunk :
      (root : Bytes) (a b : ℕ) (region : Bytes) (count : ℕ) (name : Bytes)
      → sun_path_offset < count
      → count ≤ length (a ∷ b ∷ region)
      → b ≡ af_unix
      → length name ≤ length (path_of (a ∷ b ∷ region) count)
      → unmap root (path_of (a ∷ b ∷ region) count) ≡ some name
      → unmap_sockaddr af_unix root (a ∷ b ∷ region) count
        ≡ some (
          address (a ∷ b ∷ region) af_unix count name,
          total_of (count - sun_path_offset) (length name),
        )
  unfolding unmap_sockaddr
  unmap_sockaddr-shrunk root a b region count name h l f le e =
      let len = length (path_of (a ∷ b ∷ region) count) in
      let small : leb count 2 ≡ false = ground (arith, h) in
      let long : ltb (length (a ∷ b ∷ region)) count ≡ false = ground (arith, l) in
      let family : (b == af_unix) ≡ true = ground (arith, f) in
      let short : len + 2 ≤ count = omega (
        arith,
        before_nul-le (drop 2 (take count (a ∷ b ∷ region))),
        length-drop 2 (take count (a ∷ b ∷ region)),
        length-take count (a ∷ b ∷ region),
        h,
        l,
      ) in
      let asked : unmap root (take len region) ≡ some name =
        ap (unmap root) (take-path_of a b region count h) ∙ e in
      (rw (small, long, family, unmap_in_place-name root region len name asked)
        (shrunk_sockaddr-name af_unix a b region count name (omega (arith, short, le))
          (omega (arith, l))))
      ∙ ap
          (λ y. some (
            address (a ∷ b ∷ region) y count name,
            total_of (count - sun_path_offset) (length name),
          ))
          f

  unix_path-cons :
      (x : ℕ) (l : Bytes) (total k : ℕ)
      → total ≡ suc (suc k)
      → 0 < length (take k l)
      → unix_path af_unix (take total (x ∷ af_unix ∷ l)) ≡ some (before_nul (take k l))
  unfolding unix_path
  unix_path-cons x l total k e h =
      let long : leb (suc (suc (length (take k l)))) sun_path_offset ≡ false = ground (arith, h) in
      let family : (af_unix == af_unix) ≡ true = ground arith in rw (e, long, family) refl

  unix_path-address :
      (sa : Bytes) (count : ℕ) (name : Bytes)
      → sun_path_offset + length name ≤ count
      → 0 < length name
      → contains 0 name ≡ false
      → unix_path af_unix
          (take (total_of (count - sun_path_offset) (length name)) (address sa af_unix count name))
        ≡ some name
  unix_path-address sa count name h pos nul =
      let n = length name in
      let rest = drop count sa in
      let tail = replicate (count - (sun_path_offset + n)) 0 ++ rest in
      let extra : ℕ = if ltb n (count - sun_path_offset) then 1 else 0 in
      let read : before_nul (take (n + extra) (name ++ tail)) ≡ name =
        if_cases (λ e. before_nul (take (n + e) (name ++ tail)) ≡ name)
          (ltb n (count - sun_path_offset)) 1 0
          (λ t.
            let more : count - (sun_path_offset + n) ≡ suc (count - (3 + n)) = ground (arith, t) in
            ap (λ k. before_nul (take (n + 1) (name ++ (replicate k 0 ++ rest)))) more
            ∙ ap before_nul (take-append_one name 0 (replicate (count - (3 + n)) 0 ++ rest))
            ∙ before_nul-append name [] nul)
          λ t.
            let same : n + 0 ≡ n = omega arith in
            ap (λ k. before_nul (take k (name ++ tail))) same
            ∙ ap before_nul (take-append_length name tail)
            ∙ before_nul-same name nul in
      let some_byte : 0 < length (take (n + extra) (name ++ tail)) =
        omega (arith, length-take (n + extra) (name ++ tail), length-append name tail, pos) in
      unix_path-cons _ (name ++ tail) (total_of (count - sun_path_offset) n) (n + extra)
        (omega arith) some_byte
      ∙ ap some read

  -- An address of the platform's family that names a place below the root's temp directories is rewritten
  -- to the host name: the address keeps its size, what is reported of it is no longer than before, what
  -- the code reads back from it is the host name, and a NUL follows wherever there is room.
  pub unmap_sockaddr-name :
      (root sa : Bytes) (count : ℕ) (name : Bytes)
      → valid_root root ≡ true
      → sun_path_offset < count
      → count ≤ length sa
      → get_or sa 1 0 ≡ af_unix
      → unmap root (path_of sa count) ≡ some name
      → (sa' : Bytes) × (total : ℕ) × (unmap_sockaddr af_unix root sa count ≡ some (sa', total))
        × (sa' ≡ address sa af_unix count name)
        × (total ≡ total_of (count - sun_path_offset) (length name))
        × (total ≤ count)
        × (length sa' ≡ length sa)
        × (unix_path af_unix (take total sa') ≡ some name)
  unmap_sockaddr-name root [] count name v h l f e = absurd (omega (arith, h, l))
  unmap_sockaddr-name root (a ∷ []) count name v h l f e = absurd (omega (arith, h, l))
  unmap_sockaddr-name root (a ∷ b ∷ region) count name v h l f e =
      let path = path_of (a ∷ b ∷ region) count in
      let le = unmap-le root path name v e in
      let short : length name + 2 ≤ count = omega (
        arith,
        le,
        before_nul-le (drop 2 (take count (a ∷ b ∷ region))),
        length-drop 2 (take count (a ∷ b ∷ region)),
        length-take count (a ∷ b ∷ region),
        h,
        l,
      ) in
      let pos = unmap-pos root path name e in
      (
        address (a ∷ b ∷ region) af_unix count name,
        total_of (count - sun_path_offset) (length name),
        unmap_sockaddr-shrunk root a b region count name h l f le e,
        refl,
        refl,
        total-le count (length name) (omega (arith, short)),
        length-address (a ∷ b ∷ region) af_unix count name l (omega (arith, short)),
        unix_path-address (a ∷ b ∷ region) count name (omega (arith, short)) pos
            (contains-unmap root path name (contains-before_nul _) e),
      )
