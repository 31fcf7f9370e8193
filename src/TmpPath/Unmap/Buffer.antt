-- ===== src/TmpPath/Unmap/Buffer.antt =====
-- crates/world-tmp-path/src/lib.rs: what `unmap_in_place`, `copy_cwd` and `copy_link` leave in a buffer.
use world.Prelude.{
  ℕ, ◌+◌, ◌≤◌, ltb, min, ◌≡◌, refl, ap, ◌∙◌, true, [], ◌∷◌, ◌++◌, Option-cases, inl, inr, length,
  length-append, length-take, length-drop, take, drop, take-append_length, take-take, drop-min,
  append_assoc, arith, if◌then◌else◌,
}
use world.Bytes.{Bytes}
use world.Result.{Result, ok, err, erange}
use world.TmpPath.{valid_root}
use world.TmpPath.Map.{or_resolved}
use world.TmpPath.Unmap.{
  overwrite, canonical_parts, joined_parts, unmap, unmap_in_place, unmapped_or, copy_cwd, copy_link,
}
use world.TmpPath.Unmap.Names.{unmap-le}

pub overwrite_zero : (src buf : Bytes) → overwrite 0 src buf ≡ src ++ drop (length src) buf
unfolding overwrite
overwrite_zero src buf = ap (λ n. src ++ drop n buf) (omega arith)

-- The name that a caller is given for a path
abbrev pub host_of : Bytes → Bytes → Bytes
host_of root path = or_resolved path (unmap root path)

-- A buffer of the same length that starts with the name
pub record Holds (buf name : Bytes) (b : Bytes × ℕ) : Type 0 where
  pub kept : length b.0 ≡ length buf
  pub counted : b.1 ≡ length name
  pub named : take b.1 b.0 ≡ name
  pub fits : length name ≤ length buf

start-Holds :
    (buf name : Bytes) (m n : ℕ)
    → m ≡ length name
    → n ≡ length name
    → length name ≤ length buf
    → Holds buf name (name ++ drop m buf, n)
start-Holds buf name m n e f h = record {
  kept = omega (arith, length-append name (drop m buf), length-drop m buf, e);
  counted = f;
  named = ap (λ k. take k (name ++ drop m buf)) f ∙ take-append_length name (drop m buf);
  fits = h;
}

unmapped-Holds :
    (root buf : Bytes) (len : ℕ)
    → valid_root root ≡ true
    → len ≤ length buf
    → Holds buf (host_of root (take len buf)) (unmapped_or buf len (unmap_in_place root buf len))
unfolding unmap_in_place unmap overwrite
unmapped-Holds root buf len v h = elim (Option-cases (canonical_parts root (take len buf))) [
  | inl e ↦ rw e (record {
    kept = refl;
    counted = omega (arith, length-take len buf);
    named = refl;
    fits = omega (arith, length-take len buf);
  })
  | inr ((c, r), e) ↦
      let le = unmap-le root (take len buf) (c ++ r) v (ap joined_parts e) in
      rw e (
        start-Holds buf (c ++ r) (0 + length (c ++ r)) (length c + length r) (omega arith)
          (omega (arith, length-append c r)) (omega (arith, le, length-take len buf)))
]

-- One copy of a name and its NUL, where they fit
abbrev pub cwd_copy : Bytes → Bytes → Result (Bytes × ℕ)
cwd_copy name dst =
    if ltb (length dst) (length name + 1)
    then err erange
    else ok (name ++ 0 ∷ drop (length name + 1) dst, length name)

written_cwd : Bytes → Bytes × ℕ → Result (Bytes × ℕ)
unfolding overwrite
written_cwd dst (buf, n) =
    if ltb (length dst) (n + 1) then err erange else ok (overwrite 0 (take n buf ++ 0 ∷ []) dst, n)

with_nul :
    (name dst : Bytes) → overwrite 0 (name ++ 0 ∷ []) dst ≡ name ++ 0 ∷ drop (length name + 1) dst
with_nul name dst =
    overwrite_zero (name ++ 0 ∷ []) dst
    ∙ append_assoc name (0 ∷ []) (drop (length (name ++ 0 ∷ [])) dst)
    ∙ ap (λ n. name ++ 0 ∷ drop n dst) (omega (arith, length-append name (0 ∷ [])))

written_cwd-Holds :
    (buf name dst : Bytes) (b : Bytes × ℕ)
    → Holds buf name b
    → written_cwd dst b ≡ cwd_copy name dst
unfolding written_cwd
written_cwd-Holds buf name dst (b, n) h = rw (h.named, h.counted, with_nul name dst) refl

-- With a valid root `copy_cwd` behaves as one copy of the name that the caller is given: ERANGE when the
-- name and its NUL do not fit, and else the buffer starts with both and keeps the rest.
pub copy_cwd_equation :
    (root local : Bytes) (len : ℕ) (dst : Bytes)
    → valid_root root ≡ true
    → len ≤ length local
    → copy_cwd root local len dst ≡ cwd_copy (host_of root (take len local)) dst
unfolding copy_cwd written_cwd
copy_cwd_equation root local len dst v h =
    written_cwd-Holds local (host_of root (take len local)) dst
      (unmapped_or local len (unmap_in_place root local len)) (unmapped-Holds root local len v h)

-- One copy of a name, cut where the buffer ends
abbrev pub link_copy : Bytes → Bytes → Bytes × ℕ
link_copy name dst =
    (take (length dst) name ++ drop (length name) dst, min (length name) (length dst))

written_link : Bytes → Bytes × ℕ → Bytes × ℕ
unfolding overwrite
written_link dst (buf, n) = (overwrite 0 (take (min n (length dst)) buf) dst, min n (length dst))

written_link-Holds :
    (buf name dst : Bytes) (b : Bytes × ℕ)
    → Holds buf name b
    → written_link dst b ≡ link_copy name dst
unfolding written_link overwrite
written_link-Holds buf name dst (b, n) h =
    let cut : take (min n (length dst)) b ≡ take (length dst) name =
      take-take (length dst) n b ∙ ap (take (length dst)) h.named in
    let count : min n (length dst) ≡ min (length name) (length dst) = omega (arith, h.counted) in
    let kept : drop (min n (length dst)) dst ≡ drop (length name) dst =
      drop-min n dst ∙ ap (λ k. drop k dst) h.counted in
    let copied : 0 + length (take (min n (length dst)) b) ≡ min n (length dst) =
      omega (arith, length-take (min n (length dst)) b, h.fits, h.kept, h.counted) in
    rw (copied, cut, kept, count) refl

-- With a valid root `copy_link` behaves as one copy of the name that the caller is given, cut where the
-- buffer ends; the rest of the buffer is kept, and the count is that of the bytes copied.
pub copy_link_equation :
    (root local : Bytes) (len : ℕ) (dst : Bytes)
    → valid_root root ≡ true
    → len ≤ length local
    → copy_link root local len dst ≡ link_copy (host_of root (take len local)) dst
unfolding copy_link written_link
copy_link_equation root local len dst v h =
    written_link-Holds local (host_of root (take len local)) dst
      (unmapped_or local len (unmap_in_place root local len)) (unmapped-Holds root local len v h)
