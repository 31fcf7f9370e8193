-- ===== src/TmpPath/Unmap/Requery.antt =====
-- crates/world-tmp-path/src/lib.rs: what `requeried_unix` writes into the caller's buffer.
use world.Prelude.{
  ℕ, ◌≤◌, min, ◌≡◌, ap, ◌∙◌, Option, none, some, Option-cases, inl, inr, length, take, drop,
  length-append, length-take, length-drop, arith, subst,
}
use world.Bytes.{Bytes}
use world.TmpPath.Unmap.{overwrite, unmap_sockaddr, requeried_unix}
use world.TmpPath.Unmap.Buffer.{overwrite_zero}
use world.TmpPath.Unmap.Address.{drop_behind}

overwrite-within :
    (src dst : Bytes) (room : ℕ)
    → length src ≤ room
    → length src ≤ length dst
    → (length (overwrite 0 src dst) ≡ length dst)
      × (drop room (overwrite 0 src dst) ≡ drop room dst)
overwrite-within src dst room h l = (
  ap length (overwrite_zero src dst)
      ∙ omega (arith, l, length-append src (drop (length src) dst), length-drop (length src) dst),
  ap (drop room) (overwrite_zero src dst) ∙ drop_behind room src dst h l,
)

module _ (af_unix : ℕ) where
  -- `requeried_unix` gives the length of the whole address that `unmap_sockaddr` makes, also where the
  -- caller's buffer has less room; the buffer keeps its size and all that is behind the room.
  pub requeried_unix-within :
      (root storage : Bytes) (count room : ℕ) (dst out : Bytes) (total : ℕ)
      → requeried_unix af_unix root storage count room dst ≡ some (out, total)
      → ((made : Bytes) × (unmap_sockaddr af_unix root storage count ≡ some (made, total)))
        × (length out ≡ length dst)
        × (drop room out ≡ drop room dst)
  unfolding requeried_unix
  requeried_unix-within root storage count room dst out total h =
      elim (Option-cases (unmap_sockaddr af_unix root storage count)) [
        | inl e ↦ absurd (none_ne (rw e at h))
        | inr ((made, t), e) ↦
            let n = min (min (min room t) (length made)) (length dst) in
            let (same, whole) = parts (overwrite 0 (take n made) dst) t (rw e at h) in
            let (a, b) =
              overwrite-within (take n made) dst room (omega (arith, length-take n made))
                (omega (arith, length-take n made)) in
            (
              (made, e ∙ ap (λ k. some (made, k)) whole),
              subst (λ x. length x ≡ length dst) same a,
              subst (λ x. drop room x ≡ drop room dst) same b,
            )
      ]
    where
      none_ne : ◌≡◌ {A = Option (Bytes × ℕ)} none (some (out, total)) → ⊥
      none_ne h = ground (arith, h)

      parts :
          (x : Bytes) (t : ℕ)
          → ◌≡◌ {A = Option (Bytes × ℕ)} (some (x, t)) (some (out, total))
          → (x ≡ out) × (t ≡ total)
      parts x t h = ground (arith, h)
