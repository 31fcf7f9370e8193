-- ===== src/TmpPath/Map/Root.antt =====
-- crates/world-tmp-path/src/lib.rs: the scan of `map_with` over a root that `valid_root` accepts.
use world.Prelude.{
  ℕ, ◌+◌, ◌≤◌, ◌≡◌, ◌≢◌, refl, ap, subst, ◌∙◌, Bool, true, false, ◌&&◌, List, [], ◌∷◌, ◌++◌, Option,
  some, length, is_empty, Bool-cases, inl, inr, arith,
}
use world.Bytes.{Bytes, beq, beq_iff, dot, dotdot, codes}
use world.Bytes.Split.{behind}
use world.TmpPath.{
  Base, Scan, base, whole_rest, is_none, all_plain, outside, host_roots, component_rest,
}
use world.TmpPath.Scanning.{at_end, scan_from, enter_name, push_name, count_dotdot}
use world.TmpPath.Map.Plain.{
  HostRoot, host_name, scan_step_name, scan_from_plain, is_other, is_other-push_name,
}
use world.TmpPath.Unmap.Names.{component_rest-append}

-- The scan ends outside every directory that leads to a temp root.
abbrev pub EndsOther : Bytes → ℕ → Scan → List Bytes → Type 0
EndsOther cur pos s cs = (s' : Scan) × (scan_from cur pos s cs ≡ at_end s') × (is_other s' ≡ true)

count_dotdot-append : (l m : List Bytes) → count_dotdot (l ++ m) ≡ count_dotdot l + count_dotdot m
unfolding count_dotdot
count_dotdot-append [] m = omega arith
count_dotdot-append (c ∷ l) m = omega (arith, count_dotdot-append l m)

-- A component that is a name
record IsName (c : Bytes) : Type 0 where
  filled : is_empty c ≡ false
  no_dot : beq c dot ≡ false
  no_dotdot : beq c dotdot ≡ false

all_plain-cons :
    (c : Bytes) (l : List Bytes) → all_plain (c ∷ l) ≡ true → IsName c × (all_plain l ≡ true)
unfolding all_plain
all_plain-cons c l h = (
  record { filled = ground (arith, h); no_dot = ground (arith, h); no_dotdot = ground (arith, h) },
  ground (arith, h),
)

all_plain-count : (l : List Bytes) → all_plain l ≡ true → count_dotdot l ≡ 0
unfolding count_dotdot
all_plain-count [] h = refl
all_plain-count (c ∷ l) h =
    let (n, k) = all_plain-cons c l h in rw (n.no_dotdot) (omega (arith, all_plain-count l k))

module _ (cur : Bytes) (cs : List Bytes) (none_up : count_dotdot cs ≡ 0) where
  scan_name :
      (pos : ℕ) (s : Scan) (c : Bytes) (l : List Bytes)
      → IsName c
      → EndsOther cur (pos + length c + 1) (push_name s (pos + length c) c) l
      → EndsOther cur pos s (c ∷ l)
  unfolding scan_from
  scan_name pos s c l n (s', e, o) =
      (s', rw (scan_step_name cur pos s c n.no_dotdot, n.filled, n.no_dot, scan_from) e, o)

  scan_others :
      (pos : ℕ) (s : Scan) (l : List Bytes)
      → is_other s ≡ true
      → all_plain l ≡ true
      → EndsOther cur pos s (l ++ cs)
  scan_others pos s l o h =
      scan_from_plain (λ t. is_other t ≡ true) is_other-push_name cur pos s (l ++ cs)
        (count_dotdot-append l cs ∙ omega (arith, all_plain-count l h, none_up)) o

behind-whole : (l : List Bytes) → whole_rest (behind b'/' l) ≡ some (behind b'/' l)
behind-whole [] = refl
behind-whole (c ∷ l) = refl

both : (a b : Bool) → (a && b) ≡ true → (a ≡ true) × (b ≡ true)
both a b h = ground (arith, h)

outside-cons :
    (x : Bytes × Bytes) (more : List (Bytes × Bytes)) (root : Bytes)
    → outside (x ∷ more) root ≡ true
    → (is_none (component_rest root x.0) ≡ true) × (outside more root ≡ true)
unfolding outside
outside-cons (host, sub) more root h =
    both (is_none (component_rest root host)) (outside more root) h

outside-host :
    (p : HostRoot) (root : Bytes)
    → outside host_roots root ≡ true
    → is_none (component_rest root (host_name p)) ≡ true
outside-host HostRoot.long_var root h = (outside-cons _ _ _ h).0
outside-host HostRoot.long_tmp root h = (outside-cons _ _ _ (outside-cons _ _ _ h).1).0
outside-host HostRoot.short_var root h =
    (outside-cons _ _ _ (outside-cons _ _ _ (outside-cons _ _ _ h).1).1).0
outside-host HostRoot.short_tmp root h =
    (outside-cons _ _ _ (outside-cons _ _ _ (outside-cons _ _ _ (outside-cons _ _ _ h).1).1).1).0

not_below :
    (p : HostRoot) (l : List Bytes) → outside host_roots (host_name p ++ behind b'/' l) ≢ true
not_below p l h =
    absurd_some (component_rest-append (host_name p) (behind b'/' l) (behind-whole l))
      (outside-host p (host_name p ++ behind b'/' l) h)
  where
    absurd_some : {x : Option Bytes} {y : Bytes} → x ≡ some y → is_none x ≢ true
    absurd_some e h = ground (arith, e, h)

-- The components of a root that `valid_root` accepts, apart from the two aliases
pub record IsRoot (l : List Bytes) : Type 0 where
  pub plain : all_plain l ≡ true
  pub apart : outside host_roots (behind b'/' l) ≡ true
  pub long : 8 ≤ length (behind b'/' l)
  pub not_private : behind b'/' l ≢ codes "/private"
  pub not_private_var : behind b'/' l ≢ codes "/private/var"

module _ (cur : Bytes) (cs : List Bytes) (none_up : count_dotdot cs ≡ 0) where
  below_priv_var :
      (pos : ℕ) (c : Bytes) (l : List Bytes)
      → all_plain (c ∷ l) ≡ true
      → beq c (codes "tmp") ≡ false
      → EndsOther cur pos (base Base.priv_var) (c ∷ l ++ cs)
  unfolding push_name enter_name
  below_priv_var pos c l h e =
      let (n, k) = all_plain-cons c l h in
      scan_name cur cs none_up pos _ c (l ++ cs) n (rw e (scan_others cur cs none_up _ _ l refl k))

  below_private :
      (pos : ℕ) (c : Bytes) (l : List Bytes)
      → all_plain (c ∷ l) ≡ true
      → beq c (codes "tmp") ≡ false
      → ((d : Bytes) (l' : List Bytes) → c ≡ codes "var" → l ≡ d ∷ l' → beq d (codes "tmp") ≡ false)
      → (c ≡ codes "var" → l ≢ [])
      → EndsOther cur pos (base Base.private) (c ∷ l ++ cs)
  unfolding push_name enter_name
  below_private pos c l h e no_tmp more =
      let (n, k) = all_plain-cons c l h in
      scan_name cur cs none_up pos _ c (l ++ cs) n (elim (Bool-cases (beq c (codes "var"))) [
        | inl v ↦
            let var = (beq_iff c _).0 v in
            rw v (below_var _ l k (more var) λ d l' s. no_tmp d l' var s)
        | inr v ↦ rw (v, e) (scan_others cur cs none_up _ _ l refl k)
      ])
    where
      below_var :
          (at : ℕ) (l : List Bytes)
          → all_plain l ≡ true
          → l ≢ []
          → ((d : Bytes) (l' : List Bytes) → l ≡ d ∷ l' → beq d (codes "tmp") ≡ false)
          → EndsOther cur at (base Base.priv_var) (l ++ cs)
      below_var at [] k m f = absurd (m refl)
      below_var at (d ∷ l') k m f = below_priv_var _ d l' k (f d l' refl)

  pub below_root :
      (pos : ℕ) (l : List Bytes) → IsRoot l → EndsOther cur pos (base Base.root) (l ++ cs)
  unfolding push_name enter_name
  below_root pos [] i = absurd (omega (arith, i.long))
  below_root pos (c ∷ l) i =
      let (n, k) = all_plain-cons c l i.plain in
      scan_name cur cs none_up pos _ c (l ++ cs) n (elim (Bool-cases (beq c (codes "private"))) [
        | inl p ↦ rw p (from_private _ c l i k ((beq_iff c _).0 p))
        | inr p ↦ elim (Bool-cases (beq c (codes "var"))) [
          | inl v ↦ rw (p, v) (from_var _ c l i k ((beq_iff c _).0 v))
          | inr v ↦ rw (p, v, from_root c l i) (scan_others cur cs none_up _ _ l refl k)
        ]
      ])
    where
      refuted : (d : Bytes) → d ≢ codes "tmp" → beq d (codes "tmp") ≡ false
      refuted d f = elim (Bool-cases (beq d (codes "tmp"))) [
        | inl t ↦ absurd (f ((beq_iff d _).0 t))
        | inr t ↦ t
      ]

      apart_from :
          (p : HostRoot) {m : List Bytes} (l : List Bytes)
          → IsRoot m
          → behind b'/' m ≢ host_name p ++ behind b'/' l
      apart_from p l i e = not_below p l (subst (λ x. outside host_roots x ≡ true) e i.apart)

      from_root : (c : Bytes) (l : List Bytes) → IsRoot (c ∷ l) → beq c (codes "tmp") ≡ false
      from_root c l i =
          refuted c λ t. apart_from HostRoot.short_tmp l i (ap (λ x. behind b'/' (x ∷ l)) t)

      after :
          {c c' : Bytes} (d : Bytes) (l : List Bytes)
          → c ≡ c'
          → d ≡ codes "tmp"
          → behind b'/' (c ∷ d ∷ l) ≡ behind b'/' (c' ∷ codes "tmp" ∷ l)
      after {c} {c'} d l e f =
          ap (λ x. behind b'/' (x ∷ d ∷ l)) e ∙ ap (λ x. behind b'/' (c' ∷ x ∷ l)) f

      from_var :
          (at : ℕ) (c : Bytes) (l : List Bytes)
          → IsRoot (c ∷ l)
          → all_plain l ≡ true
          → c ≡ codes "var"
          → EndsOther cur at (base Base.priv_var) (l ++ cs)
      from_var at c [] i k v =
          absurd (omega (arith, i.long, ap (λ x. length (behind b'/' (x ∷ []))) v))
      from_var at c (d ∷ l) i k v =
          below_priv_var at d l k (refuted d λ t. apart_from HostRoot.short_var l i (after d l v t))

      from_private :
          (at : ℕ) (c : Bytes) (l : List Bytes)
          → IsRoot (c ∷ l)
          → all_plain l ≡ true
          → c ≡ codes "private"
          → EndsOther cur at (base Base.private) (l ++ cs)
      from_private at c [] i k p = absurd (i.not_private (ap (λ x. behind b'/' (x ∷ [])) p))
      from_private at c (d ∷ l) i k p =
          below_private at d l k (refuted d λ t. apart_from HostRoot.long_tmp l i (after d l p t))
            (λ e l' v s. refuted e λ t. apart_from HostRoot.long_var l' i (
              ap (λ x. behind b'/' (x ∷ d ∷ l)) p
              ∙ ap (λ x. behind b'/' (codes "private" ∷ d ∷ x)) s
              ∙ ap (λ x. b'/' ∷ (codes "private" ++ x)) (after e l' v t)))
            λ v s. i.not_private_var (
              ap (λ x. behind b'/' (x ∷ d ∷ l)) p
              ∙ ap (λ x. behind b'/' (codes "private" ∷ d ∷ x)) s
              ∙ ap (λ x. behind b'/' (codes "private" ∷ x ∷ [])) v)
