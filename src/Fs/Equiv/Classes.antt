-- ===== src/Fs/Equiv/Classes.antt =====
-- crates/world-fsmodel/src/lib.rs: the classes of `errno_equiv`.
use mathlib.Core.Bool.{decide}
use world.Prelude.{
  some, ◌∙◌, ◌≡◌, ◌⊎◌, ◌↔◌, refl, ap, sym, Bool, true, false, ◌&&◌, ◌||◌, not, arith, if◌then◌else◌,
  Bool-cases, inl, inr,
}
use world.Result.{Code, same_code, Code-discrete, enotempty, eexist, eisdir, eperm}
use world.Fs.Types.{Op}
use world.Fs.Equiv.{pair, removes_dir, unlinks, errno_equiv}

decide_iff : {A : Type 0} {a b : A} (d : Dec (a ≡ b)) → (decide d ≡ true) ↔ (a ≡ b)
unfolding decide
decide_iff (yes p) = (λ h. p, λ h. refl)
decide_iff (no n) = (λ h. cc, λ h. absurd (n h))

same_code_iff : (a b : Code) → (same_code a b ≡ true) ↔ (a ≡ b)
unfolding same_code
same_code_iff a b = decide_iff (Code-discrete a b)

or_cases : (p q r : Bool) → (p || (q || r)) ≡ true → (p ≡ true) ⊎ (q ≡ true) ⊎ (r ≡ true)
or_cases true q r h = inl refl
or_cases false true r h = inr (inl refl)
or_cases false false r h = inr (inr h)

both_true : (p q : Bool) → (p && q) ≡ true → (p ≡ true) × (q ≡ true)
both_true true q h = (refl, h)
both_true false q h = cc

or_first : (p q : Bool) → p ≡ true → (p || q) ≡ true
or_first p q h = rw h refl

or_middle : (p q r s t : Bool) → q ≡ true → r ≡ true → (p || (q && r || s && t)) ≡ true
or_middle p q r s t h k = ground (arith, h, k)

or_last : (p q r s t : Bool) → s ≡ true → t ≡ true → (p || (q && r || s && t)) ≡ true
or_last p q r s t h k = ground (arith, h, k)

-- `x` stands for `y` too.
unfoldable unify : Code → Code → Code → Code
unify x y e = if same_code e y then x else e

unify-yes : (x y e : Code) → same_code e y ≡ true → unify x y e ≡ x
unfolding unify
unify-yes x y e h = rw (h, unify) refl

unify-no : (x y e : Code) → same_code e y ≡ false → unify x y e ≡ e
unfolding unify
unify-no x y e h = rw (h, unify) refl

-- The representative of `x` is `x`, whether or not it is `y`.
unify-first : (x y e : Code) → e ≡ x → unify x y e ≡ x
unify-first x y e h = elim (Bool-cases (same_code e y)) [
  | inl p ↦ unify-yes x y e p
  | inr n ↦ unify-no x y e n ∙ h
]

pair_or :
    (x y a b : Code)
    → (same_code a b || pair a b x y) ≡ true
    → (same_code a b ≡ true)
      ⊎ ((same_code a x && same_code b y) ≡ true)
      ⊎ ((same_code a y && same_code b x) ≡ true)
unfolding pair
pair_or x y a b h =
    or_cases (same_code a b) (same_code a x && same_code b y) (same_code a y && same_code b x) h

unify-pair : (x y a b : Code) → (same_code a b || pair a b x y) ≡ true → unify x y a ≡ unify x y b
unify-pair x y a b h = elim (pair_or x y a b h) [
  | inl e ↦ ap (unify x y) ((same_code_iff a b).0 e)
  | inr (inl e) ↦
      let (p, q) = both_true (same_code a x) (same_code b y) e in
      unify-first x y a ((same_code_iff a x).0 p) ∙ sym (unify-yes x y b q)
  | inr (inr e) ↦
      let (p, q) = both_true (same_code a y) (same_code b x) e in
      unify-yes x y a p ∙ sym (unify-first x y b ((same_code_iff b x).0 q))
]

-- The right side of the class test, from which of the two errnos is `y`
pair-unify : (x y a b : Code) → unify x y a ≡ unify x y b → (same_code a b || pair a b x y) ≡ true
unfolding pair
pair-unify x y a b h = elim (Bool-cases (same_code a y)) [
  | inl p ↦ elim (Bool-cases (same_code b y)) [
    | inl q ↦
        or_first (same_code a b) (pair a b x y)
          ((same_code_iff a b).1 ((same_code_iff a y).0 p ∙ sym ((same_code_iff b y).0 q)))
    | inr q ↦
        or_last (same_code a b) (same_code a x) (same_code b y) (same_code a y) (same_code b x) p
          ((same_code_iff b x).1 (sym (unify-no x y b q) ∙ sym h ∙ unify-yes x y a p))
  ]
  | inr p ↦ elim (Bool-cases (same_code b y)) [
    | inl q ↦
        or_middle (same_code a b) (same_code a x) (same_code b y) (same_code a y) (same_code b x)
          ((same_code_iff a x).1 (sym (unify-no x y a p) ∙ h ∙ unify-yes x y b q)) q
    | inr q ↦
        or_first (same_code a b) (pair a b x y)
          ((same_code_iff a b).1 (sym (unify-no x y a p) ∙ h ∙ unify-no x y b q))
  ]
]

unlinks-removes_dir : (op : Op) → removes_dir op ≡ true → unlinks op ≡ false
unfolding removes_dir unlinks
unlinks-removes_dir (Op.unlink_at dirfd path rmdir) h = ground (arith, h)
unlinks-removes_dir (Op.rmdir path) h = refl
unlinks-removes_dir (Op.rename from to) h = refl
unlinks-removes_dir (Op.unlink path) h = cc
unlinks-removes_dir _ h = refl

-- The errno that stands for the class of an errno: ENOTEMPTY for EEXIST where a directory is removed
-- or replaced, and EISDIR for EPERM where macOS unlinks.
unfoldable pub standard : Bool → Op → Code → Code
unfolding unify
standard linux op e =
    if removes_dir op
    then unify (some enotempty) (some eexist) e
    else if not linux && unlinks op
    then unify (some eisdir) (some eperm) e
    else e

module _ (linux : Bool) (op : Op) (a b : Code) where
  equiv-removes :
      removes_dir op ≡ true
      → errno_equiv linux op a b ≡ (same_code a b || pair a b (some enotempty) (some eexist))
  unfolding errno_equiv
  equiv-removes h = ground (arith, h, unlinks-removes_dir op h)

  equiv-unlinks :
      removes_dir op ≡ false
      → (not linux && unlinks op) ≡ true
      → errno_equiv linux op a b ≡ (same_code a b || pair a b (some eisdir) (some eperm))
  unfolding errno_equiv
  equiv-unlinks h k = ground (arith, h, k)

  equiv-same :
      removes_dir op ≡ false
      → (not linux && unlinks op) ≡ false
      → errno_equiv linux op a b ≡ same_code a b
  unfolding errno_equiv
  equiv-same h k = ground (arith, h, k)

  -- Two errnos are equivalent for an operation exactly when the same errno stands for both: so
  -- `errno_equiv` is an equivalence relation on errnos.
  pub errno_equiv_iff :
      (errno_equiv linux op a b ≡ true) ↔ (standard linux op a ≡ standard linux op b)
  unfolding standard
  errno_equiv_iff = elim (Bool-cases (removes_dir op)) [
    | inl r ↦
        rw (equiv-removes r, r)
          (
            unify-pair (some enotempty) (some eexist) a b,
            pair-unify (some enotempty) (some eexist) a b,
          )
    | inr r ↦ elim (Bool-cases (not linux && unlinks op)) [
      | inl u ↦
          rw (equiv-unlinks r u, r, u)
            (unify-pair (some eisdir) (some eperm) a b, pair-unify (some eisdir) (some eperm) a b)
      | inr u ↦ rw (equiv-same r u, r, u) (same_code_iff a b)
    ]
  ]
