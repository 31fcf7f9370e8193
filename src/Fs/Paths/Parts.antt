-- ===== src/Fs/Paths/Parts.antt =====
-- crates/world-fsmodel/src/lib.rs: what `parent_and_name` splits a path into.
use world.Prelude.{
  ℕ, ◌==◌, ltb, ◌≡◌, ◌≢◌, ◌⊎◌, refl, sym, subst, ap, ◌∙◌, true, false, not, is_empty, length-append,
  append_assoc, [], ◌∷◌, ◌++◌, Option, none, some, length, Option-cases, Bool-cases, inl, inr,
  arith,
}
use world.Bytes.{Bytes, contains, ends_with_slash, dot}
use world.Result.{Result, ok, err, enoent, einval}
use world.Fs.Paths.{
  all_slashes, trim_end, split_last_slash, Split, dir_text, name_in, split_trimmed, parent_and_name,
  is_root_operand,
}

-- What is left and what is cut off of a path at the slashes at its end
record IsTrimmed (path left : Bytes) : Type 0 where
  cut : Bytes
  whole : path ≡ left ++ cut
  slashes : all_slashes cut ≡ true
  ends : ends_with_slash left ≡ false

trim_step :
    (b : ℕ) (bs left : Bytes)
    → IsTrimmed bs left
    → trim_end bs ≡ left
    → IsTrimmed (b ∷ bs) (trim_end (b ∷ bs))
unfolding trim_end all_slashes ends_with_slash
trim_step b bs [] h e = elim (Bool-cases (b == b'/')) [
  | inl s ↦
      rw (e, trim_end)
        (rw s (record {
          cut = b ∷ h.cut;
          whole = ap (λ (x : Bytes). b ∷ x) h.whole;
          slashes = ground (arith, s, h.slashes);
          ends = refl;
        }))
  | inr n ↦
      rw (e, trim_end)
        (rw n (record {
          cut = h.cut;
          whole = ap (λ (x : Bytes). b ∷ x) h.whole;
          slashes = h.slashes;
          ends = n;
        }))
]
trim_step b bs (c ∷ cs) h e =
    rw (e, trim_end)
      (record {
        cut = h.cut;
        whole = ap (λ (x : Bytes). b ∷ x) h.whole;
        slashes = h.slashes;
        ends = h.ends;
      })

trim_end-IsTrimmed : (path : Bytes) → IsTrimmed path (trim_end path)
unfolding trim_end all_slashes ends_with_slash
trim_end-IsTrimmed [] = record { cut = []; whole = refl; slashes = refl; ends = refl }
trim_end-IsTrimmed (b ∷ bs) = trim_step b bs (trim_end bs) (trim_end-IsTrimmed bs) refl

split_last_slash-none : (bs : Bytes) → split_last_slash bs ≡ none → contains b'/' bs ≡ false
unfolding split_last_slash contains
split_last_slash-none [] h = refl
split_last_slash-none (b ∷ bs) h = elim (Option-cases (split_last_slash bs)) [
  | inl e ↦ ground (arith, h, e, split_last_slash-none bs e)
  | inr (x, e) ↦ absurd (ground (arith, h, e))
]

-- The last slash of a text
record IsCut (bs d n : Bytes) : Type 0 where
  whole : bs ≡ d ++ b'/' ∷ n
  plain : contains b'/' n ≡ false

split_last_slash-IsCut : (bs d n : Bytes) → split_last_slash bs ≡ some (d, n) → IsCut bs d n
unfolding split_last_slash
split_last_slash-IsCut [] d n h = cc
split_last_slash-IsCut (b ∷ bs) d n h = elim (Option-cases (split_last_slash bs)) [
  | inl e ↦
      let s : (b ≡ b'/') × (d ≡ []) × (n ≡ bs) = ground (arith, h, e) in
      rw (s.2, s.1, s.0) (record { whole = refl; plain = split_last_slash-none bs e })
  | inr ((d', n'), e) ↦
      let s : (d ≡ b ∷ d') × (n ≡ n') = ground (arith, h, e) in
      let r = split_last_slash-IsCut bs d' n' e in
      rw (s.0, s.1) (record { whole = ap (λ (x : Bytes). b ∷ x) r.whole; plain = r.plain })
]

slash-ends : (d : Bytes) → ends_with_slash (d ++ b'/' ∷ []) ≡ true
unfolding ends_with_slash
slash-ends [] = refl
slash-ends (x ∷ []) = refl
slash-ends (x ∷ y ∷ d) = slash-ends (y ∷ d)

named-after_slash : (bs d n : Bytes) → bs ≡ d ++ b'/' ∷ n → ends_with_slash bs ≡ false → n ≢ []
named-after_slash bs d n e h z =
    let w : bs ≡ d ++ b'/' ∷ [] = e ∙ ap (λ (x : Bytes). d ++ b'/' ∷ x) z in
    absurd (ground (arith, slash-ends d, subst (λ x. ends_with_slash x ≡ false) w h))

ltb-append : (l c : Bytes) → ltb (length l) (length (l ++ c)) ≡ not (is_empty c)
ltb-append l [] = ground (arith, length-append l [])
ltb-append l (x ∷ c) = ground (arith, length-append l (x ∷ c))

-- A path is a directory, a slash, a name and slashes, or a name alone and slashes, where the
-- directory is written `.`. The name is not empty and has no slash.
pub record IsParts (path : Bytes) (s : Split) : Type 0 where
  pub cut : Bytes
  pub slashes : all_slashes cut ≡ true
  pub trailing : s.trailing ≡ not (is_empty cut)
  pub named : s.name ≢ []
  pub plain : contains b'/' s.name ≡ false
  pub whole :
      ((s.dir ≡ dot) × (path ≡ s.name ++ cut))
      ⊎ ((d : Bytes) × (s.dir ≡ dir_text d) × (path ≡ d ++ b'/' ∷ (s.name ++ cut)))

-- The answers of `parent_and_name`
pub data Answers (path : Bytes) : Result Split → Type 0 where
  empty : path ≡ [] → Answers path (err enoent)
  root : is_root_operand path ≡ true → Answers path (err einval)
  parts : (s : Split) → IsParts path s → Answers path (ok s)

trailing-cut :
    {path left : Bytes} (h : IsTrimmed path left)
    → ltb (length left) (length path) ≡ not (is_empty h.cut)
trailing-cut {left = left} h =
    subst (λ x. ltb (length left) (length x) ≡ not (is_empty h.cut)) (sym h.whole)
      (ltb-append left h.cut)

name_in-IsParts :
    (path : Bytes) (b : ℕ) (bs : Bytes) (o : Option (Bytes × Bytes))
    → IsTrimmed path (b ∷ bs)
    → split_last_slash (b ∷ bs) ≡ o
    → IsParts path (name_in (b ∷ bs) o (ltb (length (b ∷ bs)) (length path)))
name_in-IsParts path b bs none h e = record {
  cut = h.cut;
  slashes = h.slashes;
  trailing = trailing-cut h;
  named = λ z. cc;
  plain = split_last_slash-none (b ∷ bs) e;
  whole = inl (refl, h.whole);
}
name_in-IsParts path b bs (some (d, n)) h e =
    let c = split_last_slash-IsCut (b ∷ bs) d n e in
    record {
      cut = h.cut;
      slashes = h.slashes;
      trailing = trailing-cut h;
      named = named-after_slash (b ∷ bs) d n c.whole h.ends;
      plain = c.plain;
      whole = inr (
        d,
        refl,
        h.whole ∙ ap (λ (x : Bytes). x ++ h.cut) c.whole ∙ append_assoc d (b'/' ∷ n) h.cut,
      );
    }

split_trimmed-Answers :
    (c : ℕ) (cs left : Bytes)
    → IsTrimmed (c ∷ cs) left
    → Answers (c ∷ cs) (split_trimmed (c ∷ cs) left)
unfolding is_root_operand
split_trimmed-Answers c cs [] h = root (subst (λ x. all_slashes x ≡ true) (sym h.whole) h.slashes)
split_trimmed-Answers c cs (b ∷ bs) h = parts _ (name_in-IsParts (c ∷ cs) b bs _ h refl)

-- `parent_and_name` answers ENOENT for the empty path, EINVAL for a path of slashes alone, and else
-- the parts of the path: a name, which is not empty and has no slash, the slashes after it, and the
-- text before it, of which `.` stands for none and `/` for the slash of the root.
pub parent_and_name-Answers : (path : Bytes) → Answers path (parent_and_name path)
unfolding parent_and_name
parent_and_name-Answers [] = empty refl
parent_and_name-Answers (b ∷ bs) =
    split_trimmed-Answers b bs (trim_end (b ∷ bs)) (trim_end-IsTrimmed (b ∷ bs))
