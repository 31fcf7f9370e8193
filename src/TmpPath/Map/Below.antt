-- ===== src/TmpPath/Map/Below.antt =====
-- crates/world-tmp-path/src/lib.rs: where the scan of `map_with` stands in the text, and that the rest
-- behind a temp root never climbs above it.
use world.Prelude.{
  ℕ, zero, suc, ◌+◌, ◌-◌, ◌==◌, is_empty, ◌≡◌, refl, ap, sym, ◌∙◌, ◌⊎◌, inl, inr, Bool, true, false,
  ◌||◌, List, [], ◌∷◌, ◌++◌, Option, none, some, length, drop, drop-append_length, if_cases, arith,
  if◌then◌else◌,
}
use world.Prelude.Pigeonhole.{All}
use world.Bytes.{Bytes, beq, dot, dotdot, codes, split, contains, cons_head}
use world.Bytes.Split.{behind, behind-split}
use world.TmpPath.{Base, Scan, base, other, temp, tmp, var_tmp, whole_rest}
use world.TmpPath.Scanning.{
  Scanned, at_end, escaped, on_scanned, scan, scan_from, scan_step, enter_name, push_name, pop_name,
}
use world.Fs.Codec.Words.{split-behind}

-- The depth below a directory after one more component, if that is not above it
abbrev pub depth_after : ℕ → Bytes → Option ℕ
depth_after d c =
    if is_empty c || beq c dot
    then some d
    else if beq c dotdot
    then elim d [ zero ↦ none | suc n ↦ some n ]
    else some (suc d)

abbrev pub if_some : Option ℕ → (ℕ → Bool) → Bool
if_some none f = false
if_some (some n) f = f n

-- A walk down the components, as they are written, from a depth below a directory never leaves it.
unfoldable pub stays_below : ℕ → List Bytes → Bool
stays_below d [] = true
stays_below d (c ∷ cs) = if_some (depth_after d c) λ e. stays_below e cs

module _ (d : ℕ) (c : Bytes) (cs : List Bytes) where
  stays-skip : (is_empty c || beq c dot) ≡ true → stays_below d (c ∷ cs) ≡ stays_below d cs
  unfolding stays_below
  stays-skip h = rw h refl

  stays-pop :
      (is_empty c || beq c dot) ≡ false
      → beq c dotdot ≡ true
      → stays_below (suc d) (c ∷ cs) ≡ stays_below d cs
  unfolding stays_below
  stays-pop h k = rw (h, k) refl

  stays-push :
      (is_empty c || beq c dot) ≡ false
      → beq c dotdot ≡ false
      → stays_below d (c ∷ cs) ≡ stays_below (suc d) cs
  unfolding stays_below
  stays-push h k = rw (h, k) refl

pub stays-end : (d : ℕ) → stays_below d [] ≡ true
unfolding stays_below
stays-end d = refl

abbrev pub NoSlash : Bytes → Type 0
NoSlash c = contains b'/' c ≡ false

-- A temp root is at one of the two locations; behind it stand some components, and the depth is that
-- of the ones before the components still to come.
abbrev pub IsInside : Bytes → Scan → List Bytes → Type 0
IsInside cur (temp sub above start depth named) cs =
    ((sub ≡ tmp) ⊎ (sub ≡ var_tmp))
    × (names : List Bytes) × (drop start cur ≡ behind b'/' names)
    × All NoSlash names
    × (stays_below 0 names ≡ stays_below depth cs)
IsInside cur s cs = Unit {0}

abbrev pub IsFound : Bytes → Scanned → List Bytes → Type 0
IsFound cur (at_end s) cs = IsInside cur s cs
IsFound cur (escaped e) cs = Unit {0}

-- The text from a place on is the components to come.
abbrev IsAt : Bytes → ℕ → List Bytes → Type 0
IsAt cur pos [] = Unit {0}
IsAt cur pos (c ∷ cs) = drop pos cur ≡ c ++ behind b'/' cs

drop-more : (m n : ℕ) (xs : Bytes) → drop (m + n) xs ≡ drop n (drop m xs)
drop-more zero n xs = let e : zero + n ≡ n = omega arith in ap (λ k. drop k xs) e
drop-more (suc m) n [] =
    let e : suc m + n ≡ suc (m + n) = omega arith in
    ap (λ k. drop {A = ℕ} k []) e ∙ sym (drop_nil n)
  where
    drop_nil : (k : ℕ) → drop {A = ℕ} k [] ≡ []
    drop_nil zero = refl
    drop_nil (suc k) = refl
drop-more (suc m) n (x ∷ xs) =
    let e : suc m + n ≡ suc (m + n) = omega arith in ap (λ k. drop k (x ∷ xs)) e ∙ drop-more m n xs

behind_component :
    (cur : Bytes) (pos : ℕ) (c : Bytes) (cs : List Bytes)
    → IsAt cur pos (c ∷ cs)
    → drop (pos + length c) cur ≡ behind b'/' cs
behind_component cur pos c cs h =
    drop-more pos (length c) cur ∙ ap (drop (length c)) h ∙ drop-append_length c (behind b'/' cs)

onward :
    (cur : Bytes) (pos : ℕ) (c : Bytes) (cs : List Bytes)
    → IsAt cur pos (c ∷ cs)
    → IsAt cur (pos + length c + 1) cs
onward cur pos c [] h = tt
onward cur pos c (d ∷ cs) h =
    drop-more (pos + length c) 1 cur ∙ ap (drop 1) (behind_component cur pos c (d ∷ cs) h)

module _ (cur : Bytes) where
  enter_name-IsInside :
      (b : Base) (end : ℕ) (c : Bytes) (cs : List Bytes)
      → drop end cur ≡ behind b'/' cs
      → All NoSlash cs
      → IsInside cur (enter_name b end c) cs
  unfolding enter_name
  enter_name-IsInside Base.root end c cs h n =
      if_cases (λ s. IsInside cur s cs) (beq c (codes "private")) _ _ (λ _. tt)
        λ _.
          if_cases (λ s. IsInside cur s cs) (beq c (codes "var")) _ _ (λ _. tt)
            λ _.
              if_cases (λ s. IsInside cur s cs) (beq c (codes "tmp")) _ _
                (λ _. (inl refl, cs, h, n, refl)) λ _. tt
  enter_name-IsInside Base.private end c cs h n =
      if_cases (λ s. IsInside cur s cs) (beq c (codes "var")) _ _ (λ _. tt)
        λ _.
          if_cases (λ s. IsInside cur s cs) (beq c (codes "tmp")) _ _
            (λ _. (inl refl, cs, h, n, refl)) λ _. tt
  enter_name-IsInside Base.priv_var end c cs h n =
      if_cases (λ s. IsInside cur s cs) (beq c (codes "tmp")) _ _ (λ _. (inr refl, cs, h, n, refl))
        λ _. tt

  skip-IsInside :
      (s : Scan) (c : Bytes) (cs : List Bytes)
      → (is_empty c || beq c dot) ≡ true
      → IsInside cur s (c ∷ cs)
      → IsInside cur s cs
  skip-IsInside (base b) c cs e h = tt
  skip-IsInside (other b depth) c cs e h = tt
  skip-IsInside (temp sub above start depth named) c cs e (l, names, t, n, w) =
      (l, names, t, n, w ∙ stays-skip depth c cs e)

  push_name-IsInside :
      (s : Scan) (end : ℕ) (c : Bytes) (cs : List Bytes)
      → drop end cur ≡ behind b'/' cs
      → All NoSlash cs
      → (is_empty c || beq c dot) ≡ false
      → beq c dotdot ≡ false
      → IsInside cur s (c ∷ cs)
      → IsInside cur (push_name s end c) cs
  unfolding push_name
  push_name-IsInside (base b) end c cs t n e d h = enter_name-IsInside b end c cs t n
  push_name-IsInside (other b depth) end c cs t n e d h = tt
  push_name-IsInside (temp sub above start depth named) end c cs t n e d (l, names, u, m, w) =
      (l, names, u, m, w ∙ stays-push depth c cs e d ∙ ap (λ k. stays_below k cs) (omega arith))

  pop_name-IsFound :
      (s : Scan) (at end : ℕ) (follows : Bool) (c : Bytes) (cs : List Bytes)
      → (is_empty c || beq c dot) ≡ false
      → beq c dotdot ≡ true
      → IsInside cur s (c ∷ cs)
      → IsFound cur (pop_name s at end follows) cs
  unfolding pop_name
  pop_name-IsFound (base b) at end follows c cs e d h = tt
  pop_name-IsFound (other b depth) at end true c cs e d h = tt
  pop_name-IsFound (other b depth) at end false c cs e d h =
      if_cases (λ s. IsInside cur s cs) (depth == 1) (base b) (other b (depth - 1)) (λ _. tt)
        λ _. tt
  pop_name-IsFound (temp sub above start zero false) at end follows c cs e d h = tt
  pop_name-IsFound (temp sub above start zero true) at end follows c cs e d h = tt
  pop_name-IsFound (temp sub above start (suc depth) named) at end follows c cs e d
        (l, names, t, n, w) =
      (l, names, t, n, w ∙ stays-pop depth c cs e d)

  scan_step-IsFound :
      (pos : ℕ) (s : Scan) (c : Bytes) (cs : List Bytes)
      → IsAt cur pos (c ∷ cs)
      → All NoSlash cs
      → IsInside cur s (c ∷ cs)
      → IsFound cur (scan_step cur pos s c) cs
  unfolding scan_step
  scan_step-IsFound pos s c cs a n h =
      if_cases (λ r. IsFound cur r cs) (is_empty c) _ _
        (λ e. skip-IsInside s c cs (first (beq c dot) e) h)
        λ e.
          if_cases (λ r. IsFound cur r cs) (beq c dot) _ _
            (λ k. skip-IsInside s c cs (second (is_empty c) k) h)
            λ k.
              if_cases (λ r. IsFound cur r cs) (beq c dotdot) (pop_name s pos _ _)
                (at_end (push_name s (pos + length c) c))
                (λ d. pop_name-IsFound s pos _ _ c cs (neither (is_empty c) (beq c dot) e k) d h)
                λ d.
                  push_name-IsInside s (pos + length c) c cs (behind_component cur pos c cs a) n
                    (neither (is_empty c) (beq c dot) e k) d h
    where
      first : {x : Bool} (y : Bool) → x ≡ true → (x || y) ≡ true
      first y h = ground (arith, h)

      second : (x : Bool) {y : Bool} → y ≡ true → (x || y) ≡ true
      second x h = ground (arith, h)

      neither : (x y : Bool) → x ≡ false → y ≡ false → (x || y) ≡ false
      neither x y h k = ground (arith, h, k)

  on_scanned-IsFound :
      (r : Scanned) (f : Scan → Scanned) (cs : List Bytes)
      → IsFound cur r cs
      → ((s : Scan) → IsInside cur s cs → IsFound cur (f s) [])
      → IsFound cur (on_scanned r f) []
  on_scanned-IsFound (at_end s) f cs h k = k s h
  on_scanned-IsFound (escaped e) f cs h k = tt

  scan_from-IsFound :
      (pos : ℕ) (s : Scan) (cs : List Bytes)
      → IsAt cur pos cs
      → All NoSlash cs
      → IsInside cur s cs
      → IsFound cur (scan_from cur pos s cs) []
  unfolding scan_from
  scan_from-IsFound pos s [] a n h = h
  scan_from-IsFound pos s (c ∷ cs) a n h =
      on_scanned-IsFound (scan_step cur pos s c) _ cs (scan_step-IsFound pos s c cs a n.1 h)
        λ s' k. scan_from-IsFound (pos + length c + 1) s' cs (onward cur pos c cs a) n.1 k

  split-IsAt : (l : List Bytes) → behind b'/' l ≡ b'/' ∷ cur → IsAt cur 0 l
  split-IsAt [] e = tt
  split-IsAt (c ∷ cs) e = ground (arith, e)

-- The pieces between slashes have none.
split-NoSlash : (bs : Bytes) → All NoSlash (split b'/' bs)
unfolding split contains
split-NoSlash [] = (refl, tt)
split-NoSlash (b ∷ bs) =
    if_cases (All NoSlash) (b == b'/') _ _ (λ _. (refl, split-NoSlash bs))
      λ e. consed (split b'/' bs) e (split-NoSlash bs)
  where
    consed : (l : List Bytes) → (b == b'/') ≡ false → All NoSlash l → All NoSlash (cons_head b l)
    consed [] e h = (rw e refl, tt)
    consed (c ∷ l) e (n, h) = (rw (e, n) refl, h)

pub scan-IsFound : (cur : Bytes) → IsFound cur (scan cur) []
unfolding scan
scan-IsFound cur =
    scan_from-IsFound cur 0 (base Base.root) (split b'/' cur)
      (split-IsAt cur (split b'/' cur) (behind-split b'/' cur)) (split-NoSlash cur) tt

pub behind-whole_rest :
    (names : List Bytes) → whole_rest (behind b'/' names) ≡ some (behind b'/' names)
behind-whole_rest [] = refl
behind-whole_rest (c ∷ cs) = refl

pub behind-stays_below :
    (names : List Bytes)
    → All NoSlash names
    → stays_below 0 names ≡ true
    → stays_below 0 (split b'/' (behind b'/' names)) ≡ true
unfolding stays_below contains
behind-stays_below names n h = ap (stays_below 0) (split-behind b'/' [] names refl n) ∙ h
