-- ===== src/TmpPath/Scanning.antt =====
-- crates/world-tmp-path/src/lib.rs: the scan of `map_with` over the components of a path.
use world.Prelude.{
  ℕ, zero, suc, ◌+◌, ◌-◌, ◌==◌, min, Bool, true, false, ◌||◌, List, [], ◌∷◌, Option, none, some,
  length, is_empty, drop, if◌then◌else◌,
}
use world.Bytes.{Bytes, codes, dot, dotdot, beq, split}
use world.TmpPath.{Base, base_parent, Scan, base, other, temp, tmp, var_tmp}

unfoldable pub any_component : Bytes → List Bytes → Bool
any_component name [] = false
any_component name (c ∷ cs) = beq c name || any_component name cs

unfoldable pub has_tmp_component : Bytes → Bool
unfolding any_component
has_tmp_component path = any_component (codes "tmp") (split b'/' path)

unfoldable pub count_dotdot : List Bytes → ℕ
count_dotdot [] = 0
count_dotdot (c ∷ cs) = (if beq c dotdot then 1 else 0) + count_dotdot cs

unfoldable pub dotdot_count : Bytes → ℕ
unfolding count_dotdot
dotdot_count path = count_dotdot (split b'/' path)

-- The break out of the scan at a `..`: where the prefix to resolve starts, the location below the
-- root if it is in a temp root, and the two ends of the `..`
pub record Escape : Type 0 where
  pub start : ℕ
  pub sub : Option Bytes
  pub comp_start : ℕ
  pub dotdot_end : ℕ

pub data Scanned : Type 0 where
  at_end : Scan → Scanned
  escaped : Escape → Scanned

-- A name below `Scan::Base`, whose component ends at `end`
unfoldable pub enter_name : Base → ℕ → Bytes → Scan
enter_name Base.root end c =
    if beq c (codes "private")
    then base Base.private
    else if beq c (codes "var")
    then base Base.priv_var
    else if beq c (codes "tmp")
    then temp tmp Base.private end 0 false
    else other Base.root 1
enter_name Base.private end c =
    if beq c (codes "var")
    then base Base.priv_var
    else if beq c (codes "tmp")
    then temp tmp Base.private end 0 false
    else other Base.private 1
enter_name Base.priv_var end c =
    if beq c (codes "tmp") then temp var_tmp Base.priv_var end 0 false else other Base.priv_var 1

-- A component that is a name
unfoldable pub push_name : Scan → ℕ → Bytes → Scan
unfolding enter_name
push_name (base b) end c = enter_name b end c
push_name (other b depth) end c = other b (depth + 1)
push_name (temp sub above start depth named) end c = temp sub above start (depth + 1) true

-- A `..`, from `comp_start` to `end`; `tmp_follows` tells whether a `tmp` comes after it.
unfoldable pub pop_name : Scan → (comp_start end : ℕ) → (tmp_follows : Bool) → Scanned
unfolding base_parent
pop_name (base b) comp_start end follows = at_end (base (base_parent b))
pop_name (other b depth) comp_start end true =
    escaped (record { start = 0; sub = none; comp_start = comp_start; dotdot_end = end })
pop_name (other b depth) comp_start end false =
    at_end (if depth == 1 then base b else other b (depth - 1))
pop_name (temp sub above start zero false) comp_start end follows = at_end (base above)
pop_name (temp sub above start zero true) comp_start end follows =
    escaped (record { start = start; sub = some sub; comp_start = comp_start; dotdot_end = end })
pop_name (temp sub above start (suc depth) named) comp_start end follows =
    at_end (temp sub above start depth named)

-- One round of the loop, at the component `c` of `cur` that starts at `pos`
unfoldable pub scan_step : Bytes → ℕ → Scan → Bytes → Scanned
unfolding push_name pop_name has_tmp_component
scan_step cur pos s c =
    if is_empty c
    then at_end s
    else if beq c dot
    then at_end s
    else if beq c dotdot
    then pop_name s pos (pos + length c)
        (has_tmp_component (drop (min (pos + length c + 1) (length cur)) cur))
    else at_end (push_name s (pos + length c) c)

abbrev pub on_scanned : Scanned → (Scan → Scanned) → Scanned
on_scanned (at_end s) f = f s
on_scanned (escaped e) f = escaped e

unfoldable pub scan_from : Bytes → ℕ → Scan → List Bytes → Scanned
unfolding scan_step
scan_from cur pos s [] = at_end s
scan_from cur pos s (c ∷ cs) =
    on_scanned (scan_step cur pos s c) λ s'. scan_from cur (pos + length c + 1) s' cs

unfoldable pub scan : Bytes → Scanned
unfolding scan_from
scan cur = scan_from cur 0 (base Base.root) (split b'/' cur)
