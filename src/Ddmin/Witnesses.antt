-- ===== src/Ddmin/Witnesses.antt =====
-- The theorem about the search at concrete lines.
use world.Prelude.{ℕ, ◌≡◌, true, List, some, arith}
use world.Bytes.{contains}
use world.Ddmin.{shrink}
use world.Ddmin.Sub.{Sub}
use world.Ddmin.Shrink.{shrink-Sub}
use world.Ddmin.Tests.{needs_two, six}

has_three : (n : ℕ) (lines : List ℕ) → (needs_two n lines).0 ≡ true → contains 3 lines ≡ true
has_three n lines h = ground (arith, h)

shrink-Sub_example :
    (r : List ℕ) × (n : ℕ) × (shrink needs_two six 0 ≡ some (r, n))
    × Sub r six
    × (contains 3 six ≡ true → contains 3 r ≡ true)
shrink-Sub_example = shrink-Sub needs_two (λ lines. contains 3 lines ≡ true) has_three six 0
