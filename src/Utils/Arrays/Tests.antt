-- ===== src/Utils/Arrays/Tests.antt =====
-- The array comparisons at concrete arrays.
use cosmjs.Prelude.{ℕ, ◌≡◌, refl, ◌↔◌, ◌∷◌, [], ◌++◌, List, true, false}
use cosmjs.Utils.Arrays.{
  array_content_equals, array_content_starts_with, array_content_equals_iff,
  array_content_starts_with_iff,
}

prefix_too_long : array_content_starts_with (1 ∷ []) (1 ∷ 2 ∷ []) ≡ false
unfolding array_content_starts_with
prefix_too_long = refl

array_content_equals_iff_example :
    (array_content_equals (1 ∷ 2 ∷ []) (1 ∷ 3 ∷ []) ≡ true)
    ↔ (◌≡◌ {A = List ℕ} (1 ∷ 2 ∷ []) (1 ∷ 3 ∷ []))
array_content_equals_iff_example = array_content_equals_iff (1 ∷ 2 ∷ []) (1 ∷ 3 ∷ [])

array_content_starts_with_iff_example :
    (array_content_starts_with (1 ∷ 2 ∷ []) (1 ∷ []) ≡ true)
    ↔ ((rest : List ℕ) × (1 ∷ 2 ∷ [] ≡ (1 ∷ []) ++ rest))
array_content_starts_with_iff_example = array_content_starts_with_iff (1 ∷ 2 ∷ []) (1 ∷ [])
