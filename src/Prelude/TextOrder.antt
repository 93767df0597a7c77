-- ===== src/Prelude/TextOrder.antt =====
-- `<` on JavaScript strings.

use mathlib.Core.Path.{◌≡◌, refl}
use mathlib.Core.Bool.{Bool, true, false, ◌&&◌, ◌||◌}
use mathlib.Core.List.{[], ◌∷◌}
use native.Mathlib.Omega.{arith}
use cosmjs.Prelude.Tests.{ltb, ◌==◌}
use cosmjs.Prelude.Texts.{Text, text_eq}

-- The order of the first code units that differ; a beginning comes first.
unfoldable pub text_less : Text → Text → Bool
text_less s [] = false
text_less [] (d ∷ t) = true
text_less (c ∷ s) (d ∷ t) = ltb c d || (c == d && text_less s t)

pub text_less_irrefl : (s : Text) → text_less s s ≡ true → ⊥
unfolding text_less
text_less_irrefl [] h = cc
text_less_irrefl (c ∷ s) h = ground (arith, text_less_irrefl s)

pub text_less_trans :
    (s t u : Text) → text_less s t ≡ true → text_less t u ≡ true → text_less s u ≡ true
unfolding text_less
text_less_trans s [] u h k = cc
text_less_trans s (d ∷ t) [] h k = cc
text_less_trans [] (d ∷ t) (e ∷ u) h k = refl
text_less_trans (c ∷ s) (d ∷ t) (e ∷ u) h k = ground (arith, text_less_trans s t u)

-- Of two texts that differ, one is less.
pub text_less_total :
    (s t : Text) → text_eq s t ≡ false → text_less s t ≡ false → text_less t s ≡ true
unfolding text_less
text_less_total [] [] h k = cc
text_less_total [] (d ∷ t) h k = cc
text_less_total (c ∷ s) [] h k = refl
text_less_total (c ∷ s) (d ∷ t) h k = ground (arith, text_less_total s t)
