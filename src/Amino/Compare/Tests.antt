-- ===== src/Amino/Compare/Tests.antt =====
-- The order of byte arrays at concrete bytes.
use cosmjs.Prelude.{◌≡◌, ◌↔◌, [], ◌∷◌, arith, Bytes}
use Prim.Native.Nat.{Ordering}
use cosmjs.Amino.Compare.{compare_arrays, compare_arrays_iff}

abbrev first : Bytes
first = 1 ∷ 200 ∷ []

abbrev second : Bytes
second = 1 ∷ 201 ∷ []

compare_arrays_iff_example : (compare_arrays first second ≡ Ordering.eq) ↔ (first ≡ second)
compare_arrays_iff_example = compare_arrays_iff first second (omega arith) (omega arith)
