-- ===== src/Utils/Arrays.antt =====
-- packages/utils/src/arrays.ts over arrays of numbers, where `===` is equality.
mod Tests
use cosmjs.Prelude.{
  ℕ, zero, suc, ◌+◌, ◌≡◌, refl, ◌↔◌, inl, inr, Bool, true, false, ◌&&◌, List, [], ◌∷◌, ◌++◌, arith,
  ltb, ◌==◌, if◌then◌else◌, not, length, length-append, ap, Bool-cases, ==_iff,
}

-- `for (i …) if (a[i] !== b[i]) return false`: the rounds that `b` allows. The source has made
-- sure that `a` is at least as long, so its elements are always there.
unfoldable pub starts_equal : List ℕ → List ℕ → Bool
starts_equal xs [] = true
starts_equal [] (b ∷ bs) = false
starts_equal (x ∷ xs) (b ∷ bs) = x == b && starts_equal xs bs

unfoldable pub array_content_equals : List ℕ → List ℕ → Bool
unfolding starts_equal
array_content_equals xs bs = if not (length xs == length bs) then false else starts_equal xs bs

unfoldable pub array_content_starts_with : List ℕ → List ℕ → Bool
unfolding starts_equal
array_content_starts_with xs bs = if ltb (length xs) (length bs) then false else starts_equal xs bs

starts_equal-append : (bs rest : List ℕ) → starts_equal (bs ++ rest) bs ≡ true
unfolding starts_equal
starts_equal-append [] rest = refl
starts_equal-append (b ∷ bs) rest = ground (arith, starts_equal-append bs rest)

starts_equal_split :
    (xs bs : List ℕ) → starts_equal xs bs ≡ true → (rest : List ℕ) × (xs ≡ bs ++ rest)
unfolding starts_equal
starts_equal_split xs [] h = (xs, refl)
starts_equal_split [] (b ∷ bs) h = cc
starts_equal_split (x ∷ xs) (b ∷ bs) h =
    let (rest, e) = starts_equal_split xs bs (ground arith) in (rest, ground arith)

-- `arrayContentStartsWith(a, b)` returns true exactly if `a` is `b` followed by something.
pub array_content_starts_with_iff :
    (xs bs : List ℕ)
    → (array_content_starts_with xs bs ≡ true) ↔ ((rest : List ℕ) × (xs ≡ bs ++ rest))
unfolding array_content_starts_with
array_content_starts_with_iff xs bs = (to, from)
  where
    to : array_content_starts_with xs bs ≡ true → (rest : List ℕ) × (xs ≡ bs ++ rest)
    to h = starts_equal_split xs bs (ground arith)

    from : (rest : List ℕ) × (xs ≡ bs ++ rest) → array_content_starts_with xs bs ≡ true
    from (rest, e) = rw e (ground (arith, starts_equal-append bs rest, length-append bs rest))

starts_equal_same : (xs bs : List ℕ) → length xs ≡ length bs → starts_equal xs bs ≡ true → xs ≡ bs
unfolding starts_equal
starts_equal_same [] [] e h = refl
starts_equal_same (x ∷ xs) [] e h = absurd (omega arith)
starts_equal_same [] (b ∷ bs) e h = cc
starts_equal_same (x ∷ xs) (b ∷ bs) e h = ground (arith, starts_equal_same xs bs (omega arith))

starts_equal_refl : (xs : List ℕ) → starts_equal xs xs ≡ true
unfolding starts_equal
starts_equal_refl [] = refl
starts_equal_refl (x ∷ xs) = ground (arith, starts_equal_refl xs)

-- `arrayContentEquals(a, b)` returns true exactly if the arrays have the same elements in order.
pub array_content_equals_iff : (xs bs : List ℕ) → (array_content_equals xs bs ≡ true) ↔ (xs ≡ bs)
unfolding array_content_equals
array_content_equals_iff xs bs = (to, from)
  where
    to : array_content_equals xs bs ≡ true → xs ≡ bs
    to h = starts_equal_same xs bs (ground arith) (ground arith)

    from : xs ≡ bs → array_content_equals xs bs ≡ true
    from e = rw e (ground (arith, starts_equal_refl bs))

pub starts_with_same : (bs rest : List ℕ) → array_content_starts_with (bs ++ rest) bs ≡ true
starts_with_same bs rest = (array_content_starts_with_iff (bs ++ rest) bs).1 (rest, refl)

pub starts_with_mismatch :
    (xs bs : List ℕ) → starts_equal xs bs ≡ false → array_content_starts_with xs bs ≡ false
unfolding array_content_starts_with
starts_with_mismatch xs bs h = ground arith
