-- ===== src/Amino/Multisig/Sorting.antt =====
-- Insertion in an order: what is sorted, and that neighbours in the input may change places.
use cosmjs.Prelude.{◌≡◌, refl, ap, inl, inr, Bool, true, false, List, [], ◌∷◌, ◌++◌, Bool-cases}
use cosmjs.Amino.Multisig.{insert, sort}

module _ {ℓ} {A : Type ℓ} (le : A → A → Bool) where
  -- Two elements, the first strictly in front of the second.
  module _ (x y : A) (front : le x y ≡ true) (behind : le y x ≡ false)
      (trans : (z : A) → le y z ≡ true → le x z ≡ true) where
    pub insert_two : (zs : List A) → insert le x (insert le y zs) ≡ insert le y (insert le x zs)
    unfolding insert
    insert_two [] = rw (front, behind) refl
    insert_two (z ∷ zs) = elim (Bool-cases (le y z)) [
      | inl yz ↦ rw (yz, trans z yz, front, behind, yz) refl
      | inr zy ↦ elim (Bool-cases (le x z)) [
        | inl xz ↦ rw (zy, xz, behind, zy) refl
        | inr zx ↦ rw (zy, zx, zy, insert_two zs) refl
      ]
    ]

    pub sort_swap :
        (before after : List A)
        → sort le (before ++ (x ∷ y ∷ after)) ≡ sort le (before ++ (y ∷ x ∷ after))
    unfolding sort
    sort_swap [] after = insert_two (sort le after)
    sort_swap (z ∷ before) after = ap (insert le z) (sort_swap before after)

  -- Each element is in order with the next.
  abbrev pub Ascending : List A → Type ℓ
  Ascending [] = Unit
  Ascending (x ∷ []) = Unit
  Ascending (x ∷ y ∷ ys) = (le x y ≡ true) × Ascending (y ∷ ys)

  module _ (total : (x y : A) → le x y ≡ false → le y x ≡ true) where
    insert-Ascending : (x : A) (ys : List A) → Ascending ys → Ascending (insert le x ys)
    unfolding insert
    insert-Ascending x [] h = tt
    insert-Ascending x (y ∷ []) h = elim (Bool-cases (le x y)) [
      | inl e ↦ rw e (e, tt)
      | inr e ↦ rw e (total x y e, tt)
    ]
    insert-Ascending x (y ∷ z ∷ zs) (yz, h) = elim (Bool-cases (le x y)) [
      | inl e ↦ rw e (e, (yz, h))
      | inr e ↦
          let later = insert-Ascending x (z ∷ zs) h in
          elim (Bool-cases (le x z)) [
            | inl xz ↦ rw (e, xz) (total x y e, (xz, h))
            | inr zx ↦ rw (e, zx) (yz, rw zx at later)
          ]
    ]

    pub sort-Ascending : (xs : List A) → Ascending (sort le xs)
    unfolding sort
    sort-Ascending [] = tt
    sort-Ascending (x ∷ xs) = insert-Ascending x (sort le xs) (sort-Ascending xs)
