-- ===== src/Amino/SignDoc/Keys.antt =====
-- The order of keys in a document does not matter.
use cosmjs.Prelude.{
  ◌≡◌, refl, sym, ap, inl, inr, Bool, true, false, not, List, [], ◌∷◌, ◌++◌, map, Bool-cases, Text,
  text_eq, text_less, text_less_irrefl, text_less_trans, text_less_total,
}
use cosmjs.Amino.Multisig.{sort}
use cosmjs.Amino.Multisig.Sorting.{sort_swap}
use cosmjs.Amino.SignDoc.{Json, object, key_in_order, members_of, sorted_object, sorted_members}

abbrev sorted_entry : Text × Json → Text × Json
sorted_entry entry = (entry.0, sorted_object entry.1)

sorted_members-members_of :
    (entries : List (Text × Json)) → sorted_members (members_of entries) ≡ map sorted_entry entries
unfolding sorted_members
sorted_members-members_of [] = refl
sorted_members-members_of ((name, value) ∷ entries) =
    ap (λ rest. (name, sorted_object value) ∷ rest) (sorted_members-members_of entries)

map-append :
    (xs ys : List (Text × Json))
    → map sorted_entry (xs ++ ys) ≡ map sorted_entry xs ++ map sorted_entry ys
map-append [] ys = refl
map-append (x ∷ xs) ys = ap (λ rest. sorted_entry x ∷ rest) (map-append xs ys)

not_less : (s t : Text) → text_less s t ≡ true → text_less t s ≡ false
not_less s t h = elim (Bool-cases (text_less t s)) [
  | inl e ↦ absurd (text_less_irrefl s (text_less_trans s t s h e))
  | inr e ↦ e
]

-- From a key that is less than another to one that the other is not behind.
passes : (s t u : Text) → text_less s t ≡ true → text_less u t ≡ false → text_less u s ≡ false
passes s t u h k = elim (Bool-cases (text_less u s)) [
  | inl e ↦ let less : text_less u t ≡ true = text_less_trans u s t e h in absurd cc
  | inr e ↦ e
]

not-true : (b : Bool) → not b ≡ true → b ≡ false
not-true true h = absurd cc
not-true false h = refl

swap_less :
    (x y : Text × Json) (before after : List (Text × Json))
    → text_less x.0 y.0 ≡ true
    → sort key_in_order (before ++ (x ∷ y ∷ after)) ≡ sort key_in_order (before ++ (y ∷ x ∷ after))
swap_less x y before after h =
    sort_swap key_in_order x y (rw (not_less x.0 y.0 h) refl) (rw h refl)
      (λ z k. rw (passes x.0 y.0 z.0 h (not-true (text_less z.0 y.0) k)) refl) before after

swap :
    (x y : Text × Json) (before after : List (Text × Json))
    → text_eq x.0 y.0 ≡ false
    → sort key_in_order (before ++ (x ∷ y ∷ after)) ≡ sort key_in_order (before ++ (y ∷ x ∷ after))
swap x y before after differ = elim (Bool-cases (text_less x.0 y.0)) [
  | inl less ↦ swap_less x y before after less
  | inr more ↦ sym (swap_less y x before after (text_less_total x.0 y.0 differ more))
]

-- Two neighbouring members of an object with different names may change places: the sorted object is
-- the same. So the sorted object does not depend on the order of the members.
pub sorted_object_swap :
    (before after : List (Text × Json)) (x y : Text × Json)
    → text_eq x.0 y.0 ≡ false
    → sorted_object (object (members_of (before ++ (x ∷ y ∷ after))))
      ≡ sorted_object (object (members_of (before ++ (y ∷ x ∷ after))))
unfolding sorted_object
sorted_object_swap before after x y differ =
    rw
      (
        sorted_members-members_of (before ++ (x ∷ y ∷ after)),
        sorted_members-members_of (before ++ (y ∷ x ∷ after)),
        map-append before (x ∷ y ∷ after),
        map-append before (y ∷ x ∷ after),
        swap (sorted_entry x) (sorted_entry y) (map sorted_entry before) (map sorted_entry after)
            differ,
      )
      refl
