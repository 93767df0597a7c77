-- ===== src/Amino/Compare.antt =====
-- packages/amino/src/multisig.ts, the order of byte arrays, and omitdefault.ts.
mod Tests
use Prim.Native.Nat.{Ordering}
use cosmjs.Prelude.{
  zero, ◌-◌, ◌≡◌, refl, ◌↔◌, inl, inr, Bool, false, Option, none, some, [], if◌then◌else◌,
  Bool-cases, All, Text, Bytes, text_eq, IsByte, text_eq_refl, text_eq_sound, text_less,
}
use cosmjs.Prelude.Int.{ℤ, pos}
use cosmjs.Math.Number.{Number, int}
use cosmjs.Encoding.Hex.{to_hex}
use cosmjs.Encoding.Hex.RoundTrip.{to_hex_injective}

-- The sign of the result of `compareArrays`.
unfoldable pub compare_arrays : Bytes → Bytes → Ordering
compare_arrays a b =
    if text_eq (to_hex a) (to_hex b)
    then Ordering.eq
    else if text_less (to_hex a) (to_hex b)
    then Ordering.lt
    else Ordering.gt

-- The types that `omitDefault` takes.
pub data Input : Type 0 where
  string : Text → Input
  number : Number → Input
  bigint : ℤ → Input
  boolean : Bool → Input

unfoldable pub omit_default : Input → Option Input
omit_default (string []) = none
omit_default (number (int (pos zero))) = none
omit_default (bigint (pos zero)) = none
omit_default (boolean false) = none
omit_default input = some input

unequal_arrays :
    (a b : Bytes) → text_eq (to_hex a) (to_hex b) ≡ false → compare_arrays a b ≡ Ordering.eq → ⊥
unfolding compare_arrays
unequal_arrays a b other h = elim (Bool-cases (text_less (to_hex a) (to_hex b))) [
  | inl less ↦ lt-ne-eq (rw (other, less) at h)
  | inr greater ↦ gt-ne-eq (rw (other, greater) at h)
]
  where
    lt-ne-eq : Ordering.lt ≡ Ordering.eq → ⊥
    lt-ne-eq e = cc

    gt-ne-eq : Ordering.gt ≡ Ordering.eq → ⊥
    gt-ne-eq e = cc

-- `compareArrays` finds two byte arrays equal exactly if they are.
pub compare_arrays_iff :
    (a b : Bytes) → All IsByte a → All IsByte b → (compare_arrays a b ≡ Ordering.eq) ↔ (a ≡ b)
unfolding compare_arrays
compare_arrays_iff a b ha hb = (
  λ h. elim (Bool-cases (text_eq (to_hex a) (to_hex b))) [
    | inl same ↦ to_hex_injective a b ha hb (text_eq_sound (to_hex a) (to_hex b) same)
    | inr other ↦ absurd (unequal_arrays a b other h)
  ],
  λ e. rw (e, text_eq_refl (to_hex b)) refl,
)
