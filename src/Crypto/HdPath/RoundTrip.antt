-- ===== src/Crypto/HdPath/RoundTrip.antt =====
-- A printed path is read back.

use cosmjs.Prelude.{
  ℕ, zero, suc, ◌+◌, ◌-◌, ◌^◌, ◌≤◌, ◌<◌, ◌≡◌, refl, sym, ◌∙◌, ◌≢◌, inl, inr, Bool, true, false,
  some, [], ◌∷◌, ◌++◌, append_assoc, append-nil, arith, leb, ◌==◌, if◌then◌else◌, Bool-cases,
  length, length-append, All, ok, Text, is_digit, StartsWithNoDigit, to_decimal, value-to_decimal,
  to_decimal-IsDigit, is_digits-to_decimal, span_digits_lem,
}
use cosmjs.Math.Number.{number_of, number_of_safe}
use cosmjs.Math.Int53.Strings.{uint53_from_string_iff}
use cosmjs.Math.Uint32.{IsUint32, new_uint32}
use cosmjs.Crypto.HdPath.{
  Slip10RawIndex, HdPath, hardened, normal, component_to_string, path_string_from, path_to_string,
  match_component, component_index, read_path, string_to_path,
}

new_uint32-number_of : (n : ℕ) → n < 2 ^ 32 → new_uint32 (number_of n) ≡ ok (record { value = n })
unfolding new_uint32
new_uint32-number_of n h = rw (number_of_safe n (omega arith)) (ground arith)

component_index_lem :
    (v : ℕ) (apostrophe : Bool) (rest : Text)
    → v < 2 ^ 31
    → component_index
        (record { number_string = to_decimal v; apostrophe = apostrophe; rest = rest })
      ≡ ok (record { value = if apostrophe then v + 2 ^ 31 else v })
unfolding component_index hardened normal
component_index_lem v true rest h =
    let low : leb (2 ^ 31) v ≡ false = ground arith in
    let parsed =
      (uint53_from_string_iff (to_decimal v) v (is_digits-to_decimal v)).1
        (value-to_decimal v, omega arith) in
    rw (parsed, low) (new_uint32-number_of (v + 2 ^ 31) (omega arith))
component_index_lem v false rest h =
    let low : leb (2 ^ 31) v ≡ false = ground arith in
    let parsed =
      (uint53_from_string_iff (to_decimal v) v (is_digits-to_decimal v)).1
        (value-to_decimal v, omega arith) in
    rw (parsed, low) (new_uint32-number_of v (omega arith))

-- What begins with no digit and no apostrophe ends a component.
abbrev EndsComponent : Text → Type 0
EndsComponent [] = Unit
EndsComponent (c ∷ s) = (is_digit c ≡ false) × (c ≢ b'\'')

no_digit : (s : Text) → EndsComponent s → StartsWithNoDigit s
no_digit [] h = tt
no_digit (c ∷ s) h = h.0

match_hardened :
    (v : ℕ) (rest : Text)
    → match_component (b'/' ∷ (to_decimal v ++ b'\'' ∷ rest))
      ≡ some (record { number_string = to_decimal v; apostrophe = true; rest = rest })
unfolding match_component
match_hardened v rest = rw (
  span_digits_lem (to_decimal v) (b'\'' ∷ rest) (to_decimal-IsDigit v) refl,
  is_digits-to_decimal v,
)

match_normal :
    (v : ℕ) (rest : Text)
    → EndsComponent rest
    → match_component (b'/' ∷ (to_decimal v ++ rest))
      ≡ some (record { number_string = to_decimal v; apostrophe = false; rest = rest })
unfolding match_component
match_normal v [] h =
    rw (span_digits_lem (to_decimal v) [] (to_decimal-IsDigit v) tt, is_digits-to_decimal v)
match_normal v (c ∷ rest) (hd, ha) =
    let e : (c == b'\'') ≡ false = ground arith in
    rw (
      span_digits_lem (to_decimal v) (c ∷ rest) (to_decimal-IsDigit v) hd,
      is_digits-to_decimal v,
      e,
    )

-- The components, each behind its slash.
spell : HdPath → Text
spell [] = []
spell (index ∷ path) = b'/' ∷ (component_to_string index ++ spell path)

path_string_from-spell :
    (current : Text) (path : HdPath) → path_string_from current path ≡ current ++ spell path
unfolding path_string_from spell
path_string_from-spell current [] = sym (append-nil current)
path_string_from-spell current (index ∷ path) =
    path_string_from-spell (current ++ b'/' ∷ component_to_string index) path
    ∙ append_assoc current (b'/' ∷ component_to_string index) (spell path)

spell_ends : (path : HdPath) → EndsComponent (spell path)
unfolding spell
spell_ends [] = tt
spell_ends (index ∷ path) = (refl, ground arith)

read_step :
    (f : ℕ) (index : Slip10RawIndex) (rest : Text) (path : HdPath)
    → IsUint32 index
    → EndsComponent rest
    → read_path f rest ≡ ok path
    → read_path (suc f) (b'/' ∷ (component_to_string index ++ rest)) ≡ ok (index ∷ path)
unfolding read_path component_to_string
read_step f index rest path fits ends e = elim (Bool-cases (leb (2 ^ 31) index.value)) [
  | inl high ↦
      let v = index.value - 2 ^ 31 in
      let back : v + 2 ^ 31 ≡ index.value = ground arith in
      rw (
        high,
        append_assoc (to_decimal v) (b'\'' ∷ []) rest,
        match_hardened v rest,
        component_index_lem v true rest (ground arith),
        e,
        back,
      )
  | inr low ↦ rw (
    low,
    match_normal index.value rest ends,
    component_index_lem index.value false rest (ground arith),
    e,
  )
]

read_path-spell :
    (path : HdPath) (f : ℕ)
    → All IsUint32 path
    → length (spell path) ≤ f
    → read_path f (spell path) ≡ ok path
unfolding spell
read_path-spell [] zero h fits = unfold read_path in refl
read_path-spell [] (suc f) h fits = unfold read_path in refl
read_path-spell (index ∷ path) zero h fits = absurd (omega arith)
read_path-spell (index ∷ path) (suc f) (hi, h) fits =
    read_step f index (spell path) path hi (spell_ends path) (
      read_path-spell path f h
        (omega (arith, length-append (component_to_string index) (spell path))))

-- Every path of raw indices below 2^32, hardened or not, is read back from its text.
pub string_to_path-path_to_string :
    (path : HdPath) → All IsUint32 path → string_to_path (path_to_string path) ≡ ok path
unfolding string_to_path path_to_string
string_to_path-path_to_string path h =
    rw (path_string_from-spell (b'm' ∷ []) path)
      (read_path-spell path (length (spell path)) h (omega arith))
