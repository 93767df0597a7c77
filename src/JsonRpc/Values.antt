-- ===== src/JsonRpc/Values.antt =====
-- packages/json-rpc/src/compatibility.ts: which JavaScript values are JSON.
use cosmjs.Prelude.{
  ℕ, ◌≡◌, refl, ◌⊎◌, inl, inr, Bool, true, false, ◌&&◌, Option, arith, if◌then◌else◌, Bool-cases,
  Text, text_eq,
}
use cosmjs.Math.Number.{Number}

-- A JavaScript value as far as the code tells values apart.
mutual
  pub data Value : Type 0 where
    undefined null : Value
    string : Text → Value
    number : Number → Value
    boolean : Bool → Value
    array : Values → Value
    -- an object whose `toString` is "[object Object]"
    object : Fields → Value
    -- other objects (a Date, a Uint8Array), with their `length` if they have one
    other_object : Option ℕ → Value
    -- functions, symbols, bigints, with their `length` if they have one
    other_type : Option ℕ → Value

  pub data Values : Type 0 where
    no_values : Values
    item : Value → Values → Values

  -- The own properties of an object.
  pub data Fields : Type 0 where
    no_fields : Fields
    field : Text → Value → Fields → Fields

unfoldable mutual
  pub is_json_compatible_value : Value → Bool
  is_json_compatible_value (string s) = true
  is_json_compatible_value (number n) = true
  is_json_compatible_value (boolean b) = true
  is_json_compatible_value null = true
  is_json_compatible_value (array xs) = every_item xs
  is_json_compatible_value (object fs) = every_field fs
  is_json_compatible_value undefined = false
  is_json_compatible_value (other_object n) = false
  is_json_compatible_value (other_type n) = false

  -- The loop of `isJsonCompatibleArray`.
  pub every_item : Values → Bool
  every_item no_values = true
  every_item (item x xs) = is_json_compatible_value x && every_item xs

  -- `Object.values(data).every(isJsonCompatibleValue)`
  pub every_field : Fields → Bool
  every_field no_fields = true
  every_field (field name x fs) = is_json_compatible_value x && every_field fs

unfoldable pub is_json_compatible_array : Value → Bool
is_json_compatible_array (array xs) = every_item xs
is_json_compatible_array other = false

unfoldable pub is_json_compatible_dictionary : Value → Bool
is_json_compatible_dictionary (object fs) = every_field fs
is_json_compatible_dictionary other = false

-- `data.name`
unfoldable pub get_field : Fields → Text → Value
get_field no_fields name = undefined
get_field (field key x fs) name = if text_eq key name then x else get_field fs name

-- What a property of a JSON object is: absent, or JSON again.
pub get_field-is_json :
    (fs : Fields) (name : Text)
    → every_field fs ≡ true
    → (get_field fs name ≡ undefined) ⊎ (is_json_compatible_value (get_field fs name) ≡ true)
unfolding get_field every_field
get_field-is_json no_fields name h = inl refl
get_field-is_json (field key x fs) name h = elim (Bool-cases (text_eq key name)) [
  | inl same ↦ rw same (inr (ground arith))
  | inr other ↦ rw other (get_field-is_json fs name (ground arith))
]
