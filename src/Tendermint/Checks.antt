-- ===== src/Tendermint/Checks.antt =====
-- packages/tendermint-rpc/src/comet38/encodings.ts: the runtime checks of what the RPC server
-- sends. The functions of tendermint34 and tendermint37 read the same.
mod Tests
use cosmjs.Prelude.{
  ℕ, zero, ◌-◌, ◌≡◌, refl, Bool, true, false, not, Option, none, some, List, [], ◌∷◌, arith, length,
  Result, ◌>>=◌, ◌>>◌, throw_if, ok, throws, Text, codes,
}
use cosmjs.Prelude.Int.{pos}
use cosmjs.Math.Number.{Number, int}
use cosmjs.JsonRpc.Values.{
  Value, Values, Fields, undefined, null, string, number, boolean, array, object, other_object,
  other_type, no_values, item, no_fields, field, get_field, is_json_compatible_dictionary,
}

unfoldable pub assert_set : Value → Result Value
assert_set undefined = throws "Value must not be undefined"
assert_set null = throws "Value must not be null"
assert_set value = ok value

abbrev pub is_boolean : Value → Bool
is_boolean (boolean b) = true
is_boolean value = false

unfoldable pub assert_boolean : Value → Result Value
assert_boolean value = do
  _ ← assert_set value
  throw_if (not (is_boolean value)) "Value must be a boolean"
  ok value

abbrev pub is_string : Value → Bool
is_string (string s) = true
is_string value = false

unfoldable pub assert_string : Value → Result Value
assert_string value = do
  _ ← assert_set value
  throw_if (not (is_string value)) "Value must be a string"
  ok value

abbrev pub is_number : Value → Bool
is_number (number n) = true
is_number value = false

unfoldable pub assert_number : Value → Result Value
assert_number value = do
  _ ← assert_set value
  throw_if (not (is_number value)) "Value must be a number"
  ok value

abbrev pub is_array : Value → Bool
is_array (array xs) = true
is_array value = false

unfoldable pub assert_array : Value → Result Value
assert_array value = do
  _ ← assert_set value
  throw_if (not (is_array value)) "Value must be a an array"
  ok value

-- `typeof value === "object"`
abbrev pub is_object_type : Value → Bool
is_object_type null = true
is_object_type (array xs) = true
is_object_type (object fs) = true
is_object_type (other_object n) = true
is_object_type value = false

abbrev pub is_simple_object : Value → Bool
is_simple_object (object fs) = true
is_simple_object value = false

unfoldable pub assert_object : Value → Result Value
assert_object value = do
  _ ← assert_set value
  throw_if (not (is_object_type value)) "Value must be an object"
  throw_if (not (is_simple_object value)) "Value must be a simple object"
  ok value

abbrev pub is_zero_number : Value → Bool
is_zero_number (number (int (pos zero))) = true
is_zero_number value = false

abbrev is_zero_length : Option ℕ → Bool
is_zero_length (some zero) = true
is_zero_length n = false

-- `value.length === 0`
abbrev pub has_no_length : Value → Bool
has_no_length (string []) = true
has_no_length (array no_values) = true
has_no_length (object fs) = is_zero_number (get_field fs (codes "length"))
has_no_length (other_object n) = is_zero_length n
has_no_length (other_type n) = is_zero_length n
has_no_length value = false

unfoldable pub assert_not_empty : Value → Result Value
assert_not_empty value = do
  _ ← assert_set value
  throw_if (is_zero_number value) "must provide a non-zero value"
  throw_if (has_no_length value) "must provide a non-empty value"
  ok value

-- `may`: the transformation of what is there.
unfoldable pub may : {U : Type 0} → (Value → U) → Value → Option U
may transform undefined = none
may transform null = none
may transform value = some (transform value)

abbrev string_value : Value → Result Text
string_value (string s) = ok s
string_value value = throws "Found dictionary value of type other than string"

-- The keys of an object are distinct, so that each `out.set` adds an entry.
unfoldable pub dictionary_to_string_map : Fields → Result (List (Text × Text))
dictionary_to_string_map no_fields = ok []
dictionary_to_string_map (field name value fs) = do
  s ← string_value value
  out ← dictionary_to_string_map fs
  ok ((name, s) ∷ out)

-- The object whose properties are these texts.
unfoldable pub string_fields : List (Text × Text) → Fields
string_fields [] = no_fields
string_fields ((name, s) ∷ entries) = field name (string s) (string_fields entries)

-- An object of texts becomes the map with the same entries in the same order.
pub dictionary_to_string_map-string_fields :
    (entries : List (Text × Text)) → dictionary_to_string_map (string_fields entries) ≡ ok entries
unfolding dictionary_to_string_map string_fields
dictionary_to_string_map-string_fields [] = refl
dictionary_to_string_map-string_fields ((name, s) ∷ entries) =
    rw (dictionary_to_string_map-string_fields entries)

-- What the JSON-RPC client accepts as a dictionary passes `assertObject` unchanged, and passes none
-- of the checks for the other types.
pub assert_object_dictionary :
    (value : Value)
    → is_json_compatible_dictionary value ≡ true
    → (assert_object value ≡ ok value)
      × (assert_array value ≡ throws "Value must be a an array")
      × (assert_string value ≡ throws "Value must be a string")
      × (assert_number value ≡ throws "Value must be a number")
      × (assert_boolean value ≡ throws "Value must be a boolean")
unfolding is_json_compatible_dictionary assert_object assert_array assert_string assert_number
    assert_boolean assert_set
assert_object_dictionary (object fs) h = (refl, refl, refl, refl, refl)
assert_object_dictionary value h = absurd (ground arith)
