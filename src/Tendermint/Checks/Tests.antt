-- ===== src/Tendermint/Checks/Tests.antt =====
-- The checks at concrete values.
use cosmjs.Prelude.{◌≡◌, refl, true, List, [], ◌∷◌, ok, throws, Text, codes}
use cosmjs.JsonRpc.Values.{object, no_fields, is_json_compatible_dictionary, every_field}
use cosmjs.Tendermint.Checks.{
  assert_boolean, assert_string, assert_number, assert_array, assert_object,
  dictionary_to_string_map, string_fields, dictionary_to_string_map-string_fields,
  assert_object_dictionary,
}

abbrev two_entries : List (Text × Text)
two_entries = (codes "a", codes "1") ∷ (codes "b", codes "") ∷ []

dictionary_to_string_map-string_fields_example :
    dictionary_to_string_map (string_fields two_entries) ≡ ok two_entries
dictionary_to_string_map-string_fields_example = dictionary_to_string_map-string_fields two_entries

empty_is_dictionary : is_json_compatible_dictionary (object no_fields) ≡ true
unfolding is_json_compatible_dictionary every_field
empty_is_dictionary = refl

assert_object_dictionary_example :
    (assert_object (object no_fields) ≡ ok (object no_fields))
    × (assert_array (object no_fields) ≡ throws "Value must be a an array")
    × (assert_string (object no_fields) ≡ throws "Value must be a string")
    × (assert_number (object no_fields) ≡ throws "Value must be a number")
    × (assert_boolean (object no_fields) ≡ throws "Value must be a boolean")
assert_object_dictionary_example = assert_object_dictionary (object no_fields) empty_is_dictionary
