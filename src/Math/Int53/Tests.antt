-- ===== src/Math/Int53/Tests.antt =====
-- Int53 and Uint53 at concrete inputs.
use cosmjs.Prelude.{◌≡◌, ◌≤◌, ◌↔◌, refl, arith, codes, value_from, ok, throws}
use cosmjs.Prelude.Int.{pos, negsuc}
use cosmjs.Math.Number.{int, max_safe_integer, parse_int, number_of, negate}
use cosmjs.Math.Int53.{
  Int53, from_string, to_string, new_uint53, uint53_from_string, uint53_to_string, uint53,
  is_integer_text, parse_signed,
}
use cosmjs.Math.Int53.Strings.{
  int53_from_string-to_string, new_uint53_iff, uint53_from_string_iff, uint53_from_string-to_string,
}

abbrev minus_five : Int53
minus_five = record { value = negsuc 4 }

int53_from_string-to_string_example : from_string (to_string minus_five) ≡ ok minus_five
int53_from_string-to_string_example = int53_from_string-to_string minus_five (omega arith)

uint53_negative : uint53_from_string (codes "-1") ≡ throws "Input is negative"
unfolding uint53_from_string is_integer_text parse_signed value_from parse_int number_of negate
    new_uint53
uint53_negative = refl

new_uint53_iff_example :
    (new_uint53 (int (negsuc 0)) ≡ ok (uint53 1))
    ↔ ((int (negsuc 0) ≡ int (pos 1)) × (1 ≤ max_safe_integer))
new_uint53_iff_example = new_uint53_iff (int (negsuc 0)) 1

uint53_from_string_iff_example :
    (uint53_from_string (codes "0123") ≡ ok (uint53 123))
    ↔ ((value_from 0 (codes "0123") ≡ 123) × (123 ≤ max_safe_integer))
uint53_from_string_iff_example = uint53_from_string_iff (codes "0123") 123 refl

uint53_from_string-to_string_example :
    uint53_from_string (uint53_to_string (uint53 9007199254740991)) ≡ ok (uint53 9007199254740991)
uint53_from_string-to_string_example = uint53_from_string-to_string 9007199254740991 (omega arith)
