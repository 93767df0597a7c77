-- ===== src/Crypto/HdPath/Total.antt =====
-- The loop of `stringToPath` ends.

use cosmjs.Prelude.{
  ℕ, zero, suc, ◌+◌, ◌^◌, ◌≤◌, ◌≡◌, refl, Bool, not, Option, none, some, [], ◌∷◌, arith, ltb, leb,
  if◌then◌else◌, length, drop, Result, ◌>>=◌, ◌>>◌, throw_if, ok, Text, span_digits, IsFinished,
  IsFinished-bind, IsFinished-guard, IsFinished-if, returned, failed,
}
use cosmjs.Prelude.Int.{pos, negsuc, pos_part, neg_part}
use cosmjs.Math.Number.{Number, nan, infinite, fraction, large, int, max_safe_integer, number_of}
use cosmjs.Math.Int53.{
  Int53, Uint53, uint53_from_string, new_uint53, new_int53, from_string, is_integer_text,
  parse_signed, is_negative, to_number,
}
use cosmjs.Math.Uint32.{new_uint32}
use cosmjs.Crypto.HdPath.{
  Slip10RawIndex, hardened, normal, Component, starts_with_char, match_component, component_index,
  or_syntax_error, read_path, string_to_path,
}

new_uint32-IsFinished : (x : Number) → IsFinished (new_uint32 x)
unfolding new_uint32
new_uint32-IsFinished nan = failed refl
new_uint32-IsFinished infinite = failed refl
new_uint32-IsFinished fraction = failed refl
new_uint32-IsFinished (large negative) = failed refl
new_uint32-IsFinished (int (negsuc n)) = failed refl
new_uint32-IsFinished (int (pos n)) = IsFinished-if (ltb 4294967295 n) _ _ (failed refl) returned

new_int53-IsFinished : (x : Number) → IsFinished (new_int53 x)
unfolding new_int53
new_int53-IsFinished nan = failed refl
new_int53-IsFinished infinite = failed refl
new_int53-IsFinished fraction = failed refl
new_int53-IsFinished (large negative) = failed refl
new_int53-IsFinished (int z) =
    IsFinished-if (ltb max_safe_integer (neg_part z)) _ _ (failed refl)
      (IsFinished-if (ltb max_safe_integer (pos_part z)) _ _ (failed refl) returned)

-- What the constructor of a Uint53 does behind that of the Int53.
abbrev not_negative : Int53 → Result Uint53
not_negative signed =
    throw_if (is_negative signed.value) "Input is negative" >> ok (record { signed = signed })

uint53_from_string-IsFinished : (s : Text) → IsFinished (uint53_from_string s)
unfolding uint53_from_string from_string new_uint53
uint53_from_string-IsFinished s =
    IsFinished-bind (from_string s) (λ signed. new_uint53 (int signed.value))
      (IsFinished-guard (not (is_integer_text s)) "Invalid string format"
        (new_int53 (parse_signed s)) refl (λ _. new_int53-IsFinished (parse_signed s)))
      λ signed _.
        IsFinished-bind (new_int53 (int signed.value)) not_negative
          (new_int53-IsFinished (int signed.value))
          λ i _.
            IsFinished-guard (is_negative i.value) "Input is negative" (ok (record { signed = i }))
              refl (λ _. returned)

-- What becomes of a number that a component spells.
abbrev raw_index : Bool → Uint53 → Result Slip10RawIndex
raw_index apostrophe parsed =
    throw_if (leb (2 ^ 31) (pos_part (to_number parsed)))
      "Component value too high. Must not exceed 2**31-1."
    >> (if apostrophe
        then hardened (pos_part (to_number parsed))
        else normal (pos_part (to_number parsed)))

component_index-IsFinished : (component : Component) → IsFinished (component_index component)
unfolding component_index hardened normal
component_index-IsFinished component =
    IsFinished-bind (uint53_from_string component.number_string) (raw_index component.apostrophe)
      (uint53_from_string-IsFinished component.number_string)
      λ parsed _.
        let value = pos_part (to_number parsed) in
        IsFinished-guard (leb (2 ^ 31) value) "Component value too high. Must not exceed 2**31-1."
          (if component.apostrophe then hardened value else normal value) refl
          λ _.
            IsFinished-if component.apostrophe _ _
              (new_uint32-IsFinished (number_of (value + 2 ^ 31)))
              (new_uint32-IsFinished (number_of value))

length-span_rest : (s : Text) → length (span_digits s).1 ≤ length s
unfolding span_digits
length-span_rest [] = omega arith
length-span_rest (c ∷ s) = ground (arith, length-span_rest s)

length-drop_one : (s : Text) → length (drop 1 s) ≤ length s
length-drop_one [] = omega arith
length-drop_one (c ∷ s) = omega arith

-- Each match of the expression takes characters off the text.
length-match_component :
    (c : ℕ) (s : Text) (component : Component)
    → match_component (c ∷ s) ≡ some component
    → length component.rest ≤ length s
unfolding match_component
length-match_component c s component h =
    ground (arith, length-span_rest s, length-drop_one (span_digits s).1)

or_syntax_error-IsFinished : (m : Option Component) → IsFinished (or_syntax_error m)
or_syntax_error-IsFinished none = failed refl
or_syntax_error-IsFinished (some component) = returned

or_syntax_error_sound :
    (m : Option Component) (component : Component)
    → or_syntax_error m ≡ ok component
    → m ≡ some component
or_syntax_error_sound none component h = cc
or_syntax_error_sound (some other) component h = ground arith

read_path-IsFinished : (fuel : ℕ) (s : Text) → length s ≤ fuel → IsFinished (read_path fuel s)
unfolding read_path
read_path-IsFinished fuel [] h = returned
read_path-IsFinished zero (c ∷ s) h = absurd (omega arith)
read_path-IsFinished (suc fuel) (c ∷ s) h =
    IsFinished-bind (or_syntax_error (match_component (c ∷ s)))
      (λ component. component_index component >>= λ index.
        read_path fuel component.rest >>= λ path. ok (index ∷ path))
      (or_syntax_error-IsFinished (match_component (c ∷ s)))
      λ component found.
        IsFinished-bind (component_index component)
          (λ index. read_path fuel component.rest >>= λ path. ok (index ∷ path))
          (component_index-IsFinished component)
          λ index _.
            IsFinished-bind (read_path fuel component.rest) (λ path. ok (index ∷ path))
              (read_path-IsFinished fuel component.rest (
                omega (
                  arith,
                  length-match_component c s component
                      (or_syntax_error_sound (match_component (c ∷ s)) component found),
                )))
              (λ path _. returned)

-- The loop of `stringToPath` ends on every text: the result is a path or one of the errors that
-- the code throws.
pub string_to_path_terminates : (input : Text) → IsFinished (string_to_path input)
unfolding string_to_path
string_to_path_terminates input =
    IsFinished-guard (not (starts_with_char b'm' input)) "Path string must start with 'm'"
      (read_path (length (drop 1 input)) (drop 1 input)) refl
      (λ _. read_path-IsFinished (length (drop 1 input)) (drop 1 input) (omega arith))
