-- ===== src/Amino/SignDoc.antt =====
-- packages/amino/src/signdoc.ts: sign documents, the order of their keys and the escaping. The final
-- `JSON.stringify` and the UTF-8 encoding are not modelled.
pub mod Escaping
pub mod Keys
mod Tests
use cosmjs.Prelude.{
  ℕ, zero, suc, ◌+◌, ◌-◌, ◌^◌, ◌<◌, Bool, not, ◌&&◌, Option, none, some, List, [], ◌∷◌, ◌++◌, ltb,
  leb, ◌==◌, if◌then◌else◌, Result, ◌>>=◌, ◌>>◌, ok, throws, Text, codes, text_eq, is_digits,
  value_from, to_decimal, text_less,
}
use cosmjs.Prelude.Int.{ℤ, pos, negsuc}
use cosmjs.Math.Number.{Number, int, int_to_string}
use cosmjs.Math.Int53.{uint53_from_string, uint53_to_string}
use cosmjs.Amino.Coins.{Coin, Amount, as_number, as_text}
use cosmjs.Amino.Multisig.{sort}

-- JSON documents; the members of an object stand in the order of `Object.keys`.
mutual
  pub data Json : Type 0 where
    null : Json
    boolean : Bool → Json
    number : Number → Json
    string : Text → Json
    array : Items → Json
    object : Members → Json

  pub data Items : Type 0 where
    no_items : Items
    item : Json → Items → Items

  pub data Members : Type 0 where
    no_members : Members
    member : Text → Json → Members → Members

pub record StdFee : Type 0 where
  pub amount : List Coin
  pub gas : Text
  pub granter : Option Text
  pub payer : Option Text

pub record AminoMsg : Type 0 where
  pub type_id : Text
  pub value : Json

pub record StdSignDoc : Type 0 where
  pub chain_id : Text
  pub account_number : Text
  pub sequence : Text
  pub fee : StdFee
  pub msgs : List AminoMsg
  pub memo : Text
  pub timeout_height : Option Text

-- The order of `sort()` on keys.
abbrev pub key_in_order : Text × Json → Text × Json → Bool
key_in_order a b = not (text_less b.0 a.0)

-- Keys that are array indices, decimal numbers below 2^32 - 1, come first in an object, in
-- ascending order; the others come as they were added.
abbrev pub is_index : Text × Json → Bool
is_index a =
    is_digits a.0
    && text_eq a.0 (to_decimal (value_from 0 a.0))
    && ltb (value_from 0 a.0) (2 ^ 32 - 1)

abbrev pub index_in_order : Text × Json → Text × Json → Bool
index_in_order a b = leb (value_from 0 a.0) (value_from 0 b.0)

unfoldable pub keep : (Text × Json → Bool) → List (Text × Json) → List (Text × Json)
keep test [] = []
keep test (x ∷ xs) = let rest = keep test xs in if test x then x ∷ rest else rest

unfoldable pub property_order : List (Text × Json) → List (Text × Json)
property_order entries =
    sort index_in_order (keep is_index entries) ++ keep (λ a. not (is_index a)) entries

abbrev pub members_of : List (Text × Json) → Members
members_of [] = no_members
members_of ((name, value) ∷ entries) = member name value (members_of entries)

unfoldable mutual
  pub sorted_object : Json → Json
  sorted_object (array items) = array (sorted_items items)
  sorted_object (object members) =
      object (members_of (property_order (sort key_in_order (sorted_members members))))
  sorted_object null = null
  sorted_object (boolean b) = boolean b
  sorted_object (number n) = number n
  sorted_object (string s) = string s

  -- `obj.map(sortedObject)`
  pub sorted_items : Items → Items
  sorted_items no_items = no_items
  sorted_items (item x xs) = item (sorted_object x) (sorted_items xs)

  pub sorted_members : Members → List (Text × Json)
  sorted_members no_members = []
  sorted_members (member name value rest) = (name, sorted_object value) ∷ sorted_members rest

-- `Uint53.fromString(value.toString()).toString()`; a number that is no safe integer does not pass.
abbrev pub uint53_text : Amount → Result Text
uint53_text (as_text s) = do checked ← uint53_from_string s; ok (uint53_to_string checked)
uint53_text (as_number (int z)) = do
  checked ← uint53_from_string (int_to_string z)
  ok (uint53_to_string checked)
uint53_text (as_number other) = throws "Invalid string format"

abbrev pub text_or_empty : Option Text → Text
text_or_empty none = []
text_or_empty (some s) = s

-- `timeout_height && {...}`: the height 0 is left out.
abbrev pub height_text : Option ℤ → Option Text
height_text none = none
height_text (some (pos zero)) = none
height_text (some (pos (suc n))) = some (int_to_string (pos (suc n)))
height_text (some (negsuc n)) = some (int_to_string (negsuc n))

unfoldable pub make_sign_doc :
    List AminoMsg → StdFee → Text → Option Text → Amount → Amount → Option ℤ → Result StdSignDoc
make_sign_doc msgs fee chain_id memo account_number sequence timeout_height = do
  account ← uint53_text account_number
  checked ← uint53_text sequence
  ok (record {
    chain_id = chain_id;
    account_number = account;
    sequence = checked;
    fee = fee;
    msgs = msgs;
    memo = text_or_empty memo;
    timeout_height = height_text timeout_height;
  })

-- `replace(/c/g, replacement)`
unfoldable pub replace_all : ℕ → Text → Text → Text
replace_all c replacement [] = []
replace_all c replacement (d ∷ s) =
    let rest = replace_all c replacement s in if d == c then replacement ++ rest else d ∷ rest

unfoldable pub escape_characters : Text → Text
escape_characters input =
    replace_all b'>' (codes "\\u003e")
      (replace_all b'<' (codes "\\u003c") (replace_all b'&' (codes "\\u0026") input))
