-- ===== src/Amino/SignDoc/Tests.antt =====
-- Documents and texts at concrete values.
use cosmjs.Prelude.{◌≡◌, refl, [], ◌∷◌, ◌++◌, All, Text, codes, value_from, to_decimal, text_less}
use cosmjs.Prelude.Int.{pos}
use cosmjs.Math.Number.{int}
use cosmjs.Amino.Multisig.{insert, sort}
use cosmjs.Amino.SignDoc.{
  Json, number, object, members_of, keep, property_order, sorted_object, sorted_members,
  escape_characters,
}
use cosmjs.Amino.SignDoc.Escaping.{IsEscaped, escape_each, escape_characters_lem}
use cosmjs.Amino.SignDoc.Keys.{sorted_object_swap}

escape_characters_lem_example :
    (escape_characters (codes "a<b & c>d") ≡ escape_each (codes "a<b & c>d"))
    × All IsEscaped (escape_characters (codes "a<b & c>d"))
escape_characters_lem_example = escape_characters_lem (codes "a<b & c>d")

abbrev memo_entry : Text × Json
memo_entry = (codes "memo", number (int (pos 1)))

abbrev fee_entry : Text × Json
fee_entry = (codes "fee", number (int (pos 2)))

sorted_object_swap_example :
    sorted_object (object (members_of ([] ++ (memo_entry ∷ fee_entry ∷ []))))
    ≡ sorted_object (object (members_of ([] ++ (fee_entry ∷ memo_entry ∷ []))))
sorted_object_swap_example = sorted_object_swap [] [] memo_entry fee_entry refl

-- The members "9" and "10" come in the order of the numbers, which is not the order of the texts.
index_keys :
    sorted_object (
      object
        (members_of ((codes "10", number (int (pos 1))) ∷ (codes "9", number (int (pos 2))) ∷ [])))
    ≡ object
        (members_of ((codes "9", number (int (pos 2))) ∷ (codes "10", number (int (pos 1))) ∷ []))
unfolding sorted_object sorted_members property_order keep sort insert text_less value_from
    to_decimal
index_keys = refl
