-- ===== src/Stargate/DecimalText.antt =====
-- packages/stargate/src/modules/staking/aminomessages.ts, the texts of decimals with 18 digits, and
-- decodeCosmosSdkDecFromProto of queryclient/utils.ts for texts.
pub mod RoundTrip
mod Tests
use cosmjs.Prelude.{◌+◌, List, [], ◌∷◌, ◌++◌, Result, ◌>>=◌, ◌>>◌, ok, Text, codes, split}
use cosmjs.Prelude.Int.{pos}
use cosmjs.Math.Number.{int}
use cosmjs.Math.BigNumber.{BigNumber}
use cosmjs.Math.Decimal.{
  Decimal, from_user_input, from_atomics, atomics_text, to_string, pad_end, dot,
}

abbrev undefined_text : Text
undefined_text = codes "undefined"

-- `[whole, fractional] = parts` in the template of the result.
abbrev pub json_of_parts : List Text → Text
json_of_parts [] = undefined_text ++ dot ∷ pad_end [] 18
json_of_parts (whole ∷ []) = whole ++ dot ∷ pad_end [] 18
json_of_parts (whole ∷ fractional ∷ rest) = whole ++ dot ∷ pad_end fractional 18

module _ (bn : BigNumber) where
  open bn use {BN}

  unfoldable pub decode_cosmos_sdk_dec_from_proto : Text → Result (Decimal BN)
  decode_cosmos_sdk_dec_from_proto input = from_atomics bn input (int (pos 18))

  unfoldable pub proto_decimal_to_json : Text → Result Text
  proto_decimal_to_json decimal = do
    parsed ← from_atomics bn decimal (int (pos 18))
    ok (json_of_parts (split dot (to_string bn parsed)))

  unfoldable pub json_decimal_to_proto : Text → Result Text
  json_decimal_to_proto decimal = do
    parsed ← from_user_input bn decimal (int (pos 18))
    ok (atomics_text bn parsed)
