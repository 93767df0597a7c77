-- ===== src/Stargate/Modules/Staking.antt =====
-- packages/stargate/src/modules/staking/aminomessages.ts. The public key of a validator is an `Any`
-- of protobuf, which packages/proto-signing/src/pubkey.ts converts.
pub mod RoundTrip
pub mod Create
use cosmjs.Prelude.{Option, none, some, [], ◌∷◌, Result, ◌>>=◌, ◌>>◌, ok, throws, Text}
use cosmjs.Prelude.Int.{ℤ}
use cosmjs.Math.Number.{int_to_string}
use cosmjs.Math.BigNumber.{BigNumber}
use cosmjs.Amino.Coins.{Coin}
use cosmjs.Stargate.BigInt.{big_int}
use cosmjs.Stargate.DecimalText.{proto_decimal_to_json, json_decimal_to_proto}

pub record Description : Type 0 where
  pub moniker : Text
  pub identity : Text
  pub website : Text
  pub security_contact : Text
  pub details : Text

pub record AminoDescription : Type 0 where
  pub amino_moniker : Text
  pub amino_identity : Text
  pub amino_website : Text
  pub amino_security_contact : Text
  pub amino_details : Text

pub record CommissionRates : Type 0 where
  pub rate : Text
  pub max_rate : Text
  pub max_change_rate : Text

-- `MsgDelegate` and `MsgUndelegate`, which have the same fields.
pub record MsgDelegate : Type 0 where
  pub delegator_address : Text
  pub validator_address : Text
  pub amount : Option Coin

pub record AminoMsgDelegate : Type 0 where
  pub amino_delegator_address : Text
  pub amino_validator_address : Text
  pub amino_amount : Coin

pub record MsgBeginRedelegate : Type 0 where
  pub redelegator_address : Text
  pub validator_src_address : Text
  pub validator_dst_address : Text
  pub redelegated : Option Coin

pub record AminoMsgBeginRedelegate : Type 0 where
  pub amino_redelegator_address : Text
  pub amino_validator_src_address : Text
  pub amino_validator_dst_address : Text
  pub amino_redelegated : Coin

pub record MsgCancelUnbondingDelegation : Type 0 where
  pub unbonding : MsgDelegate
  pub creation_height : ℤ

pub record AminoMsgCancelUnbondingDelegation : Type 0 where
  pub amino_unbonding : AminoMsgDelegate
  pub amino_creation_height : Text

pub record MsgEditValidator : Type 0 where
  pub edited : Option Description
  pub commission_rate : Text
  pub edited_self_delegation : Text
  pub edited_address : Text

pub record AminoMsgEditValidator : Type 0 where
  pub amino_edited : AminoDescription
  pub amino_commission_rate : Option Text
  pub amino_edited_self_delegation : Option Text
  pub amino_edited_address : Text

-- `assertDefinedAndNotNull`
abbrev pub defined : {A : Type 0} → Option A → Result A
defined none = throws "missing"
defined (some x) = ok x

unfoldable pub delegate_to_amino : MsgDelegate → Result AminoMsgDelegate
delegate_to_amino msg = do
  amount ← defined msg.amount
  ok (record {
    amino_delegator_address = msg.delegator_address;
    amino_validator_address = msg.validator_address;
    amino_amount = amount;
  })

unfoldable pub delegate_from_amino : AminoMsgDelegate → MsgDelegate
delegate_from_amino msg = record {
  delegator_address = msg.amino_delegator_address;
  validator_address = msg.amino_validator_address;
  amount = some msg.amino_amount;
}

unfoldable pub redelegate_to_amino : MsgBeginRedelegate → Result AminoMsgBeginRedelegate
redelegate_to_amino msg = do
  amount ← defined msg.redelegated
  ok (record {
    amino_redelegator_address = msg.redelegator_address;
    amino_validator_src_address = msg.validator_src_address;
    amino_validator_dst_address = msg.validator_dst_address;
    amino_redelegated = amount;
  })

unfoldable pub redelegate_from_amino : AminoMsgBeginRedelegate → MsgBeginRedelegate
redelegate_from_amino msg = record {
  redelegator_address = msg.amino_redelegator_address;
  validator_src_address = msg.amino_validator_src_address;
  validator_dst_address = msg.amino_validator_dst_address;
  redelegated = some msg.amino_redelegated;
}

unfoldable pub cancel_to_amino :
    MsgCancelUnbondingDelegation → Result AminoMsgCancelUnbondingDelegation
cancel_to_amino msg = do
  unbonding ← delegate_to_amino msg.unbonding
  ok (record {
    amino_unbonding = unbonding;
    amino_creation_height = int_to_string msg.creation_height;
  })

unfoldable pub cancel_from_amino :
    AminoMsgCancelUnbondingDelegation → Result MsgCancelUnbondingDelegation
cancel_from_amino msg = do
  creation_height ← big_int msg.amino_creation_height
  ok (record {
    unbonding = delegate_from_amino msg.amino_unbonding;
    creation_height = creation_height;
  })

abbrev pub description_to_amino : Description → AminoDescription
description_to_amino d = record {
  amino_moniker = d.moniker;
  amino_identity = d.identity;
  amino_website = d.website;
  amino_security_contact = d.security_contact;
  amino_details = d.details;
}

abbrev pub description_from_amino : AminoDescription → Description
description_from_amino d = record {
  moniker = d.amino_moniker;
  identity = d.amino_identity;
  website = d.amino_website;
  security_contact = d.amino_security_contact;
  details = d.amino_details;
}

-- An empty text in the protobuf document means "do not change".
abbrev pub unless_empty : Text → Option Text
unless_empty [] = none
unless_empty (c ∷ s) = some (c ∷ s)

abbrev pub text_or_empty : Option Text → Text
text_or_empty none = []
text_or_empty (some s) = s

abbrev pub unless_absent : (Text → Result Text) → Option Text → Result (Option Text)
unless_absent convert none = ok none
unless_absent convert (some s) = do t ← convert s; ok (some t)

-- `commission_rate ? jsonDecimalToProto(commission_rate) : ""`
abbrev pub rate_or_empty : (Text → Result Text) → Option Text → Result Text
rate_or_empty convert none = ok []
rate_or_empty convert (some []) = ok []
rate_or_empty convert (some (c ∷ s)) = convert (c ∷ s)

module _ (bn : BigNumber) where
  unfoldable pub edit_to_amino : MsgEditValidator → Result AminoMsgEditValidator
  edit_to_amino msg = do
    description ← defined msg.edited
    commission_rate ← unless_absent (proto_decimal_to_json bn) (unless_empty msg.commission_rate)
    ok (record {
      amino_edited = description_to_amino description;
      amino_commission_rate = commission_rate;
      amino_edited_self_delegation = unless_empty msg.edited_self_delegation;
      amino_edited_address = msg.edited_address;
    })

  unfoldable pub edit_from_amino : AminoMsgEditValidator → Result MsgEditValidator
  edit_from_amino msg = do
    commission_rate ← rate_or_empty (json_decimal_to_proto bn) msg.amino_commission_rate
    ok (record {
      edited = some (description_from_amino msg.amino_edited);
      commission_rate = commission_rate;
      edited_self_delegation = text_or_empty msg.amino_edited_self_delegation;
      edited_address = msg.amino_edited_address;
    })

  unfoldable pub rates_to_amino : CommissionRates → Result CommissionRates
  rates_to_amino rates = do
    rate ← proto_decimal_to_json bn rates.rate
    max_rate ← proto_decimal_to_json bn rates.max_rate
    max_change_rate ← proto_decimal_to_json bn rates.max_change_rate
    ok (record { rate = rate; max_rate = max_rate; max_change_rate = max_change_rate })

  unfoldable pub rates_from_amino : CommissionRates → Result CommissionRates
  rates_from_amino rates = do
    rate ← json_decimal_to_proto bn rates.rate
    max_rate ← json_decimal_to_proto bn rates.max_rate
    max_change_rate ← json_decimal_to_proto bn rates.max_change_rate
    ok (record { rate = rate; max_rate = max_rate; max_change_rate = max_change_rate })
