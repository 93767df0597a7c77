-- ===== src/Stargate/Modules/Staking/Create.antt =====
-- packages/stargate/src/modules/staking/aminomessages.ts, the message that creates a validator.
use cosmjs.Prelude.{ℕ, ◌≡◌, refl, Option, some, Result, ◌>>=◌, ok, Text, to_decimal}
use cosmjs.Math.BigNumber.{BigNumber}
use cosmjs.Encoding.Base64.{Base64Js}
use cosmjs.Amino.Coins.{Coin}
use cosmjs.Amino.Binary.{Pubkey}
use cosmjs.ProtoSigning.Pubkey.{Any, ProtoKeys, encode_pubkey, decode_pubkey}
use cosmjs.Stargate.Modules.Staking.{
  Description, AminoDescription, CommissionRates, defined, description_to_amino,
  description_from_amino, rates_to_amino, rates_from_amino,
}
use cosmjs.Stargate.Modules.Staking.RoundTrip.{rates_back}

pub record MsgCreateValidator : Type 0 where
  pub description : Option Description
  pub commission : Option CommissionRates
  pub min_self_delegation : Text
  pub delegator_address : Text
  pub validator_address : Text
  pub pubkey : Option Any
  pub value : Option Coin

pub record AminoMsgCreateValidator : Type 0 where
  pub amino_description : AminoDescription
  pub amino_commission : CommissionRates
  pub amino_min_self_delegation : Text
  pub amino_delegator_address : Text
  pub amino_validator_address : Text
  pub amino_pubkey : Pubkey
  pub amino_value : Coin

module _ (bn : BigNumber) (b64 : Base64Js) (proto : ProtoKeys) where
  unfoldable pub create_to_amino : MsgCreateValidator → Result AminoMsgCreateValidator
  create_to_amino msg = do
    description ← defined msg.description
    commission ← defined msg.commission
    any ← defined msg.pubkey
    coin ← defined msg.value
    rates ← rates_to_amino bn commission
    pubkey ← decode_pubkey b64 proto any
    ok (record {
      amino_description = description_to_amino description;
      amino_commission = rates;
      amino_min_self_delegation = msg.min_self_delegation;
      amino_delegator_address = msg.delegator_address;
      amino_validator_address = msg.validator_address;
      amino_pubkey = pubkey;
      amino_value = coin;
    })

  unfoldable pub create_from_amino : AminoMsgCreateValidator → Result MsgCreateValidator
  create_from_amino msg = do
    rates ← rates_from_amino bn msg.amino_commission
    any ← encode_pubkey b64 proto msg.amino_pubkey
    ok (record {
      description = some (description_from_amino msg.amino_description);
      commission = some rates;
      min_self_delegation = msg.amino_min_self_delegation;
      delegator_address = msg.amino_delegator_address;
      validator_address = msg.amino_validator_address;
      pubkey = some any;
      value = some msg.amino_value;
    })

  -- What a message with all its parts holds: rates in units of 10^-18 and the protobuf form of a key.
  pub record IsComplete (msg : MsgCreateValidator) : Type 0 where
    pub has_description : (d : Description) × (msg.description ≡ some d)
    pub has_rates :
        (k : ℕ) × (m : ℕ) × (n : ℕ) × (msg.commission
          ≡ some (record {
            rate = to_decimal k;
            max_rate = to_decimal m;
            max_change_rate = to_decimal n;
          }))
    pub has_pubkey :
        (p : Pubkey) × (any : Any) × (msg.pubkey ≡ some any)
        × (decode_pubkey b64 proto any ≡ ok p)
        × (encode_pubkey b64 proto p ≡ ok any)
    pub has_value : (c : Coin) × (msg.value ≡ some c)

  -- A complete message that creates a validator is read back from Amino JSON, its key included.
  pub create_back :
      (msg : MsgCreateValidator)
      → IsComplete msg
      → (amino : AminoMsgCreateValidator) × (create_to_amino msg ≡ ok amino)
        × (create_from_amino amino ≡ ok msg)
  unfolding create_to_amino create_from_amino
  create_back msg h =
      let (d, description) = h.has_description in
      let (k, m, n, commission) = h.has_rates in
      let (p, any, pubkey, decoded, encoded) = h.has_pubkey in
      let (coin, value) = h.has_value in
      let (rates, there, back) = rates_back bn k m n in
      (
        record {
          amino_description = description_to_amino d;
          amino_commission = rates;
          amino_min_self_delegation = msg.min_self_delegation;
          amino_delegator_address = msg.delegator_address;
          amino_validator_address = msg.validator_address;
          amino_pubkey = p;
          amino_value = coin;
        },
        rw (description, commission, pubkey, value, there, decoded) refl,
        rw (back, encoded, ← description, ← commission, ← pubkey, ← value) refl,
      )
