-- ===== src/Stargate/Modules/Staking/RoundTrip.antt =====
-- Staking messages are read back from Amino JSON.
use cosmjs.Prelude.{
  ℕ, ◌≡◌, refl, ◌∙◌, ◌≢◌, ◌⊎◌, inl, inr, Option, none, some, [], ◌∷◌, ok, Text, to_decimal,
}
use cosmjs.Math.Number.{int_to_string}
use cosmjs.Math.BigNumber.{BigNumber}
use cosmjs.Amino.Coins.{Coin}
use cosmjs.Stargate.BigInt.{big_int-int_to_string}
use cosmjs.Stargate.DecimalText.{proto_decimal_to_json, json_decimal_to_proto}
use cosmjs.Stargate.DecimalText.RoundTrip.{json_text, json_decimal_to_proto-proto_decimal_to_json}
use cosmjs.Stargate.Modules.Staking.{
  Description, CommissionRates, MsgDelegate, AminoMsgDelegate, MsgBeginRedelegate,
  AminoMsgBeginRedelegate, MsgCancelUnbondingDelegation, AminoMsgCancelUnbondingDelegation,
  MsgEditValidator, AminoMsgEditValidator, description_to_amino, delegate_to_amino,
  delegate_from_amino, redelegate_to_amino, redelegate_from_amino, cancel_to_amino,
  cancel_from_amino, edit_to_amino, edit_from_amino, rates_to_amino, rates_from_amino, unless_empty,
  text_or_empty, unless_absent, rate_or_empty,
}

pub delegate_back :
    (msg : MsgDelegate) (coin : Coin)
    → msg.amount ≡ some coin
    → (amino : AminoMsgDelegate) × (delegate_to_amino msg ≡ ok amino)
      × (delegate_from_amino amino ≡ msg)
unfolding delegate_to_amino delegate_from_amino
delegate_back msg coin given = (
  record {
    amino_delegator_address = msg.delegator_address;
    amino_validator_address = msg.validator_address;
    amino_amount = coin;
  },
  rw given refl,
  rw (← given) refl,
)

pub redelegate_back :
    (msg : MsgBeginRedelegate) (coin : Coin)
    → msg.redelegated ≡ some coin
    → (amino : AminoMsgBeginRedelegate) × (redelegate_to_amino msg ≡ ok amino)
      × (redelegate_from_amino amino ≡ msg)
unfolding redelegate_to_amino redelegate_from_amino
redelegate_back msg coin given = (
  record {
    amino_redelegator_address = msg.redelegator_address;
    amino_validator_src_address = msg.validator_src_address;
    amino_validator_dst_address = msg.validator_dst_address;
    amino_redelegated = coin;
  },
  rw given refl,
  rw (← given) refl,
)

pub cancel_back :
    (msg : MsgCancelUnbondingDelegation) (coin : Coin)
    → msg.unbonding.amount ≡ some coin
    → (amino : AminoMsgCancelUnbondingDelegation) × (cancel_to_amino msg ≡ ok amino)
      × (cancel_from_amino amino ≡ ok msg)
unfolding cancel_to_amino cancel_from_amino
cancel_back msg coin given =
    let (unbonding, there, back) = delegate_back msg.unbonding coin given in
    (
      record {
        amino_unbonding = unbonding;
        amino_creation_height = int_to_string msg.creation_height;
      },
      rw there refl,
      rw (big_int-int_to_string msg.creation_height, back) refl,
    )

unless_empty_back : (s : Text) → text_or_empty (unless_empty s) ≡ s
unless_empty_back [] = refl
unless_empty_back (c ∷ s) = refl

read_rate :
    (bn : BigNumber) (s : Text)
    → s ≢ []
    → rate_or_empty (json_decimal_to_proto bn) (some s) ≡ json_decimal_to_proto bn s
read_rate bn [] h = absurd (h refl)
read_rate bn (c ∷ s) h = refl

-- A rate: empty, or a number in decimal notation.
rate_back :
    (bn : BigNumber) (rate : Text)
    → (rate ≡ []) ⊎ ((m : ℕ) × (rate ≡ to_decimal m))
    → (amino : Option Text) × (unless_absent (proto_decimal_to_json bn) (unless_empty rate)
        ≡ ok amino)
      × (rate_or_empty (json_decimal_to_proto bn) amino ≡ ok rate)
rate_back bn [] h = (none, refl, refl)
rate_back bn (c ∷ s) (inl e) = absurd cc
rate_back bn (c ∷ s) (inr (m, e)) =
    let (json, there, back, nonempty) = json_text bn m in
    (some json, rw (rw (← e) at there) refl, read_rate bn json nonempty ∙ rw (← e) at back)

-- An edit of a validator with a description, whose commission rate is empty, for no change, or a
-- number of units of 10^-18, is read back from Amino JSON.
pub edit_back :
    (bn : BigNumber) (msg : MsgEditValidator) (description : Description)
    → msg.edited ≡ some description
    → (msg.commission_rate ≡ []) ⊎ ((m : ℕ) × (msg.commission_rate ≡ to_decimal m))
    → (amino : AminoMsgEditValidator) × (edit_to_amino bn msg ≡ ok amino)
      × (edit_from_amino bn amino ≡ ok msg)
unfolding edit_to_amino edit_from_amino
edit_back bn msg description given rate =
    let (json, there, back) = rate_back bn msg.commission_rate rate in
    (
      record {
        amino_edited = description_to_amino description;
        amino_commission_rate = json;
        amino_edited_self_delegation = unless_empty msg.edited_self_delegation;
        amino_edited_address = msg.edited_address;
      },
      rw (given, there) refl,
      rw (back, unless_empty_back msg.edited_self_delegation, ← given) refl,
    )

-- Commission rates that are numbers of units of 10^-18 are read back from Amino JSON.
pub rates_back :
    (bn : BigNumber) (k m n : ℕ)
    → (amino : CommissionRates) × (rates_to_amino bn
          (record { rate = to_decimal k; max_rate = to_decimal m; max_change_rate = to_decimal n })
        ≡ ok amino)
      × (rates_from_amino bn amino
          ≡ ok (record {
            rate = to_decimal k;
            max_rate = to_decimal m;
            max_change_rate = to_decimal n;
          }))
unfolding rates_to_amino rates_from_amino
rates_back bn k m n =
    let (s, s_there, s_back) = json_decimal_to_proto-proto_decimal_to_json bn k in
    let (t, t_there, t_back) = json_decimal_to_proto-proto_decimal_to_json bn m in
    let (u, u_there, u_back) = json_decimal_to_proto-proto_decimal_to_json bn n in
    (
      record { rate = s; max_rate = t; max_change_rate = u },
      rw (s_there, t_there, u_there) refl,
      rw (s_back, t_back, u_back) refl,
    )
