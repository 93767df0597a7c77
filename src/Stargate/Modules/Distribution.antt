-- ===== src/Stargate/Modules/Distribution.antt =====
-- packages/stargate/src/modules/distribution/aminomessages.ts
use cosmjs.Prelude.{◌≡◌, refl, List, Text}
use cosmjs.Amino.Coins.{Coin}

pub record MsgFundCommunityPool : Type 0 where
  pub amount : List Coin
  pub depositor : Text

pub record AminoMsgFundCommunityPool : Type 0 where
  pub amino_amount : List Coin
  pub amino_depositor : Text

pub record MsgSetWithdrawAddress : Type 0 where
  pub delegator_address : Text
  pub withdraw_address : Text

pub record AminoMsgSetWithdrawAddress : Type 0 where
  pub amino_delegator_address : Text
  pub amino_withdraw_address : Text

pub record MsgWithdrawDelegatorReward : Type 0 where
  pub reward_delegator_address : Text
  pub reward_validator_address : Text

pub record AminoMsgWithdrawDelegatorReward : Type 0 where
  pub amino_reward_delegator_address : Text
  pub amino_reward_validator_address : Text

pub record MsgWithdrawValidatorCommission : Type 0 where
  pub validator_address : Text

pub record AminoMsgWithdrawValidatorCommission : Type 0 where
  pub amino_validator_address : Text

unfoldable pub fund_to_amino : MsgFundCommunityPool → AminoMsgFundCommunityPool
fund_to_amino msg = record { amino_amount = msg.amount; amino_depositor = msg.depositor }

unfoldable pub fund_from_amino : AminoMsgFundCommunityPool → MsgFundCommunityPool
fund_from_amino msg = record { amount = msg.amino_amount; depositor = msg.amino_depositor }

unfoldable pub set_withdraw_to_amino : MsgSetWithdrawAddress → AminoMsgSetWithdrawAddress
set_withdraw_to_amino msg = record {
  amino_delegator_address = msg.delegator_address;
  amino_withdraw_address = msg.withdraw_address;
}

unfoldable pub set_withdraw_from_amino : AminoMsgSetWithdrawAddress → MsgSetWithdrawAddress
set_withdraw_from_amino msg = record {
  delegator_address = msg.amino_delegator_address;
  withdraw_address = msg.amino_withdraw_address;
}

unfoldable pub reward_to_amino : MsgWithdrawDelegatorReward → AminoMsgWithdrawDelegatorReward
reward_to_amino msg = record {
  amino_reward_delegator_address = msg.reward_delegator_address;
  amino_reward_validator_address = msg.reward_validator_address;
}

unfoldable pub reward_from_amino : AminoMsgWithdrawDelegatorReward → MsgWithdrawDelegatorReward
reward_from_amino msg = record {
  reward_delegator_address = msg.amino_reward_delegator_address;
  reward_validator_address = msg.amino_reward_validator_address;
}

unfoldable pub commission_to_amino :
    MsgWithdrawValidatorCommission → AminoMsgWithdrawValidatorCommission
commission_to_amino msg = record { amino_validator_address = msg.validator_address }

unfoldable pub commission_from_amino :
    AminoMsgWithdrawValidatorCommission → MsgWithdrawValidatorCommission
commission_from_amino msg = record { validator_address = msg.amino_validator_address }

pub fund_back : (msg : MsgFundCommunityPool) → fund_from_amino (fund_to_amino msg) ≡ msg
unfolding fund_from_amino fund_to_amino
fund_back msg = refl

pub set_withdraw_back :
    (msg : MsgSetWithdrawAddress) → set_withdraw_from_amino (set_withdraw_to_amino msg) ≡ msg
unfolding set_withdraw_from_amino set_withdraw_to_amino
set_withdraw_back msg = refl

pub reward_back : (msg : MsgWithdrawDelegatorReward) → reward_from_amino (reward_to_amino msg) ≡ msg
unfolding reward_from_amino reward_to_amino
reward_back msg = refl

pub commission_back :
    (msg : MsgWithdrawValidatorCommission) → commission_from_amino (commission_to_amino msg) ≡ msg
unfolding commission_from_amino commission_to_amino
commission_back msg = refl
