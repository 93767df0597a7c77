-- ===== src/Stargate/Default/Messages.antt =====
-- The messages of all modules, in protobuf and in Amino JSON, and the test for each.
use cosmjs.Prelude.{Option, none, some}
use cosmjs.Stargate.Modules.Bank.{MsgSend, AminoMsgSend, MsgMultiSend, AminoMsgMultiSend}
use cosmjs.Stargate.Modules.Distribution.{
  MsgFundCommunityPool, AminoMsgFundCommunityPool, MsgSetWithdrawAddress,
  AminoMsgSetWithdrawAddress, MsgWithdrawDelegatorReward, AminoMsgWithdrawDelegatorReward,
  MsgWithdrawValidatorCommission, AminoMsgWithdrawValidatorCommission,
}
use cosmjs.Stargate.Modules.Gov.{
  MsgDeposit, AminoMsgDeposit, MsgVote, AminoMsgVote, MsgVoteWeighted, AminoMsgVoteWeighted,
}
use cosmjs.Stargate.Modules.Gov.Proposal.{MsgSubmitProposal, AminoMsgSubmitProposal}
use cosmjs.Stargate.Modules.Staking.{
  MsgBeginRedelegate, AminoMsgBeginRedelegate, MsgDelegate, AminoMsgDelegate, MsgEditValidator,
  AminoMsgEditValidator, MsgCancelUnbondingDelegation, AminoMsgCancelUnbondingDelegation,
}
use cosmjs.Stargate.Modules.Staking.Create.{MsgCreateValidator, AminoMsgCreateValidator}
use cosmjs.Stargate.Modules.Ibc.{MsgTransfer, AminoMsgTransfer}
use cosmjs.Stargate.Modules.Vesting.{MsgCreateVestingAccount, AminoMsgCreateVestingAccount}

pub data Message : Type 0 where
  send : MsgSend → Message
  multi_send : MsgMultiSend → Message
  fund : MsgFundCommunityPool → Message
  set_withdraw : MsgSetWithdrawAddress → Message
  reward : MsgWithdrawDelegatorReward → Message
  commission : MsgWithdrawValidatorCommission → Message
  deposit : MsgDeposit → Message
  vote : MsgVote → Message
  vote_weighted : MsgVoteWeighted → Message
  submit : MsgSubmitProposal → Message
  begin_redelegate : MsgBeginRedelegate → Message
  create_validator : MsgCreateValidator → Message
  delegate : MsgDelegate → Message
  edit_validator : MsgEditValidator → Message
  undelegate : MsgDelegate → Message
  cancel_unbonding : MsgCancelUnbondingDelegation → Message
  transfer : MsgTransfer → Message
  create_vesting : MsgCreateVestingAccount → Message

pub data AminoValue : Type 0 where
  amino_send : AminoMsgSend → AminoValue
  amino_multi_send : AminoMsgMultiSend → AminoValue
  amino_fund : AminoMsgFundCommunityPool → AminoValue
  amino_set_withdraw : AminoMsgSetWithdrawAddress → AminoValue
  amino_reward : AminoMsgWithdrawDelegatorReward → AminoValue
  amino_commission : AminoMsgWithdrawValidatorCommission → AminoValue
  amino_deposit : AminoMsgDeposit → AminoValue
  amino_vote : AminoMsgVote → AminoValue
  amino_vote_weighted : AminoMsgVoteWeighted → AminoValue
  amino_submit : AminoMsgSubmitProposal → AminoValue
  amino_begin_redelegate : AminoMsgBeginRedelegate → AminoValue
  amino_create_validator : AminoMsgCreateValidator → AminoValue
  amino_delegate : AminoMsgDelegate → AminoValue
  amino_edit_validator : AminoMsgEditValidator → AminoValue
  amino_undelegate : AminoMsgDelegate → AminoValue
  amino_cancel_unbonding : AminoMsgCancelUnbondingDelegation → AminoValue
  amino_transfer : AminoMsgTransfer → AminoValue
  amino_create_vesting : AminoMsgCreateVestingAccount → AminoValue

abbrev pub get_send : Message → Option MsgSend
get_send (send msg) = some msg
get_send other = none

abbrev pub get_amino_send : AminoValue → Option AminoMsgSend
get_amino_send (amino_send msg) = some msg
get_amino_send other = none

abbrev pub get_multi_send : Message → Option MsgMultiSend
get_multi_send (multi_send msg) = some msg
get_multi_send other = none

abbrev pub get_amino_multi_send : AminoValue → Option AminoMsgMultiSend
get_amino_multi_send (amino_multi_send msg) = some msg
get_amino_multi_send other = none

abbrev pub get_fund : Message → Option MsgFundCommunityPool
get_fund (fund msg) = some msg
get_fund other = none

abbrev pub get_amino_fund : AminoValue → Option AminoMsgFundCommunityPool
get_amino_fund (amino_fund msg) = some msg
get_amino_fund other = none

abbrev pub get_set_withdraw : Message → Option MsgSetWithdrawAddress
get_set_withdraw (set_withdraw msg) = some msg
get_set_withdraw other = none

abbrev pub get_amino_set_withdraw : AminoValue → Option AminoMsgSetWithdrawAddress
get_amino_set_withdraw (amino_set_withdraw msg) = some msg
get_amino_set_withdraw other = none

abbrev pub get_reward : Message → Option MsgWithdrawDelegatorReward
get_reward (reward msg) = some msg
get_reward other = none

abbrev pub get_amino_reward : AminoValue → Option AminoMsgWithdrawDelegatorReward
get_amino_reward (amino_reward msg) = some msg
get_amino_reward other = none

abbrev pub get_commission : Message → Option MsgWithdrawValidatorCommission
get_commission (commission msg) = some msg
get_commission other = none

abbrev pub get_amino_commission : AminoValue → Option AminoMsgWithdrawValidatorCommission
get_amino_commission (amino_commission msg) = some msg
get_amino_commission other = none

abbrev pub get_deposit : Message → Option MsgDeposit
get_deposit (deposit msg) = some msg
get_deposit other = none

abbrev pub get_amino_deposit : AminoValue → Option AminoMsgDeposit
get_amino_deposit (amino_deposit msg) = some msg
get_amino_deposit other = none

abbrev pub get_vote : Message → Option MsgVote
get_vote (vote msg) = some msg
get_vote other = none

abbrev pub get_amino_vote : AminoValue → Option AminoMsgVote
get_amino_vote (amino_vote msg) = some msg
get_amino_vote other = none

abbrev pub get_vote_weighted : Message → Option MsgVoteWeighted
get_vote_weighted (vote_weighted msg) = some msg
get_vote_weighted other = none

abbrev pub get_amino_vote_weighted : AminoValue → Option AminoMsgVoteWeighted
get_amino_vote_weighted (amino_vote_weighted msg) = some msg
get_amino_vote_weighted other = none

abbrev pub get_submit : Message → Option MsgSubmitProposal
get_submit (submit msg) = some msg
get_submit other = none

abbrev pub get_amino_submit : AminoValue → Option AminoMsgSubmitProposal
get_amino_submit (amino_submit msg) = some msg
get_amino_submit other = none

abbrev pub get_begin_redelegate : Message → Option MsgBeginRedelegate
get_begin_redelegate (begin_redelegate msg) = some msg
get_begin_redelegate other = none

abbrev pub get_amino_begin_redelegate : AminoValue → Option AminoMsgBeginRedelegate
get_amino_begin_redelegate (amino_begin_redelegate msg) = some msg
get_amino_begin_redelegate other = none

abbrev pub get_create_validator : Message → Option MsgCreateValidator
get_create_validator (create_validator msg) = some msg
get_create_validator other = none

abbrev pub get_amino_create_validator : AminoValue → Option AminoMsgCreateValidator
get_amino_create_validator (amino_create_validator msg) = some msg
get_amino_create_validator other = none

abbrev pub get_delegate : Message → Option MsgDelegate
get_delegate (delegate msg) = some msg
get_delegate other = none

abbrev pub get_amino_delegate : AminoValue → Option AminoMsgDelegate
get_amino_delegate (amino_delegate msg) = some msg
get_amino_delegate other = none

abbrev pub get_edit_validator : Message → Option MsgEditValidator
get_edit_validator (edit_validator msg) = some msg
get_edit_validator other = none

abbrev pub get_amino_edit_validator : AminoValue → Option AminoMsgEditValidator
get_amino_edit_validator (amino_edit_validator msg) = some msg
get_amino_edit_validator other = none

abbrev pub get_undelegate : Message → Option MsgDelegate
get_undelegate (undelegate msg) = some msg
get_undelegate other = none

abbrev pub get_amino_undelegate : AminoValue → Option AminoMsgDelegate
get_amino_undelegate (amino_undelegate msg) = some msg
get_amino_undelegate other = none

abbrev pub get_cancel_unbonding : Message → Option MsgCancelUnbondingDelegation
get_cancel_unbonding (cancel_unbonding msg) = some msg
get_cancel_unbonding other = none

abbrev pub get_amino_cancel_unbonding : AminoValue → Option AminoMsgCancelUnbondingDelegation
get_amino_cancel_unbonding (amino_cancel_unbonding msg) = some msg
get_amino_cancel_unbonding other = none

abbrev pub get_transfer : Message → Option MsgTransfer
get_transfer (transfer msg) = some msg
get_transfer other = none

abbrev pub get_amino_transfer : AminoValue → Option AminoMsgTransfer
get_amino_transfer (amino_transfer msg) = some msg
get_amino_transfer other = none

abbrev pub get_create_vesting : Message → Option MsgCreateVestingAccount
get_create_vesting (create_vesting msg) = some msg
get_create_vesting other = none

abbrev pub get_amino_create_vesting : AminoValue → Option AminoMsgCreateVestingAccount
get_amino_create_vesting (amino_create_vesting msg) = some msg
get_amino_create_vesting other = none
