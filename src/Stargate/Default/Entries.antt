-- ===== src/Stargate/Default/Entries.antt =====
-- packages/stargate/src/modules/*/aminomessages.ts: the entries of the register.
use cosmjs.Prelude.{◌≡◌, refl, Option, none, some, Result, ◌>>=◌, ok, throws, Text, codes}
use cosmjs.Prelude.Int.{ℤ}
use cosmjs.Math.BigNumber.{BigNumber}
use cosmjs.Encoding.Base64.{Base64Js}
use cosmjs.ProtoSigning.Pubkey.{ProtoKeys}
use cosmjs.Stargate.AminoTypes.{AminoConverter}
use cosmjs.Stargate.Modules.Bank.{
  MsgSend, AminoMsgSend, MsgMultiSend, AminoMsgMultiSend, send_to_amino, send_from_amino,
  multi_send_to_amino, multi_send_from_amino,
}
use cosmjs.Stargate.Modules.Distribution.{
  MsgFundCommunityPool, AminoMsgFundCommunityPool, MsgSetWithdrawAddress,
  AminoMsgSetWithdrawAddress, MsgWithdrawDelegatorReward, AminoMsgWithdrawDelegatorReward,
  MsgWithdrawValidatorCommission, AminoMsgWithdrawValidatorCommission, fund_to_amino,
  fund_from_amino, set_withdraw_to_amino, set_withdraw_from_amino, reward_to_amino,
  reward_from_amino, commission_to_amino, commission_from_amino,
}
use cosmjs.Stargate.Modules.Gov.{
  MsgDeposit, AminoMsgDeposit, MsgVote, AminoMsgVote, MsgVoteWeighted, AminoMsgVoteWeighted,
  deposit_to_amino, deposit_from_amino, vote_to_amino, vote_from_amino, weighted_to_amino,
  weighted_from_amino,
}
use cosmjs.Stargate.Modules.Gov.Proposal.{
  MsgSubmitProposal, AminoMsgSubmitProposal, TextProposals, submit_to_amino, submit_from_amino,
}
use cosmjs.Stargate.Modules.Staking.{
  MsgBeginRedelegate, AminoMsgBeginRedelegate, MsgDelegate, AminoMsgDelegate, MsgEditValidator,
  AminoMsgEditValidator, MsgCancelUnbondingDelegation, AminoMsgCancelUnbondingDelegation,
  redelegate_to_amino, redelegate_from_amino, delegate_to_amino, delegate_from_amino, edit_to_amino,
  edit_from_amino, cancel_to_amino, cancel_from_amino,
}
use cosmjs.Stargate.Modules.Staking.Create.{
  MsgCreateValidator, AminoMsgCreateValidator, create_to_amino, create_from_amino,
}
use cosmjs.Stargate.Modules.Ibc.{
  MsgTransfer, AminoMsgTransfer, transfer_to_amino, transfer_from_amino,
}
use cosmjs.Stargate.Modules.Vesting.{
  MsgCreateVestingAccount, AminoMsgCreateVestingAccount, vesting_to_amino, vesting_from_amino,
}
use cosmjs.Stargate.Default.Messages.{
  Message, AminoValue, send, amino_send, get_send, get_amino_send, multi_send, amino_multi_send,
  get_multi_send, get_amino_multi_send, fund, amino_fund, get_fund, get_amino_fund, set_withdraw,
  amino_set_withdraw, get_set_withdraw, get_amino_set_withdraw, reward, amino_reward, get_reward,
  get_amino_reward, commission, amino_commission, get_commission, get_amino_commission, deposit,
  amino_deposit, get_deposit, get_amino_deposit, vote, amino_vote, get_vote, get_amino_vote,
  vote_weighted, amino_vote_weighted, get_vote_weighted, get_amino_vote_weighted, submit,
  amino_submit, get_submit, get_amino_submit, begin_redelegate, amino_begin_redelegate,
  get_begin_redelegate, get_amino_begin_redelegate, create_validator, amino_create_validator,
  get_create_validator, get_amino_create_validator, delegate, amino_delegate, get_delegate,
  get_amino_delegate, edit_validator, amino_edit_validator, get_edit_validator,
  get_amino_edit_validator, undelegate, amino_undelegate, get_undelegate, get_amino_undelegate,
  cancel_unbonding, amino_cancel_unbonding, get_cancel_unbonding, get_amino_cancel_unbonding,
  transfer, amino_transfer, get_transfer, get_amino_transfer, create_vesting, amino_create_vesting,
  get_create_vesting, get_amino_create_vesting,
}

-- The packages that the code calls.
pub record Environment : Type 1 where
  pub bn : BigNumber
  pub b64 : Base64Js
  pub proto : ProtoKeys
  pub proposals : TextProposals
  pub vote_option_from_json : ℤ → ℤ

-- An entry: its type URL, its Amino type and its two functions, between messages of the type A and
-- values of the type B.
pub record Kind (A B : Type 0) : Type 0 where
  pub url : Text
  pub amino_type : Text
  pub get : Message → Option A
  pub put : A → Message
  pub get_amino : AminoValue → Option B
  pub put_amino : B → AminoValue
  pub convert : A → Result B
  pub convert_back : B → Result A
  pub get-put : (a : A) → get (put a) ≡ some a
  pub get_amino-put_amino : (b : B) → get_amino (put_amino b) ≡ some b

abbrev pub wanted : {A : Type 0} → Option A → Result A
wanted none = throws "a value of another message type"
wanted (some x) = ok x

abbrev pub converter : {A B : Type 0} → Kind A B → AminoConverter Message AminoValue
converter kind = record {
  amino_type = kind.amino_type;
  to_amino_value = λ message. do
    a ← wanted (kind.get message)
    b ← kind.convert a
    ok (kind.put_amino b);
  from_amino_value = λ json. do
    b ← wanted (kind.get_amino json)
    a ← kind.convert_back b
    ok (kind.put a);
}

abbrev pub entry : {A B : Type 0} → Kind A B → Text × AminoConverter Message AminoValue
entry kind = (kind.url, converter kind)

module _ (env : Environment) where
  abbrev pub send_kind : Kind MsgSend AminoMsgSend
  send_kind = record {
    url = codes "/cosmos.bank.v1beta1.MsgSend";
    amino_type = codes "cosmos-sdk/MsgSend";
    get = get_send;
    put = send;
    get_amino = get_amino_send;
    put_amino = amino_send;
    convert = λ x. ok (send_to_amino x);
    convert_back = λ x. ok (send_from_amino x);
    get-put = λ x. refl;
    get_amino-put_amino = λ x. refl;
  }

  abbrev pub multi_send_kind : Kind MsgMultiSend AminoMsgMultiSend
  multi_send_kind = record {
    url = codes "/cosmos.bank.v1beta1.MsgMultiSend";
    amino_type = codes "cosmos-sdk/MsgMultiSend";
    get = get_multi_send;
    put = multi_send;
    get_amino = get_amino_multi_send;
    put_amino = amino_multi_send;
    convert = λ x. ok (multi_send_to_amino x);
    convert_back = λ x. ok (multi_send_from_amino x);
    get-put = λ x. refl;
    get_amino-put_amino = λ x. refl;
  }

  abbrev pub fund_kind : Kind MsgFundCommunityPool AminoMsgFundCommunityPool
  fund_kind = record {
    url = codes "/cosmos.distribution.v1beta1.MsgFundCommunityPool";
    amino_type = codes "cosmos-sdk/MsgFundCommunityPool";
    get = get_fund;
    put = fund;
    get_amino = get_amino_fund;
    put_amino = amino_fund;
    convert = λ x. ok (fund_to_amino x);
    convert_back = λ x. ok (fund_from_amino x);
    get-put = λ x. refl;
    get_amino-put_amino = λ x. refl;
  }

  abbrev pub set_withdraw_kind : Kind MsgSetWithdrawAddress AminoMsgSetWithdrawAddress
  set_withdraw_kind = record {
    url = codes "/cosmos.distribution.v1beta1.MsgSetWithdrawAddress";
    amino_type = codes "cosmos-sdk/MsgModifyWithdrawAddress";
    get = get_set_withdraw;
    put = set_withdraw;
    get_amino = get_amino_set_withdraw;
    put_amino = amino_set_withdraw;
    convert = λ x. ok (set_withdraw_to_amino x);
    convert_back = λ x. ok (set_withdraw_from_amino x);
    get-put = λ x. refl;
    get_amino-put_amino = λ x. refl;
  }

  abbrev pub reward_kind : Kind MsgWithdrawDelegatorReward AminoMsgWithdrawDelegatorReward
  reward_kind = record {
    url = codes "/cosmos.distribution.v1beta1.MsgWithdrawDelegatorReward";
    amino_type = codes "cosmos-sdk/MsgWithdrawDelegationReward";
    get = get_reward;
    put = reward;
    get_amino = get_amino_reward;
    put_amino = amino_reward;
    convert = λ x. ok (reward_to_amino x);
    convert_back = λ x. ok (reward_from_amino x);
    get-put = λ x. refl;
    get_amino-put_amino = λ x. refl;
  }

  abbrev pub commission_kind :
      Kind MsgWithdrawValidatorCommission AminoMsgWithdrawValidatorCommission
  commission_kind = record {
    url = codes "/cosmos.distribution.v1beta1.MsgWithdrawValidatorCommission";
    amino_type = codes "cosmos-sdk/MsgWithdrawValidatorCommission";
    get = get_commission;
    put = commission;
    get_amino = get_amino_commission;
    put_amino = amino_commission;
    convert = λ x. ok (commission_to_amino x);
    convert_back = λ x. ok (commission_from_amino x);
    get-put = λ x. refl;
    get_amino-put_amino = λ x. refl;
  }

  abbrev pub deposit_kind : Kind MsgDeposit AminoMsgDeposit
  deposit_kind = record {
    url = codes "/cosmos.gov.v1beta1.MsgDeposit";
    amino_type = codes "cosmos-sdk/MsgDeposit";
    get = get_deposit;
    put = deposit;
    get_amino = get_amino_deposit;
    put_amino = amino_deposit;
    convert = λ x. ok (deposit_to_amino x);
    convert_back = deposit_from_amino;
    get-put = λ x. refl;
    get_amino-put_amino = λ x. refl;
  }

  abbrev pub vote_kind : Kind MsgVote AminoMsgVote
  vote_kind = record {
    url = codes "/cosmos.gov.v1beta1.MsgVote";
    amino_type = codes "cosmos-sdk/MsgVote";
    get = get_vote;
    put = vote;
    get_amino = get_amino_vote;
    put_amino = amino_vote;
    convert = λ x. ok (vote_to_amino x);
    convert_back = vote_from_amino env.vote_option_from_json;
    get-put = λ x. refl;
    get_amino-put_amino = λ x. refl;
  }

  abbrev pub vote_weighted_kind : Kind MsgVoteWeighted AminoMsgVoteWeighted
  vote_weighted_kind = record {
    url = codes "/cosmos.gov.v1beta1.MsgVoteWeighted";
    amino_type = codes "cosmos-sdk/MsgVoteWeighted";
    get = get_vote_weighted;
    put = vote_weighted;
    get_amino = get_amino_vote_weighted;
    put_amino = amino_vote_weighted;
    convert = weighted_to_amino env.bn;
    convert_back = weighted_from_amino env.bn env.vote_option_from_json;
    get-put = λ x. refl;
    get_amino-put_amino = λ x. refl;
  }

  abbrev pub submit_kind : Kind MsgSubmitProposal AminoMsgSubmitProposal
  submit_kind = record {
    url = codes "/cosmos.gov.v1beta1.MsgSubmitProposal";
    amino_type = codes "cosmos-sdk/MsgSubmitProposal";
    get = get_submit;
    put = submit;
    get_amino = get_amino_submit;
    put_amino = amino_submit;
    convert = submit_to_amino env.proposals;
    convert_back = submit_from_amino env.proposals;
    get-put = λ x. refl;
    get_amino-put_amino = λ x. refl;
  }

  abbrev pub begin_redelegate_kind : Kind MsgBeginRedelegate AminoMsgBeginRedelegate
  begin_redelegate_kind = record {
    url = codes "/cosmos.staking.v1beta1.MsgBeginRedelegate";
    amino_type = codes "cosmos-sdk/MsgBeginRedelegate";
    get = get_begin_redelegate;
    put = begin_redelegate;
    get_amino = get_amino_begin_redelegate;
    put_amino = amino_begin_redelegate;
    convert = redelegate_to_amino;
    convert_back = λ x. ok (redelegate_from_amino x);
    get-put = λ x. refl;
    get_amino-put_amino = λ x. refl;
  }

  abbrev pub create_validator_kind : Kind MsgCreateValidator AminoMsgCreateValidator
  create_validator_kind = record {
    url = codes "/cosmos.staking.v1beta1.MsgCreateValidator";
    amino_type = codes "cosmos-sdk/MsgCreateValidator";
    get = get_create_validator;
    put = create_validator;
    get_amino = get_amino_create_validator;
    put_amino = amino_create_validator;
    convert = create_to_amino env.bn env.b64 env.proto;
    convert_back = create_from_amino env.bn env.b64 env.proto;
    get-put = λ x. refl;
    get_amino-put_amino = λ x. refl;
  }

  abbrev pub delegate_kind : Kind MsgDelegate AminoMsgDelegate
  delegate_kind = record {
    url = codes "/cosmos.staking.v1beta1.MsgDelegate";
    amino_type = codes "cosmos-sdk/MsgDelegate";
    get = get_delegate;
    put = delegate;
    get_amino = get_amino_delegate;
    put_amino = amino_delegate;
    convert = delegate_to_amino;
    convert_back = λ x. ok (delegate_from_amino x);
    get-put = λ x. refl;
    get_amino-put_amino = λ x. refl;
  }

  abbrev pub edit_validator_kind : Kind MsgEditValidator AminoMsgEditValidator
  edit_validator_kind = record {
    url = codes "/cosmos.staking.v1beta1.MsgEditValidator";
    amino_type = codes "cosmos-sdk/MsgEditValidator";
    get = get_edit_validator;
    put = edit_validator;
    get_amino = get_amino_edit_validator;
    put_amino = amino_edit_validator;
    convert = edit_to_amino env.bn;
    convert_back = edit_from_amino env.bn;
    get-put = λ x. refl;
    get_amino-put_amino = λ x. refl;
  }

  abbrev pub undelegate_kind : Kind MsgDelegate AminoMsgDelegate
  undelegate_kind = record {
    url = codes "/cosmos.staking.v1beta1.MsgUndelegate";
    amino_type = codes "cosmos-sdk/MsgUndelegate";
    get = get_undelegate;
    put = undelegate;
    get_amino = get_amino_undelegate;
    put_amino = amino_undelegate;
    convert = delegate_to_amino;
    convert_back = λ x. ok (delegate_from_amino x);
    get-put = λ x. refl;
    get_amino-put_amino = λ x. refl;
  }

  abbrev pub cancel_unbonding_kind :
      Kind MsgCancelUnbondingDelegation AminoMsgCancelUnbondingDelegation
  cancel_unbonding_kind = record {
    url = codes "/cosmos.staking.v1beta1.MsgCancelUnbondingDelegation";
    amino_type = codes "cosmos-sdk/MsgCancelUnbondingDelegation";
    get = get_cancel_unbonding;
    put = cancel_unbonding;
    get_amino = get_amino_cancel_unbonding;
    put_amino = amino_cancel_unbonding;
    convert = cancel_to_amino;
    convert_back = cancel_from_amino;
    get-put = λ x. refl;
    get_amino-put_amino = λ x. refl;
  }

  abbrev pub transfer_kind : Kind MsgTransfer AminoMsgTransfer
  transfer_kind = record {
    url = codes "/ibc.applications.transfer.v1.MsgTransfer";
    amino_type = codes "cosmos-sdk/MsgTransfer";
    get = get_transfer;
    put = transfer;
    get_amino = get_amino_transfer;
    put_amino = amino_transfer;
    convert = λ x. ok (transfer_to_amino x);
    convert_back = transfer_from_amino;
    get-put = λ x. refl;
    get_amino-put_amino = λ x. refl;
  }

  abbrev pub create_vesting_kind : Kind MsgCreateVestingAccount AminoMsgCreateVestingAccount
  create_vesting_kind = record {
    url = codes "/cosmos.vesting.v1beta1.MsgCreateVestingAccount";
    amino_type = codes "cosmos-sdk/MsgCreateVestingAccount";
    get = get_create_vesting;
    put = create_vesting;
    get_amino = get_amino_create_vesting;
    put_amino = amino_create_vesting;
    convert = λ x. ok (vesting_to_amino x);
    convert_back = vesting_from_amino;
    get-put = λ x. refl;
    get_amino-put_amino = λ x. refl;
  }
