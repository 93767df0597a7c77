-- ===== src/Stargate/Modules/Gov.antt =====
-- packages/stargate/src/modules/gov/aminomessages.ts: votes and deposits. `voteOptionFromJSON` of
-- cosmjs-types is a parameter.
pub mod Weights
pub mod Proposal
use cosmjs.Prelude.{List, [], ◌∷◌, Result, ◌>>=◌, ◌>>◌, ok, Text}
use cosmjs.Prelude.Int.{ℤ, pos}
use cosmjs.Math.Number.{int, int_to_string}
use cosmjs.Math.BigNumber.{BigNumber}
use cosmjs.Math.Decimal.{from_user_input, atomics_text, to_string, pad_end}
use cosmjs.Amino.Coins.{Coin}
use cosmjs.Stargate.BigInt.{big_int}
use cosmjs.Stargate.DecimalText.{decode_cosmos_sdk_dec_from_proto}

pub record MsgDeposit : Type 0 where
  pub proposal_id : ℤ
  pub depositor : Text
  pub amount : List Coin

pub record AminoMsgDeposit : Type 0 where
  pub amino_proposal_id : Text
  pub amino_depositor : Text
  pub amino_amount : List Coin

pub record MsgVote : Type 0 where
  pub vote_proposal_id : ℤ
  pub voter : Text
  pub option_number : ℤ

pub record AminoMsgVote : Type 0 where
  pub amino_vote_proposal_id : Text
  pub amino_voter : Text
  pub amino_option_number : ℤ

-- An option, which is a number in both forms, with a weight, which is a text in both.
pub record WeightedOption : Type 0 where
  pub option : ℤ
  pub weight : Text

pub record MsgVoteWeighted : Type 0 where
  pub weighted_proposal_id : ℤ
  pub weighted_voter : Text
  pub options : List WeightedOption

pub record AminoMsgVoteWeighted : Type 0 where
  pub amino_weighted_proposal_id : Text
  pub amino_weighted_voter : Text
  pub amino_options : List WeightedOption

unfoldable pub deposit_to_amino : MsgDeposit → AminoMsgDeposit
deposit_to_amino msg = record {
  amino_proposal_id = int_to_string msg.proposal_id;
  amino_depositor = msg.depositor;
  amino_amount = msg.amount;
}

unfoldable pub deposit_from_amino : AminoMsgDeposit → Result MsgDeposit
deposit_from_amino msg = do
  proposal_id ← big_int msg.amino_proposal_id
  ok (record {
    proposal_id = proposal_id;
    depositor = msg.amino_depositor;
    amount = msg.amino_amount;
  })

unfoldable pub vote_to_amino : MsgVote → AminoMsgVote
vote_to_amino msg = record {
  amino_vote_proposal_id = int_to_string msg.vote_proposal_id;
  amino_voter = msg.voter;
  amino_option_number = msg.option_number;
}

unfoldable pub vote_from_amino : (ℤ → ℤ) → AminoMsgVote → Result MsgVote
vote_from_amino vote_option_from_json msg = do
  proposal_id ← big_int msg.amino_vote_proposal_id
  ok (record {
    vote_proposal_id = proposal_id;
    voter = msg.amino_voter;
    option_number = vote_option_from_json msg.amino_option_number;
  })

module _ (bn : BigNumber) where
  unfoldable pub weight_to_amino : Text → Result Text
  weight_to_amino weight = do
    decimal ← decode_cosmos_sdk_dec_from_proto bn weight
    ok (pad_end (to_string bn decimal) 20)

  unfoldable pub weight_from_amino : Text → Result Text
  weight_from_amino weight = do
    decimal ← from_user_input bn weight (int (pos 18))
    ok (atomics_text bn decimal)

  unfoldable pub options_to_amino : List WeightedOption → Result (List WeightedOption)
  options_to_amino [] = ok []
  options_to_amino (o ∷ options) = do
    weight ← weight_to_amino o.weight
    rest ← options_to_amino options
    ok (record { option = o.option; weight = weight } ∷ rest)

  unfoldable pub options_from_amino : (ℤ → ℤ) → List WeightedOption → Result (List WeightedOption)
  options_from_amino vote_option_from_json [] = ok []
  options_from_amino vote_option_from_json (o ∷ options) = do
    weight ← weight_from_amino o.weight
    rest ← options_from_amino vote_option_from_json options
    ok (record { option = vote_option_from_json o.option; weight = weight } ∷ rest)

  unfoldable pub weighted_to_amino : MsgVoteWeighted → Result AminoMsgVoteWeighted
  weighted_to_amino msg = do
    options ← options_to_amino msg.options
    ok (record {
      amino_weighted_proposal_id = int_to_string msg.weighted_proposal_id;
      amino_weighted_voter = msg.weighted_voter;
      amino_options = options;
    })

  unfoldable pub weighted_from_amino : (ℤ → ℤ) → AminoMsgVoteWeighted → Result MsgVoteWeighted
  weighted_from_amino vote_option_from_json msg = do
    proposal_id ← big_int msg.amino_weighted_proposal_id
    options ← options_from_amino vote_option_from_json msg.amino_options
    ok (record {
      weighted_proposal_id = proposal_id;
      weighted_voter = msg.amino_weighted_voter;
      options = options;
    })
