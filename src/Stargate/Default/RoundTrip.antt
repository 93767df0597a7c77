-- ===== src/Stargate/Default/RoundTrip.antt =====
-- Each message comes back from Amino JSON.
use cosmjs.Prelude.{ℕ, ◌≡◌, refl, sym, ap, ◌∙◌, ◌⊎◌, some, [], All, ok, Text, codes, to_decimal}
use cosmjs.Amino.Coins.{Coin}
use cosmjs.Stargate.AminoTypes.{AminoMsg, converter_of, matches, to_amino, from_amino}
use cosmjs.Stargate.AminoTypes.Laws.{Distinct, from_amino-to_amino}
use cosmjs.Stargate.Modules.Bank.{send_to_amino, multi_send_to_amino, send_back, multi_send_back}
use cosmjs.Stargate.Modules.Distribution.{
  fund_to_amino, set_withdraw_to_amino, reward_to_amino, commission_to_amino, fund_back,
  set_withdraw_back, reward_back, commission_back,
}
use cosmjs.Stargate.Modules.Gov.{deposit_to_amino, vote_to_amino}
use cosmjs.Stargate.Modules.Gov.Weights.{IsKnown, deposit_back, vote_back, weighted_back}
use cosmjs.Stargate.Modules.Gov.Proposal.{text_proposal_url, submit_back}
use cosmjs.Stargate.Modules.Staking.{Description}
use cosmjs.Stargate.Modules.Staking.RoundTrip.{
  delegate_back, redelegate_back, cancel_back, edit_back,
}
use cosmjs.Stargate.Modules.Staking.Create.{IsComplete, create_back}
use cosmjs.Stargate.Modules.Ibc.{
  Height, MsgTransfer, transfer_to_amino, transfer_from_amino, transfer_back, height_or_zero,
}
use cosmjs.Stargate.Modules.Vesting.{vesting_to_amino, vesting_back}
use cosmjs.Stargate.Default.Messages.{
  Message, AminoValue, send, multi_send, fund, set_withdraw, reward, commission, deposit, vote,
  vote_weighted, submit, begin_redelegate, create_validator, delegate, edit_validator, undelegate,
  cancel_unbonding, transfer, create_vesting,
}
use cosmjs.Stargate.Default.Entries.{
  Environment, Kind, converter, send_kind, multi_send_kind, fund_kind, set_withdraw_kind,
  reward_kind, commission_kind, deposit_kind, vote_kind, vote_weighted_kind, submit_kind,
  begin_redelegate_kind, create_validator_kind, delegate_kind, edit_validator_kind, undelegate_kind,
  cancel_unbonding_kind, transfer_kind, create_vesting_kind,
}
use cosmjs.Stargate.Default.{default_amino_converters}

module _ (env : Environment) where
  abbrev pub url_of : Message → Text
  url_of (send m) = codes "/cosmos.bank.v1beta1.MsgSend"
  url_of (multi_send m) = codes "/cosmos.bank.v1beta1.MsgMultiSend"
  url_of (fund m) = codes "/cosmos.distribution.v1beta1.MsgFundCommunityPool"
  url_of (set_withdraw m) = codes "/cosmos.distribution.v1beta1.MsgSetWithdrawAddress"
  url_of (reward m) = codes "/cosmos.distribution.v1beta1.MsgWithdrawDelegatorReward"
  url_of (commission m) = codes "/cosmos.distribution.v1beta1.MsgWithdrawValidatorCommission"
  url_of (deposit m) = codes "/cosmos.gov.v1beta1.MsgDeposit"
  url_of (vote m) = codes "/cosmos.gov.v1beta1.MsgVote"
  url_of (vote_weighted m) = codes "/cosmos.gov.v1beta1.MsgVoteWeighted"
  url_of (submit m) = codes "/cosmos.gov.v1beta1.MsgSubmitProposal"
  url_of (begin_redelegate m) = codes "/cosmos.staking.v1beta1.MsgBeginRedelegate"
  url_of (create_validator m) = codes "/cosmos.staking.v1beta1.MsgCreateValidator"
  url_of (delegate m) = codes "/cosmos.staking.v1beta1.MsgDelegate"
  url_of (edit_validator m) = codes "/cosmos.staking.v1beta1.MsgEditValidator"
  url_of (undelegate m) = codes "/cosmos.staking.v1beta1.MsgUndelegate"
  url_of (cancel_unbonding m) = codes "/cosmos.staking.v1beta1.MsgCancelUnbondingDelegation"
  url_of (transfer m) = codes "/ibc.applications.transfer.v1.MsgTransfer"
  url_of (create_vesting m) = codes "/cosmos.vesting.v1beta1.MsgCreateVestingAccount"

  -- What a message must have to come back: the parts that the code asserts, numbers in decimal
  -- notation, known vote options, and weights between 0 and 1.
  abbrev pub IsReadable : Message → Type 0
  IsReadable (send m) = Unit
  IsReadable (multi_send m) = Unit
  IsReadable (fund m) = Unit
  IsReadable (set_withdraw m) = Unit
  IsReadable (reward m) = Unit
  IsReadable (commission m) = Unit
  IsReadable (deposit m) = Unit
  IsReadable (vote m) = env.vote_option_from_json m.option_number ≡ m.option_number
  IsReadable (vote_weighted m) = All (IsKnown env.vote_option_from_json) m.options
  IsReadable (submit m) =
      (title : Text) × (description : Text) × (m.content
        ≡ some (record {
          type_url = text_proposal_url;
          value = env.proposals.encode_text title description;
        }))
  IsReadable (begin_redelegate m) = (coin : Coin) × (m.redelegated ≡ some coin)
  IsReadable (create_validator m) = IsComplete env.bn env.b64 env.proto m
  IsReadable (delegate m) = (coin : Coin) × (m.amount ≡ some coin)
  IsReadable (edit_validator m) =
      (description : Description) × (m.edited ≡ some description)
      × ((m.commission_rate ≡ []) ⊎ ((n : ℕ) × (m.commission_rate ≡ to_decimal n)))
  IsReadable (undelegate m) = (coin : Coin) × (m.amount ≡ some coin)
  IsReadable (cancel_unbonding m) = (coin : Coin) × (m.unbonding.amount ≡ some coin)
  IsReadable (transfer m) = (height : Height) × (m.timeout_height ≡ some height)
  IsReadable (create_vesting m) = Unit

  -- No two entries of the register have the same Amino type.
  default-Distinct : Distinct (default_amino_converters env)
  unfolding default_amino_converters matches
  default-Distinct = (
    refl,
    (
      refl,
      (
        refl,
        (
          refl,
          (
            refl,
            (
              refl,
              (
                refl,
                (
                  refl,
                  (
                    refl,
                    (refl, (refl, (refl, (refl, (refl, (refl, (refl, (refl, (refl, tt))))))))),
                  ),
                ),
              ),
            ),
          ),
        ),
      ),
    ),
  )

  abbrev pub ComesBack : Text → Message → Type 0
  ComesBack url message =
      (amino : AminoMsg Message AminoValue) × (to_amino (default_amino_converters env)
          (record { type_url = url; value = message })
        ≡ ok amino)
      × (from_amino (default_amino_converters env) amino
          ≡ ok (record { type_url = url; value = message }))

  comes_back :
      {A B : Type 0} (kind : Kind A B) (a : A) (b : B)
      → converter_of (default_amino_converters env) kind.url ≡ some (converter kind)
      → kind.convert a ≡ ok b
      → kind.convert_back b ≡ ok a
      → ComesBack kind.url (kind.put a)
  comes_back kind a b found there back =
      let (gone, came) =
        from_amino-to_amino (default_amino_converters env)
          (record { type_url = kind.url; value = kind.put a }) (converter kind) (kind.put_amino b)
          default-Distinct found (rw (kind.get-put a, there) refl)
          (rw (kind.get_amino-put_amino b, back) refl) in
      (record { type_id = kind.amino_type; value = kind.put_amino b }, gone, came)

  transfer_same :
      (m : MsgTransfer) (height : Height)
      → m.timeout_height ≡ some height
      → transfer_from_amino (transfer_to_amino m) ≡ ok m
  transfer_same m height given =
      transfer_back m ∙ ap ok (rw (ap (λ h. some (height_or_zero h)) given ∙ sym given) refl)

  -- Every message with the parts that it needs is converted by the default register, and the result
  -- is converted back to the message under the same type URL: rates and other decimals as numbers in
  -- units of 10^-18, weights of votes between 0 and 1 without these, transfers with a timeout height.
  pub default_converters_back :
      (message : Message) → IsReadable message → ComesBack (url_of message) message
  unfolding default_amino_converters converter_of
  default_converters_back (send m) h =
      comes_back (send_kind env) m (send_to_amino m) refl refl (ap ok (send_back m))
  default_converters_back (multi_send m) h =
      comes_back (multi_send_kind env) m (multi_send_to_amino m) refl refl
        (ap ok (multi_send_back m))
  default_converters_back (fund m) h =
      comes_back (fund_kind env) m (fund_to_amino m) refl refl (ap ok (fund_back m))
  default_converters_back (set_withdraw m) h =
      comes_back (set_withdraw_kind env) m (set_withdraw_to_amino m) refl refl
        (ap ok (set_withdraw_back m))
  default_converters_back (reward m) h =
      comes_back (reward_kind env) m (reward_to_amino m) refl refl (ap ok (reward_back m))
  default_converters_back (commission m) h =
      comes_back (commission_kind env) m (commission_to_amino m) refl refl
        (ap ok (commission_back m))
  default_converters_back (deposit m) h =
      comes_back (deposit_kind env) m (deposit_to_amino m) refl refl (deposit_back m)
  default_converters_back (vote m) h =
      comes_back (vote_kind env) m (vote_to_amino m) refl refl
        (vote_back env.vote_option_from_json m h)
  default_converters_back (vote_weighted m) h =
      let (amino, there, back) = weighted_back env.bn env.vote_option_from_json m h in
      comes_back (vote_weighted_kind env) m amino refl there (back)
  default_converters_back (submit m) h =
      let (amino, there, back) = submit_back env.proposals m h.0 h.1 h.2 in
      comes_back (submit_kind env) m amino refl there (back)
  default_converters_back (begin_redelegate m) h =
      let (amino, there, back) = redelegate_back m h.0 h.1 in
      comes_back (begin_redelegate_kind env) m amino refl there (ap ok back)
  default_converters_back (create_validator m) h =
      let (amino, there, back) = create_back env.bn env.b64 env.proto m h in
      comes_back (create_validator_kind env) m amino refl there (back)
  default_converters_back (delegate m) h =
      let (amino, there, back) = delegate_back m h.0 h.1 in
      comes_back (delegate_kind env) m amino refl there (ap ok back)
  default_converters_back (edit_validator m) h =
      let (amino, there, back) = edit_back env.bn m h.0 h.1 h.2 in
      comes_back (edit_validator_kind env) m amino refl there (back)
  default_converters_back (undelegate m) h =
      let (amino, there, back) = delegate_back m h.0 h.1 in
      comes_back (undelegate_kind env) m amino refl there (ap ok back)
  default_converters_back (cancel_unbonding m) h =
      let (amino, there, back) = cancel_back m h.0 h.1 in
      comes_back (cancel_unbonding_kind env) m amino refl there (back)
  default_converters_back (transfer m) h =
      comes_back (transfer_kind env) m (transfer_to_amino m) refl refl (transfer_same m h.0 h.1)
  default_converters_back (create_vesting m) h =
      comes_back (create_vesting_kind env) m (vesting_to_amino m) refl refl (vesting_back m)
