-- ===== src/Stargate/Default.antt =====
-- packages/stargate/src/signingstargateclient.ts, `createDefaultAminoConverters`: the register of the
-- messages of all modules. A converter is only applied to values of its message type. The generated
-- codecs and bn.js are parameters.
pub mod Messages
pub mod Entries
pub mod RoundTrip
mod Tests
use cosmjs.Prelude.{[], ◌∷◌}
use cosmjs.Stargate.AminoTypes.{AminoConverters}
use cosmjs.Stargate.Default.Messages.{Message, AminoValue}
use cosmjs.Stargate.Default.Entries.{
  Environment, entry, send_kind, multi_send_kind, fund_kind, set_withdraw_kind, reward_kind,
  commission_kind, deposit_kind, vote_kind, vote_weighted_kind, submit_kind, begin_redelegate_kind,
  create_validator_kind, delegate_kind, edit_validator_kind, undelegate_kind, cancel_unbonding_kind,
  transfer_kind, create_vesting_kind,
}

module _ (env : Environment) where
  unfoldable pub default_amino_converters : AminoConverters Message AminoValue
  default_amino_converters =
      entry (send_kind env)
      ∷ entry (multi_send_kind env)
      ∷ entry (fund_kind env)
      ∷ entry (set_withdraw_kind env)
      ∷ entry (reward_kind env)
      ∷ entry (commission_kind env)
      ∷ entry (deposit_kind env)
      ∷ entry (vote_kind env)
      ∷ entry (vote_weighted_kind env)
      ∷ entry (submit_kind env)
      ∷ entry (begin_redelegate_kind env)
      ∷ entry (create_validator_kind env)
      ∷ entry (delegate_kind env)
      ∷ entry (edit_validator_kind env)
      ∷ entry (undelegate_kind env)
      ∷ entry (cancel_unbonding_kind env)
      ∷ entry (transfer_kind env)
      ∷ entry (create_vesting_kind env)
      ∷ []
