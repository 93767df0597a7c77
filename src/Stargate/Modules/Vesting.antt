-- ===== src/Stargate/Modules/Vesting.antt =====
-- packages/stargate/src/modules/vesting/aminomessages.ts
use cosmjs.Prelude.{◌≡◌, refl, Bool, List, Result, ◌>>=◌, ok, Text}
use cosmjs.Prelude.Int.{ℤ}
use cosmjs.Math.Number.{int_to_string}
use cosmjs.Amino.Coins.{Coin}
use cosmjs.Stargate.BigInt.{big_int, big_int-int_to_string}

pub record MsgCreateVestingAccount : Type 0 where
  pub from_address : Text
  pub to_address : Text
  pub amount : List Coin
  pub end_time : ℤ
  pub delayed : Bool

pub record AminoMsgCreateVestingAccount : Type 0 where
  pub amino_from_address : Text
  pub amino_to_address : Text
  pub amino_amount : List Coin
  pub amino_end_time : Text
  pub amino_delayed : Bool

unfoldable pub vesting_to_amino : MsgCreateVestingAccount → AminoMsgCreateVestingAccount
vesting_to_amino msg = record {
  amino_from_address = msg.from_address;
  amino_to_address = msg.to_address;
  amino_amount = msg.amount;
  amino_end_time = int_to_string msg.end_time;
  amino_delayed = msg.delayed;
}

unfoldable pub vesting_from_amino : AminoMsgCreateVestingAccount → Result MsgCreateVestingAccount
vesting_from_amino msg = do
  end_time ← big_int msg.amino_end_time
  ok (record {
    from_address = msg.amino_from_address;
    to_address = msg.amino_to_address;
    amount = msg.amino_amount;
    end_time = end_time;
    delayed = msg.amino_delayed;
  })

pub vesting_back :
    (msg : MsgCreateVestingAccount) → vesting_from_amino (vesting_to_amino msg) ≡ ok msg
unfolding vesting_from_amino vesting_to_amino
vesting_back msg = rw (big_int-int_to_string msg.end_time) refl
