-- ===== src/Stargate/Modules/Bank.antt =====
-- packages/stargate/src/modules/bank/aminomessages.ts
use cosmjs.Prelude.{◌≡◌, refl, List, [], ◌∷◌, map, Text}
use cosmjs.Amino.Coins.{Coin}

pub record MsgSend : Type 0 where
  pub from_address : Text
  pub to_address : Text
  pub amount : List Coin

pub record AminoMsgSend : Type 0 where
  pub amino_from_address : Text
  pub amino_to_address : Text
  pub amino_amount : List Coin

pub record Input : Type 0 where
  pub address : Text
  pub input_coins : List Coin

pub record AminoInput : Type 0 where
  pub amino_address : Text
  pub amino_coins : List Coin

-- Outputs have the fields of inputs.
pub record MsgMultiSend : Type 0 where
  pub inputs : List Input
  pub outputs : List Input

pub record AminoMsgMultiSend : Type 0 where
  pub amino_inputs : List AminoInput
  pub amino_outputs : List AminoInput

unfoldable pub send_to_amino : MsgSend → AminoMsgSend
send_to_amino msg = record {
  amino_from_address = msg.from_address;
  amino_to_address = msg.to_address;
  amino_amount = msg.amount;
}

unfoldable pub send_from_amino : AminoMsgSend → MsgSend
send_from_amino msg = record {
  from_address = msg.amino_from_address;
  to_address = msg.amino_to_address;
  amount = msg.amino_amount;
}

abbrev pub input_to_amino : Input → AminoInput
input_to_amino input = record { amino_address = input.address; amino_coins = input.input_coins }

abbrev pub input_from_amino : AminoInput → Input
input_from_amino input = record { address = input.amino_address; input_coins = input.amino_coins }

unfoldable pub multi_send_to_amino : MsgMultiSend → AminoMsgMultiSend
multi_send_to_amino msg = record {
  amino_inputs = map input_to_amino msg.inputs;
  amino_outputs = map input_to_amino msg.outputs;
}

unfoldable pub multi_send_from_amino : AminoMsgMultiSend → MsgMultiSend
multi_send_from_amino msg = record {
  inputs = map input_from_amino msg.amino_inputs;
  outputs = map input_from_amino msg.amino_outputs;
}

pub send_back : (msg : MsgSend) → send_from_amino (send_to_amino msg) ≡ msg
unfolding send_from_amino send_to_amino
send_back msg = refl

inputs_back : (inputs : List Input) → map input_from_amino (map input_to_amino inputs) ≡ inputs
inputs_back [] = refl
inputs_back (input ∷ inputs) = rw (inputs_back inputs) refl

pub multi_send_back : (msg : MsgMultiSend) → multi_send_from_amino (multi_send_to_amino msg) ≡ msg
unfolding multi_send_from_amino multi_send_to_amino
multi_send_back msg = rw (inputs_back msg.inputs, inputs_back msg.outputs) refl
