-- ===== src/Stargate/Modules/Ibc.antt =====
-- packages/stargate/src/modules/ibc/aminomessages.ts. `fromPartial` of a whole message gives the
-- message.
use cosmjs.Prelude.{
  zero, suc, ◌≡◌, refl, ◌∙◌, ◌≢◌, Option, none, some, [], ◌∷◌, Result, ◌>>=◌, ok, Text, to_decimal,
  to_decimal-ne-nil,
}
use cosmjs.Prelude.Int.{ℤ, pos, negsuc}
use cosmjs.Math.Number.{int_to_string}
use cosmjs.Amino.Coins.{Coin}
use cosmjs.Stargate.BigInt.{big_int, big_int-int_to_string}

pub record Height : Type 0 where
  pub revision_number : ℤ
  pub revision_height : ℤ

pub record MsgTransfer : Type 0 where
  pub source_port : Text
  pub source_channel : Text
  pub token : Option Coin
  pub sender : Text
  pub receiver : Text
  pub timeout_height : Option Height
  pub timeout_timestamp : ℤ
  pub memo : Text

pub record AminoHeight : Type 0 where
  pub amino_revision_number : Option Text
  pub amino_revision_height : Option Text

pub record AminoMsgTransfer : Type 0 where
  pub amino_source_port : Text
  pub amino_source_channel : Text
  pub amino_token : Option Coin
  pub amino_sender : Text
  pub amino_receiver : Text
  -- an object, which may be empty; it may be missing where other software made the message
  pub amino_timeout_height : Option AminoHeight
  pub amino_timeout_timestamp : Option Text
  pub amino_memo : Option Text

-- `omitDefault(n)?.toString()` of a bigint, and `omitDefault(s)` of a text.
abbrev pub omit_zero : ℤ → Option Text
omit_zero (pos zero) = none
omit_zero (pos (suc n)) = some (int_to_string (pos (suc n)))
omit_zero (negsuc n) = some (int_to_string (negsuc n))

abbrev pub omit_empty : Text → Option Text
omit_empty [] = none
omit_empty (c ∷ s) = some (c ∷ s)

abbrev pub height_to_amino : Option Height → AminoHeight
height_to_amino none = record { amino_revision_number = none; amino_revision_height = none }
height_to_amino (some height) = record {
  amino_revision_number = omit_zero height.revision_number;
  amino_revision_height = omit_zero height.revision_height;
}

unfoldable pub transfer_to_amino : MsgTransfer → AminoMsgTransfer
transfer_to_amino msg = record {
  amino_source_port = msg.source_port;
  amino_source_channel = msg.source_channel;
  amino_token = msg.token;
  amino_sender = msg.sender;
  amino_receiver = msg.receiver;
  amino_timeout_height = some (height_to_amino msg.timeout_height);
  amino_timeout_timestamp = omit_zero msg.timeout_timestamp;
  amino_memo = omit_empty msg.memo;
}

-- `BigInt(text || "0")`
abbrev pub big_int_or_zero : Option Text → Result ℤ
big_int_or_zero none = big_int (b'0' ∷ [])
big_int_or_zero (some []) = big_int (b'0' ∷ [])
big_int_or_zero (some (c ∷ s)) = big_int (c ∷ s)

abbrev pub memo_or_empty : Option Text → Text
memo_or_empty none = []
memo_or_empty (some s) = s

abbrev pub height_from_amino : Option AminoHeight → Result (Option Height)
height_from_amino none = ok none
height_from_amino (some height) = do
  revision_height ← big_int_or_zero height.amino_revision_height
  revision_number ← big_int_or_zero height.amino_revision_number
  ok (some (record { revision_number = revision_number; revision_height = revision_height }))

unfoldable pub transfer_from_amino : AminoMsgTransfer → Result MsgTransfer
transfer_from_amino msg = do
  timeout_height ← height_from_amino msg.amino_timeout_height
  timeout_timestamp ← big_int_or_zero msg.amino_timeout_timestamp
  ok (record {
    source_port = msg.amino_source_port;
    source_channel = msg.amino_source_channel;
    token = msg.amino_token;
    sender = msg.amino_sender;
    receiver = msg.amino_receiver;
    timeout_height = timeout_height;
    timeout_timestamp = timeout_timestamp;
    memo = memo_or_empty msg.amino_memo;
  })

-- Whether a height stays a height: an absent one is read back as zero.
abbrev pub height_or_zero : Option Height → Height
height_or_zero none = record { revision_number = pos 0; revision_height = pos 0 }
height_or_zero (some height) = height

read_nonempty : (s : Text) → s ≢ [] → big_int_or_zero (some s) ≡ big_int s
read_nonempty [] h = absurd (h refl)
read_nonempty (c ∷ s) h = refl

int_to_string-ne-nil : (z : ℤ) → int_to_string z ≢ []
unfolding int_to_string
int_to_string-ne-nil (pos n) = to_decimal-ne-nil n
int_to_string-ne-nil (negsuc n) = λ e. absurd cc

read_text : (z : ℤ) → big_int_or_zero (some (int_to_string z)) ≡ ok z
read_text z = read_nonempty (int_to_string z) (int_to_string-ne-nil z) ∙ big_int-int_to_string z

zero_text : big_int (b'0' ∷ []) ≡ ok (pos 0)
zero_text = unfold int_to_string to_decimal in big_int-int_to_string (pos 0)

omit_zero_back : (z : ℤ) → big_int_or_zero (omit_zero z) ≡ ok z
omit_zero_back (pos zero) = zero_text
omit_zero_back (pos (suc n)) = read_text (pos (suc n))
omit_zero_back (negsuc n) = read_text (negsuc n)

omit_empty_back : (s : Text) → memo_or_empty (omit_empty s) ≡ s
omit_empty_back [] = refl
omit_empty_back (c ∷ s) = refl

height_back :
    (height : Option Height)
    → height_from_amino (some (height_to_amino height)) ≡ ok (some (height_or_zero height))
height_back none = rw (omit_zero_back (pos 0)) refl
height_back (some height) =
    rw (omit_zero_back height.revision_height, omit_zero_back height.revision_number) refl

-- A transfer is read back from Amino JSON with all its fields; only a missing timeout height becomes
-- the height zero.
pub transfer_back :
    (msg : MsgTransfer)
    → transfer_from_amino (transfer_to_amino msg)
      ≡ ok (record msg { timeout_height = some (height_or_zero msg.timeout_height) })
unfolding transfer_from_amino transfer_to_amino
transfer_back msg =
    rw
      (
        height_back msg.timeout_height,
        omit_zero_back msg.timeout_timestamp,
        omit_empty_back msg.memo,
      )
      refl
