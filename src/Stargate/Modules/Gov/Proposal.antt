-- ===== src/Stargate/Modules/Gov/Proposal.antt =====
-- packages/stargate/src/modules/gov/aminomessages.ts, the message that submits a proposal.
-- `TextProposal` of cosmjs-types is a parameter.
use cosmjs.Prelude.{
  ◌≡◌, refl, not, Option, none, some, List, Result, ◌>>=◌, ◌>>◌, throw_if, ok, throws, Text, Bytes,
  codes, text_eq,
}
use cosmjs.Amino.Coins.{Coin}
use cosmjs.ProtoSigning.Pubkey.{Any}

-- `encode` of a title and a description, and `decode`, which reads them back.
pub record TextProposals : Type 0 where
  pub encode_text : Text → Text → Bytes
  pub decode_text : Bytes → Result (Text × Text)
  pub text_law :
      (title description : Text)
      → decode_text (encode_text title description) ≡ ok (title, description)

pub record MsgSubmitProposal : Type 0 where
  pub content : Option Any
  pub initial_deposit : List Coin
  pub proposer : Text

-- The value of a proposal as far as the code looks at it: whether it is an object, and its title and
-- its description where they are texts.
pub data ContentValue : Type 0 where
  no_object : ContentValue
  object : Option Text → Option Text → ContentValue

pub record AminoMsgSubmitProposal : Type 0 where
  pub content_type : Text
  pub content_value : ContentValue
  pub amino_initial_deposit : List Coin
  pub amino_proposer : Text

abbrev pub text_proposal_url : Text
text_proposal_url = codes "/cosmos.gov.v1beta1.TextProposal"

abbrev pub text_proposal_type : Text
text_proposal_type = codes "cosmos-sdk/TextProposal"

abbrev pub title_and_description : ContentValue → Result (Text × Text)
title_and_description no_object = throws "Assertion failed"
title_and_description (object none description) = throws "Assertion failed"
title_and_description (object (some title) none) = throws "Assertion failed"
title_and_description (object (some title) (some description)) = ok (title, description)

abbrev pub content_of : Option Any → Result Any
content_of none = throws "Assertion failed"
content_of (some any) = ok any

module _ (proposals : TextProposals) where
  open proposals use {encode_text, decode_text}

  unfoldable pub submit_to_amino : MsgSubmitProposal → Result AminoMsgSubmitProposal
  submit_to_amino msg = do
    content ← content_of msg.content
    throw_if (not (text_eq content.type_url text_proposal_url)) "Unsupported proposal type"
    (title, description) ← decode_text content.value
    ok (record {
      content_type = text_proposal_type;
      content_value = object (some title) (some description);
      amino_initial_deposit = msg.initial_deposit;
      amino_proposer = msg.proposer;
    })

  unfoldable pub submit_from_amino : AminoMsgSubmitProposal → Result MsgSubmitProposal
  submit_from_amino msg = do
    throw_if (not (text_eq msg.content_type text_proposal_type)) "Unsupported proposal type"
    (title, description) ← title_and_description msg.content_value
    ok (record {
      content =
          some (record { type_url = text_proposal_url; value = encode_text title description });
      initial_deposit = msg.amino_initial_deposit;
      proposer = msg.amino_proposer;
    })

  -- A message with a text proposal is read back from Amino JSON.
  pub submit_back :
      (msg : MsgSubmitProposal) (title description : Text)
      → msg.content
        ≡ some (record { type_url = text_proposal_url; value = encode_text title description })
      → (amino : AminoMsgSubmitProposal) × (submit_to_amino msg ≡ ok amino)
        × (submit_from_amino amino ≡ ok msg)
  unfolding submit_to_amino submit_from_amino
  submit_back msg title description given = (
    record {
      content_type = text_proposal_type;
      content_value = object (some title) (some description);
      amino_initial_deposit = msg.initial_deposit;
      amino_proposer = msg.proposer;
    },
    rw (given, proposals.text_law title description) refl,
    rw (← given) refl,
  )
