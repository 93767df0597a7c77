-- ===== src/Stargate/Default/Tests.antt =====
-- Messages with stand-ins for the packages.
use cosmjs.Prelude.{
  ◌≡◌, refl, [], ◌∷◌, ◌++◌, arith, length, take, drop, take_exact, drop_exact, Result, ok, throws,
  Text, Bytes, codes, to_decimal,
}
use cosmjs.Prelude.Int.{pos}
use cosmjs.Math.BigNumber.{native as native_bn}
use cosmjs.Encoding.Base64.{native as native_base64}
use cosmjs.ProtoSigning.Pubkey.StandIn.{stand_in}
use cosmjs.Stargate.Modules.Gov.{MsgVoteWeighted}
use cosmjs.Stargate.Modules.Gov.Proposal.{TextProposals}
use cosmjs.Stargate.Default.Messages.{vote_weighted}
use cosmjs.Stargate.Default.Entries.{Environment}
use cosmjs.Stargate.Default.RoundTrip.{url_of, ComesBack, IsReadable, default_converters_back}

-- The title behind its length, and the description.
abbrev read_proposal : Bytes → Result (Text × Text)
read_proposal [] = throws "too short"
read_proposal (n ∷ s) = ok (take n s, drop n s)

proposal_law :
    (title description : Text)
    → read_proposal (length title ∷ (title ++ description)) ≡ ok (title, description)
proposal_law title description =
    rw
      (
        take_exact (length title) title description refl,
        drop_exact (length title) title description refl,
      )
      refl

abbrev proposals : TextProposals
proposals = record {
  encode_text = λ title description. length title ∷ (title ++ description);
  decode_text = read_proposal;
  text_law = proposal_law;
}

abbrev env : Environment
env = record {
  bn = native_bn;
  b64 = native_base64;
  proto = stand_in;
  proposals = proposals;
  vote_option_from_json = λ n. n;
}

-- 70 % for the option 1, 30 % for the option 3.
abbrev weighted : MsgVoteWeighted
weighted = record {
  weighted_proposal_id = pos 5;
  weighted_voter = codes "cosmos1voter";
  options =
      record { option = pos 1; weight = to_decimal 700000000000000000 }
      ∷ record { option = pos 3; weight = to_decimal 300000000000000000 }
      ∷ [];
}

weighted-IsReadable : IsReadable env (vote_weighted weighted)
weighted-IsReadable = (
  (refl, (700000000000000000, refl, omega arith, omega arith)),
  ((refl, (300000000000000000, refl, omega arith, omega arith)), tt),
)

default_converters_back_example :
    ComesBack env (url_of env (vote_weighted weighted)) (vote_weighted weighted)
default_converters_back_example =
    default_converters_back env (vote_weighted weighted) weighted-IsReadable
