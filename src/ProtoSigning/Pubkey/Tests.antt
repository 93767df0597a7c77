-- ===== src/ProtoSigning/Pubkey/Tests.antt =====
-- pubkey.ts with stand-ins for base64-js and the codecs.
use cosmjs.Prelude.{
  ◌≡◌, refl, none, some, [], arith, replicate, ok, Text, to_decimal, replicate-IsByte,
}
use cosmjs.Encoding.Base64.{to_base64, native}
use cosmjs.Amino.Binary.{Pubkey, ed25519, multisig_threshold, none_left, key}
use cosmjs.ProtoSigning.Pubkey.{Any, encode_pubkey, decode_pubkey, decode_optional_pubkey}
use cosmjs.ProtoSigning.Pubkey.StandIn.{stand_in}
use cosmjs.ProtoSigning.Pubkey.RoundTrip.{
  IsCanonical, a_multisig, an_ed25519, no_more, and_more, decode_pubkey-encode_pubkey,
}

abbrev ed_text : Text
ed_text = to_base64 native (replicate 32 7)

-- One of two keys must sign.
abbrev two_keys : Pubkey
two_keys =
    multisig_threshold (to_decimal 1) (key (ed25519 ed_text) (key (ed25519 ed_text) none_left))

two_keys-IsCanonical : IsCanonical native stand_in two_keys
two_keys-IsCanonical =
    let one = an_ed25519 (replicate 32 7) refl refl (replicate-IsByte 32 7 (omega arith)) in
    a_multisig 1 refl (omega arith) (and_more one (and_more one no_more))

decode_pubkey-encode_pubkey_example :
    (any : Any) × (encode_pubkey native stand_in two_keys ≡ ok any)
    × (decode_pubkey native stand_in any ≡ ok two_keys)
decode_pubkey-encode_pubkey_example =
    decode_pubkey-encode_pubkey native stand_in two_keys two_keys-IsCanonical

optional_empty :
    decode_optional_pubkey native stand_in (some (record { type_url = []; value = [] })) ≡ ok none
unfolding decode_optional_pubkey
optional_empty = refl
