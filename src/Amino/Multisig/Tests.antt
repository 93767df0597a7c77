-- ===== src/Amino/Multisig/Tests.antt =====
-- Multisig keys of stand-in hash functions.
use cosmjs.Prelude.{
  ℕ, ◌≡◌, refl, ap, ◌≢◌, false, [], ◌∷◌, ◌++◌, arith, get_or, replicate, ok, throws, Bytes, IsByte,
  replicate-IsByte,
}
use cosmjs.Prelude.Int.{pos}
use cosmjs.Math.Number.{int}
use cosmjs.Math.Int53.{new_uint53, new_int53}
use cosmjs.Encoding.Base64.{to_base64, from_base64-to_base64, native}
use cosmjs.Amino.Binary.{Pubkey, ed25519}
use cosmjs.Amino.Addresses.{pubkey_to_raw_address, raw_ed25519_pubkey_to_raw_address}
use cosmjs.Amino.Multisig.{create_multisig_threshold_pubkey}
use cosmjs.Amino.Multisig.KeyOrder.{create_multisig_swap}

abbrev same_bytes : Bytes → Bytes
same_bytes bs = bs

-- The key of 32 equal bytes, whose address is the first twenty of them.
abbrev key_of : ℕ → Pubkey
key_of b = ed25519 (to_base64 native (replicate 32 b))

address_of_key :
    (b : ℕ)
    → IsByte b
    → pubkey_to_raw_address same_bytes same_bytes native (key_of b) ≡ ok (replicate 20 b)
unfolding pubkey_to_raw_address raw_ed25519_pubkey_to_raw_address
address_of_key b h =
    rw (from_base64-to_base64 native (replicate 32 b) (replicate-IsByte 32 b h)) refl

seven_not_eight : replicate {A = ℕ} 20 7 ≢ replicate {A = ℕ} 20 8
seven_not_eight e = omega (arith, ap (λ s. get_or s 0 0) e)

create_multisig_swap_example :
    create_multisig_threshold_pubkey same_bytes same_bytes native
      ([] ++ (key_of 7 ∷ key_of 8 ∷ (key_of 9 ∷ [])))
      (int (pos 2))
      false
    ≡ create_multisig_threshold_pubkey same_bytes same_bytes native
        ([] ++ (key_of 8 ∷ key_of 7 ∷ (key_of 9 ∷ [])))
        (int (pos 2))
        false
create_multisig_swap_example =
    create_multisig_swap same_bytes same_bytes native (key_of 7) (key_of 8) (replicate 20 7)
      (replicate 20 8) (address_of_key 7 (omega arith)) (address_of_key 8 (omega arith))
      (replicate-IsByte 20 7 (omega arith)) (replicate-IsByte 20 8 (omega arith)) seven_not_eight []
      (key_of 9 ∷ []) (int (pos 2))

too_many :
    create_multisig_threshold_pubkey same_bytes same_bytes native
      (key_of 7 ∷ [])
      (int (pos 2))
      false
    ≡ throws "Threshold exceeds number of keys"
unfolding create_multisig_threshold_pubkey new_uint53 new_int53
too_many = refl
