-- ===== src/Amino/Multisig.antt =====
-- packages/amino/src/multisig.ts, createMultisigThresholdPubkey.
pub mod Sorting
pub mod KeyOrder
mod Tests
use Prim.Native.Nat.{Ordering}
use cosmjs.Prelude.{
  ℕ, Bool, true, false, List, [], ◌∷◌, map, ltb, if◌then◌else◌, length, Result, ◌>>=◌, ◌>>◌,
  throw_if, ok, throws, Bytes,
}
use cosmjs.Prelude.Int.{ℤ, pos, negsuc}
use cosmjs.Math.Number.{Number}
use cosmjs.Math.Int53.{new_uint53, to_number, uint53_to_string}
use cosmjs.Encoding.Base64.{Base64Js}
use cosmjs.Amino.Binary.{Pubkey, Pubkeys, none_left, key, multisig_threshold}
use cosmjs.Amino.Addresses.{pubkey_to_raw_address}
use cosmjs.Amino.Compare.{compare_arrays}

-- A key with its address.
abbrev pub Addressed : Type 0
Addressed = Bytes × Pubkey

abbrev pub is_not_greater : Ordering → Bool
is_not_greater Ordering.lt = true
is_not_greater Ordering.eq = true
is_not_greater Ordering.gt = false

-- Whether the comparison of two addresses leaves the first in front.
abbrev pub in_order : Addressed → Addressed → Bool
in_order lhs rhs = is_not_greater (compare_arrays lhs.0 rhs.0)

-- `sort`, which is stable, as insertion.
unfoldable pub insert {ℓ} : {A : Type ℓ} → (A → A → Bool) → A → List A → List A
insert le x [] = x ∷ []
insert le x (y ∷ ys) = let rest = insert le x ys in if le x y then x ∷ y ∷ ys else y ∷ rest

unfoldable pub sort {ℓ} : {A : Type ℓ} → (A → A → Bool) → List A → List A
sort le [] = []
sort le (x ∷ xs) = insert le x (sort le xs)

abbrev pub exceeds : ℤ → ℕ → Bool
exceeds (pos threshold) count = ltb count threshold
exceeds (negsuc threshold) count = false

abbrev pub pubkeys_of : List Pubkey → Pubkeys
pubkeys_of [] = none_left
pubkeys_of (p ∷ ps) = key p (pubkeys_of ps)

abbrev pub pubkey_of : Addressed → Pubkey
pubkey_of addressed = addressed.1

-- Keys without an address make the comparison throw. Which of them throws first hangs on the order
-- in which the engine's `sort` compares, which the language leaves open: their errors are one here.
abbrev pub any_error : Result (List Addressed) → Result (List Addressed)
any_error (ok addressed) = ok addressed
any_error (throws message) = throws "A key has no address"

module _ (sha256 ripemd160 : Bytes → Bytes) (b64 : Base64Js) where
  unfoldable pub with_addresses : List Pubkey → Result (List Addressed)
  with_addresses [] = ok []
  with_addresses (p ∷ ps) = do
    address ← pubkey_to_raw_address sha256 ripemd160 b64 p
    rest ← with_addresses ps
    ok ((address, p) ∷ rest)

  -- Two keys or more are compared, each at least once, so that each needs an address.
  unfoldable pub sorted_pubkeys : List Pubkey → Result (List Pubkey)
  sorted_pubkeys [] = ok []
  sorted_pubkeys (p ∷ []) = ok (p ∷ [])
  sorted_pubkeys (p ∷ q ∷ ps) = do
    addressed ← any_error (with_addresses (p ∷ q ∷ ps))
    ok (map pubkey_of (sort in_order addressed))

  abbrev pub out_pubkeys : Bool → List Pubkey → Result (List Pubkey)
  out_pubkeys true pubkeys = ok pubkeys
  out_pubkeys false pubkeys = sorted_pubkeys pubkeys

  unfoldable pub create_multisig_threshold_pubkey : List Pubkey → Number → Bool → Result Pubkey
  create_multisig_threshold_pubkey pubkeys threshold nosort = do
    checked ← new_uint53 threshold
    throw_if (exceeds (to_number checked) (length pubkeys)) "Threshold exceeds number of keys"
    out ← out_pubkeys nosort pubkeys
    ok (multisig_threshold (uint53_to_string checked) (pubkeys_of out))
