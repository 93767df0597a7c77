-- ===== src/Amino/Multisig/KeyOrder.antt =====
-- The order of the keys does not matter for a multisig key.

use cosmjs.Prelude.{
  ◌≤◌, ◌≡◌, refl, sym, ap, ◌≢◌, inl, inr, true, false, List, [], ◌∷◌, ◌++◌, map, arith, Bool-cases,
  length, length-append, all, All, Result, ◌>>=◌, Result-cases, ok, Text, Bytes, text_eq, IsByte,
  text_eq_sound, text_less, text_less_irrefl, text_less_trans, text_less_total,
}
use cosmjs.Math.Number.{Number}
use cosmjs.Encoding.Base64.{Base64Js}
use cosmjs.Encoding.Hex.{to_hex}
use cosmjs.Encoding.Hex.RoundTrip.{to_hex_injective}
use cosmjs.Amino.Binary.{Pubkey}
use cosmjs.Amino.Addresses.{pubkey_to_raw_address}
use cosmjs.Amino.Compare.{compare_arrays}
use cosmjs.Amino.Multisig.{
  Addressed, in_order, sort, pubkey_of, any_error, with_addresses, sorted_pubkeys,
  create_multisig_threshold_pubkey,
}
use cosmjs.Amino.Multisig.Sorting.{sort_swap}

-- The hex text of the address, by which keys are compared.
abbrev hex_of : Addressed → Text
hex_of x = to_hex x.0

less_not_eq : (s t : Text) → text_less s t ≡ true → text_eq t s ≡ false
less_not_eq s t h = elim (Bool-cases (text_eq t s)) [
  | inl e ↦ absurd (text_less_irrefl s (rw (text_eq_sound t s e) at h))
  | inr e ↦ e
]

less_not_less : (s t : Text) → text_less s t ≡ true → text_less t s ≡ false
less_not_less s t h = elim (Bool-cases (text_less t s)) [
  | inl e ↦ absurd (text_less_irrefl s (text_less_trans s t s h e))
  | inr e ↦ e
]

front : (x y : Addressed) → text_less (hex_of x) (hex_of y) ≡ true → in_order x y ≡ true
unfolding compare_arrays
front x y h = elim (Bool-cases (text_eq (hex_of x) (hex_of y))) [
  | inl e ↦ rw e refl
  | inr e ↦ rw (e, h) refl
]

behind : (x y : Addressed) → text_less (hex_of x) (hex_of y) ≡ true → in_order y x ≡ false
unfolding compare_arrays
behind x y h = rw (less_not_eq (hex_of x) (hex_of y) h, less_not_less (hex_of x) (hex_of y) h) refl

passes :
    (x y z : Addressed)
    → text_less (hex_of x) (hex_of y) ≡ true
    → in_order y z ≡ true
    → in_order x z ≡ true
passes x y z h k = elim (Bool-cases (text_eq (hex_of y) (hex_of z))) [
  | inl e ↦ front x z (rw (text_eq_sound (hex_of y) (hex_of z) e) at h)
  | inr e ↦ elim (Bool-cases (text_less (hex_of y) (hex_of z))) [
    | inl less ↦ front x z (text_less_trans (hex_of x) (hex_of y) (hex_of z) h less)
    | inr more ↦
        let greater : false ≡ true = unfold compare_arrays in rw (e, more) at k in absurd cc
  ]
]

-- Two keys of different addresses may change places before they are sorted.
swap :
    (x y : Addressed) (before after : List Addressed)
    → text_eq (hex_of x) (hex_of y) ≡ false
    → sort in_order (before ++ (x ∷ y ∷ after)) ≡ sort in_order (before ++ (y ∷ x ∷ after))
swap x y before after differ = elim (Bool-cases (text_less (hex_of x) (hex_of y))) [
  | inl less ↦
      sort_swap in_order x y (front x y less) (behind x y less) (λ z. passes x y z less) before
        after
  | inr more ↦
      let less = text_less_total (hex_of x) (hex_of y) differ more in
      sym (
        sort_swap in_order y x (front y x less) (behind y x less) (λ z. passes y x z less) before
          after)
]

module _ (sha256 ripemd160 : Bytes → Bytes) (b64 : Base64Js) where
  abbrev addressed : List Pubkey → Result (List Addressed)
  addressed = with_addresses sha256 ripemd160 b64

  addressed-append :
      (ps qs : List Pubkey)
      → addressed (ps ++ qs)
        ≡ (do before ← addressed ps; after ← addressed qs; ok (before ++ after))
  unfolding with_addresses
  addressed-append [] qs = elim (Result-cases (addressed qs)) [
    | inl (r, e) ↦ rw e refl
    | inr (m, e) ↦ rw e refl
  ]
  addressed-append (p ∷ ps) qs =
      elim (Result-cases (pubkey_to_raw_address sha256 ripemd160 b64 p)) [
        | inr (m, e) ↦ rw e refl
        | inl (a, e) ↦ elim (Result-cases (addressed ps)) [
          | inr (m, e') ↦ rw (e, addressed-append ps qs, e') refl
          | inl (r, e') ↦ elim (Result-cases (addressed qs)) [
            | inr (m, e'') ↦ rw (e, addressed-append ps qs, e', e'') refl
            | inl (s, e'') ↦ rw (e, addressed-append ps qs, e', e'') refl
          ]
        ]
      ]

  abbrev sorted_of : Result (List Addressed) → Result (List Pubkey)
  sorted_of r = do all ← any_error r; ok (map pubkey_of (sort in_order all))

  sorted_two :
      (ps : List Pubkey)
      → 2 ≤ length ps
      → sorted_pubkeys sha256 ripemd160 b64 ps ≡ sorted_of (addressed ps)
  unfolding sorted_pubkeys
  sorted_two [] h = absurd (omega arith)
  sorted_two (p ∷ []) h = absurd (omega arith)
  sorted_two (p ∷ q ∷ ps) h = refl

  module _ (p q : Pubkey) (a b : Bytes)
      (has_a : pubkey_to_raw_address sha256 ripemd160 b64 p ≡ ok a)
      (has_b : pubkey_to_raw_address sha256 ripemd160 b64 q ≡ ok b) (bytes_a : All IsByte a)
      (bytes_b : All IsByte b) (differ : a ≢ b) where
    hex_differ : text_eq (to_hex a) (to_hex b) ≡ false
    hex_differ = elim (Bool-cases (text_eq (to_hex a) (to_hex b))) [
      | inl e ↦
          absurd
            (differ (to_hex_injective a b bytes_a bytes_b (text_eq_sound (to_hex a) (to_hex b) e)))
      | inr e ↦ e
    ]

    addressed_swap :
        (before after : List Pubkey)
        → sorted_of (addressed (before ++ (p ∷ q ∷ after)))
          ≡ sorted_of (addressed (before ++ (q ∷ p ∷ after)))
    unfolding with_addresses
    addressed_swap before after = elim (Result-cases (addressed before)) [
      | inr (m, e) ↦
          rw (addressed-append before (p ∷ q ∷ after), addressed-append before (q ∷ p ∷ after), e)
            refl
      | inl (r, e) ↦ elim (Result-cases (addressed after)) [
        | inr (m, e') ↦
            rw
              (
                addressed-append before (p ∷ q ∷ after),
                addressed-append before (q ∷ p ∷ after),
                e,
                has_a,
                has_b,
                e',
              )
              refl
        | inl (s, e') ↦
            rw
              (
                addressed-append before (p ∷ q ∷ after),
                addressed-append before (q ∷ p ∷ after),
                e,
                has_a,
                has_b,
                e',
              )
              (ap (λ all. ok (map pubkey_of all)) (swap (a, p) (b, q) r s hex_differ))
      ]
    ]

    -- Two neighbours among the keys, whose addresses are different bytes, may change places unless
    -- `nosort` is set: the result is the same multisig key, or both calls throw, for the same reason
    -- up to which of several keys without an address is named. So the order of keys with different
    -- addresses does not matter.
    pub create_multisig_swap :
        (before after : List Pubkey) (threshold : Number)
        → create_multisig_threshold_pubkey sha256 ripemd160 b64
            (before ++ (p ∷ q ∷ after))
            threshold
            false
          ≡ create_multisig_threshold_pubkey sha256 ripemd160 b64
              (before ++ (q ∷ p ∷ after))
              threshold
              false
    unfolding create_multisig_threshold_pubkey
    create_multisig_swap before after threshold =
        let left = length-append before (p ∷ q ∷ after) in
        let right = length-append before (q ∷ p ∷ after) in
        rw
          (
            left,
            right,
            sorted_two (before ++ (p ∷ q ∷ after)) (omega (arith, left)),
            sorted_two (before ++ (q ∷ p ∷ after)) (omega (arith, right)),
            addressed_swap before after,
          )
          refl
