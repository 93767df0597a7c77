-- ===== src/Crypto/Slip10/Attempts.antt =====
-- master and childImpl of packages/crypto/src/slip10.ts, with their attempts, against the relations
-- of SLIP-0010.
use cosmjs.Prelude.{
  ℕ, zero, suc, ◌≡◌, refl, sym, ◌∙◌, ◌⊎◌, inl, inr, Bool, true, false, ◌||◌, ◌∷◌, ◌++◌, arith, leb,
  length, take-append-drop, length-take, slice, take_all, Result, ok, throws, Bytes, codes,
  out_of_fuel,
}
use cosmjs.Encoding.Ascii.{to_ascii}
use cosmjs.Math.BigNumber.{BigNumber}
use cosmjs.Crypto.HdPath.{Slip10RawIndex}
use cosmjs.Crypto.Slip10.{
  Slip10Result, Slip10Curve, secp256k1, ed25519, is_bad_master, master, curve_n, is_zero_key,
  child_impl,
}
use cosmjs.Crypto.Slip10.Derivation.{
  number, ser32, order, IsMaster, master_ed25519, master_secp256k1, master_again, MasterRetries,
  no_master_yet, bad_master, IsKey, key_ed25519, key_secp256k1, key_again, KeyRetries, no_key_yet,
  bad_key,
}
use cosmjs.Crypto.Slip10.Keys.{ser32_lem, is_gte_n_lem, child_key, sum_lem, master_cases, key_cases}

halves_lem :
    (i : Bytes) → length i ≡ 64 → (length (slice i 0 32) ≡ 32) × (i ≡ slice i 0 32 ++ slice i 32 64)
halves_lem i size = (
  omega (arith, length-take 32 i),
  sym (rw (take_all 64 i (omega arith)) (take-append-drop 32 i)),
)

module _ (bn : BigNumber) (hmac_sha512 : Bytes → Bytes → Bytes) (compressed_point : bn.BN → Bytes)
    (size : (k message : Bytes) → length (hmac_sha512 k message) ≡ 64) where
  abbrev seed_digest : Bytes → Bytes
  seed_digest seed = hmac_sha512 (codes "Bitcoin seed") seed

  master_retry :
      (fuel : ℕ) (seed : Bytes)
      → is_bad_master bn secp256k1 (slice (seed_digest seed) 0 32) ≡ ok true
      → master bn hmac_sha512 compressed_point (suc fuel) secp256k1 seed
        ≡ master bn hmac_sha512 compressed_point fuel secp256k1 (seed_digest seed)
  unfolding master to_ascii
  master_retry fuel seed bad = rw bad refl

  master_accept :
      (fuel : ℕ) (seed : Bytes)
      → is_bad_master bn secp256k1 (slice (seed_digest seed) 0 32) ≡ ok false
      → master bn hmac_sha512 compressed_point (suc fuel) secp256k1 seed
        ≡ ok (record {
          chain_code = slice (seed_digest seed) 32 64;
          privkey = slice (seed_digest seed) 0 32;
        })
  unfolding master to_ascii
  master_accept fuel seed good = rw good refl

  master-out_of_fuel :
      (seed : Bytes)
      → master bn hmac_sha512 compressed_point zero secp256k1 seed ≡ throws out_of_fuel
  unfolding master
  master-out_of_fuel seed = refl

  -- A master key is found, or all attempts are invalid.
  pub master_secp256k1_lem :
      (fuel : ℕ) (seed : Bytes)
      → ((r : Slip10Result) × (master bn hmac_sha512 compressed_point fuel secp256k1 seed ≡ ok r)
          × IsMaster hmac_sha512 secp256k1 seed r)
        ⊎ ((master bn hmac_sha512 compressed_point fuel secp256k1 seed ≡ throws out_of_fuel)
            × MasterRetries hmac_sha512 fuel seed)
  master_secp256k1_lem zero seed = inr (master-out_of_fuel seed, no_master_yet)
  master_secp256k1_lem (suc fuel) seed =
      let i = seed_digest seed in
      let (half, whole) = halves_lem i (size (codes "Bitcoin seed") seed) in
      elim (master_cases bn (slice i 0 32)) [
        | inr (good, positive, below) ↦ inl (
          record { chain_code = slice i 32 64; privkey = slice i 0 32 },
          master_accept fuel seed good,
          master_secp256k1 (slice i 0 32) (slice i 32 64) half whole positive below,
        )
        | inl (bad, invalid) ↦ elim (master_secp256k1_lem fuel i) [
          | inl (r, made, is_master) ↦ inl (
            r,
            master_retry fuel seed bad ∙ made,
            master_again (slice i 0 32) (slice i 32 64) half whole invalid is_master,
          )
          | inr (out, retries) ↦ inr (
            master_retry fuel seed bad ∙ out,
            bad_master (slice i 0 32) (slice i 32 64) half whole invalid retries,
          )
        ]
      ]

  pub master_ed25519_lem :
      (fuel : ℕ) (seed : Bytes)
      → (r : Slip10Result) × (master bn hmac_sha512 compressed_point (suc fuel) ed25519 seed ≡ ok r)
        × IsMaster hmac_sha512 ed25519 seed r
  unfolding master is_bad_master to_ascii
  master_ed25519_lem fuel seed =
      let i = hmac_sha512 (codes "ed25519 seed") seed in
      let (half, whole) = halves_lem i (size (codes "ed25519 seed") seed) in
      (
        record { chain_code = slice i 32 64; privkey = slice i 0 32 },
        refl,
        master_ed25519 (slice i 0 32) (slice i 32 64) half whole,
      )

  module _ (parent : Slip10Result) (index : Slip10RawIndex) where
    abbrev pub impl : ℕ → Slip10Curve → Bytes → Result Slip10Result
    impl fuel curve i = child_impl bn hmac_sha512 compressed_point fuel curve parent index i

    abbrev next_digest : Bytes → Bytes
    next_digest i = hmac_sha512 parent.chain_code (1 ∷ (slice i 32 64 ++ ser32 index.value))

    abbrev is_bad_key : Bytes → Bool
    is_bad_key i =
        leb order (number (slice i 0 32))
        || is_zero_key (child_key bn (slice i 0 32) parent.privkey)

    child_impl_retry :
        (fuel : ℕ) (i : Bytes)
        → is_bad_key i ≡ true
        → impl (suc fuel) secp256k1 i ≡ impl fuel secp256k1 (next_digest i)
    unfolding child_impl curve_n
    child_impl_retry fuel i bad = rw (is_gte_n_lem bn (slice i 0 32), bad, ser32_lem index) refl

    child_impl_accept :
        (fuel : ℕ) (i : Bytes)
        → is_bad_key i ≡ false
        → impl (suc fuel) secp256k1 i
          ≡ ok (record {
            chain_code = slice i 32 64;
            privkey = child_key bn (slice i 0 32) parent.privkey;
          })
    unfolding child_impl curve_n
    child_impl_accept fuel i good = rw (is_gte_n_lem bn (slice i 0 32), good) refl

    child_impl-out_of_fuel : (i : Bytes) → impl zero secp256k1 i ≡ throws out_of_fuel
    unfolding child_impl
    child_impl-out_of_fuel i = refl

    -- A child is found, or all attempts are invalid.
    pub child_impl_secp256k1 :
        (fuel : ℕ) (i : Bytes)
        → length i ≡ 64
        → ((r : Slip10Result) × (impl fuel secp256k1 i ≡ ok r)
            × IsKey hmac_sha512 parent index secp256k1 i r)
          ⊎ ((impl fuel secp256k1 i ≡ throws out_of_fuel)
              × KeyRetries hmac_sha512 parent index fuel i)
    child_impl_secp256k1 zero i whole_size = inr (child_impl-out_of_fuel i, no_key_yet)
    child_impl_secp256k1 (suc fuel) i whole_size =
        let (half, whole) = halves_lem i whole_size in
        let (key_size, sum) = sum_lem bn (slice i 0 32) parent.privkey in
        elim (key_cases bn (slice i 0 32) parent.privkey) [
          | inr (good, below, positive) ↦ inl (
            record {
              chain_code = slice i 32 64;
              privkey = child_key bn (slice i 0 32) parent.privkey;
            },
            child_impl_accept fuel i good,
            key_secp256k1 (slice i 0 32) (slice i 32 64)
                (child_key bn (slice i 0 32) parent.privkey) half whole below key_size sum positive,
          )
          | inl (bad, invalid) ↦
              elim (child_impl_secp256k1 fuel (next_digest i) (size parent.chain_code _)) [
                | inl (r, made, is_key) ↦ inl (
                  r,
                  child_impl_retry fuel i bad ∙ made,
                  key_again (slice i 0 32) (slice i 32 64) half whole invalid is_key,
                )
                | inr (out, retries) ↦ inr (
                  child_impl_retry fuel i bad ∙ out,
                  bad_key (slice i 0 32) (slice i 32 64) half whole invalid retries,
                )
              ]
        ]

    pub child_impl_ed25519 :
        (fuel : ℕ) (i : Bytes)
        → length i ≡ 64
        → (r : Slip10Result) × (impl fuel ed25519 i ≡ ok r)
          × IsKey hmac_sha512 parent index ed25519 i r
    unfolding child_impl
    child_impl_ed25519 fuel i whole_size =
        let (half, whole) = halves_lem i whole_size in
        (
          record { chain_code = slice i 32 64; privkey = slice i 0 32 },
          accepted fuel,
          key_ed25519 (slice i 0 32) (slice i 32 64) half whole,
        )
      where
        accepted :
            (fuel : ℕ)
            → impl fuel ed25519 i
              ≡ ok (record { chain_code = slice i 32 64; privkey = slice i 0 32 })
        accepted zero = refl
        accepted (suc fuel) = refl
