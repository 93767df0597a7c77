-- ===== src/Stargate/Modules/Gov/Weights.antt =====
-- Votes and deposits are read back from Amino JSON, weights of one or more excepted.
use native.Mathlib.Nat.{mul-mod_left}
use cosmjs.Prelude.{
  ℕ, zero, suc, ◌-◌, ◌*◌, ◌/◌, ◌%◌, ◌^◌, ◌≤◌, ◌<◌, ◌≡◌, refl, ap, ◌∙◌, ◌≢◌, false, List, [], ◌∷◌,
  ◌++◌, arith, ◌==◌, length, replicate, All, All-append, ok, Text, IsDigit, value_from, to_decimal,
  value-to_decimal, to_decimal-IsDigit, length-to_decimal,
}
use cosmjs.Prelude.Int.{ℤ}
use cosmjs.Math.Number.{int_to_string}
use cosmjs.Math.BigNumber.{BigNumber}
use cosmjs.Math.Decimal.{Decimal, to_string, pad_start, pad_end, trim_zeros, dot}
use cosmjs.Math.Decimal.Arithmetic.{Is, rest_zero_lem, rest_lem, whole_lem}
use cosmjs.Math.Decimal.Digits.{one-le-ten_pow, value_from-append, value_from-zeros, IsDigit-zeros}
use cosmjs.Math.Decimal.Trim.{length-trim_zeros}
use cosmjs.Stargate.Fee.Amount.{to_string_whole}
use cosmjs.Math.Decimal.Parse.{from_user_input_integer}
use cosmjs.Math.Decimal.RoundTrip.{fractional_part}
use cosmjs.Stargate.BigInt.{big_int-int_to_string}
use cosmjs.Stargate.DecimalText.{decode_cosmos_sdk_dec_from_proto, json_decimal_to_proto}
use cosmjs.Stargate.DecimalText.RoundTrip.{
  IsFraction, from_atomics-to_decimal, json_decimal_to_proto_lem,
}
use cosmjs.Stargate.Modules.Gov.{
  MsgDeposit, MsgVote, MsgVoteWeighted, AminoMsgVoteWeighted, WeightedOption, deposit_to_amino,
  deposit_from_amino, vote_to_amino, vote_from_amino, weight_to_amino, weight_from_amino,
  options_to_amino, options_from_amino, weighted_to_amino, weighted_from_amino,
}

pub deposit_back : (msg : MsgDeposit) → deposit_from_amino (deposit_to_amino msg) ≡ ok msg
unfolding deposit_from_amino deposit_to_amino
deposit_back msg = rw (big_int-int_to_string msg.proposal_id) refl

pub vote_back :
    (vote_option_from_json : ℤ → ℤ) (msg : MsgVote)
    → vote_option_from_json msg.option_number ≡ msg.option_number
    → vote_from_amino vote_option_from_json (vote_to_amino msg) ≡ ok msg
unfolding vote_from_amino vote_to_amino
vote_back vote_option_from_json msg known =
    rw (big_int-int_to_string msg.vote_proposal_id, known) refl

-- The text of a weight between 0 and 1 has twenty characters.
padded_weight : (f : Text) → length f ≤ 18 → pad_end (b'0' ∷ dot ∷ f) 20 ≡ b'0' ∷ dot ∷ pad_end f 18
padded_weight f h = ap (λ (n : ℕ). b'0' ∷ dot ∷ (f ++ replicate n b'0')) (omega arith)

to_string-weight :
    (bn : BigNumber) (d : Decimal bn.BN) (m : ℕ)
    → Is bn d m 18
    → 0 < m
    → m < 10 ^ 18
    → (p : Text) × (pad_end (to_string bn d) 20 ≡ to_decimal 0 ++ dot ∷ p) × IsFraction p m
unfolding to_string
to_string-weight bn d m h positive lt =
    let part : m % 10 ^ 18 ≡ m = omega arith in
    let none_whole : m / 10 ^ 18 ≡ 0 = omega arith in
    let nz : (m == 0) ≡ false = ground arith in
    let f = trim_zeros (pad_start (to_decimal m) 18) in
    let (trimmed, joined, is_digit_p, size, value) = fractional_part m 18 positive lt in
    let short : length f ≤ 18 =
      omega (arith, length-trim_zeros (pad_start (to_decimal m) 18), size) in
    let filled : pad_end (b'0' ∷ dot ∷ f) 20 ≡ b'0' ∷ dot ∷ pad_start (to_decimal m) 18 =
      padded_weight f short ∙ ap (λ (t : Text). b'0' ∷ dot ∷ t) joined in
    (
      pad_start (to_decimal m) 18,
      rw
          (
            rest_zero_lem bn d m 18 h,
            part,
            nz,
            bn.print_lem _ _ (whole_lem bn d m 18 h),
            bn.print_lem _ _ (rest_lem bn d m 18 h),
            part,
            none_whole,
            h.digits_lem,
          )
          (unfold to_decimal in filled),
      (size, is_digit_p, value),
    )

-- Both read a decimal with 18 digits.
weight_from_amino_lem :
    (bn : BigNumber) (s : Text) → weight_from_amino bn s ≡ json_decimal_to_proto bn s
unfolding weight_from_amino json_decimal_to_proto
weight_from_amino_lem bn s = refl

-- A weight between 0 and 1, both excluded, in units of 10^-18, is read back.
pub weight_back :
    (bn : BigNumber) (m : ℕ)
    → 0 < m
    → m < 10 ^ 18
    → (s : Text) × (weight_to_amino bn (to_decimal m) ≡ ok s)
      × (weight_from_amino bn s ≡ ok (to_decimal m))
unfolding weight_to_amino decode_cosmos_sdk_dec_from_proto
weight_back bn m positive lt =
    let (d, parsed, is_d) = from_atomics-to_decimal bn m in
    let (p, text, fraction) = to_string-weight bn d m is_d positive lt in
    (
      to_decimal 0 ++ dot ∷ p,
      rw (parsed, text) refl,
      weight_from_amino_lem bn (to_decimal 0 ++ dot ∷ p)
          ∙ json_decimal_to_proto_lem bn 0 m p fraction
          ∙ ap (λ (n : ℕ). ok (to_decimal n)) (omega arith),
    )

-- A whole weight k is written without a separator and filled with zeros up to twenty characters.
weight_whole_lem :
    (bn : BigNumber) (k : ℕ)
    → (s : Text) × (weight_to_amino bn (to_decimal (k * 10 ^ 18)) ≡ ok s)
      × (weight_from_amino bn s ≡ ok (to_decimal (k * 10 ^ (20 - length (to_decimal k)) * 10 ^ 18)))
unfolding weight_to_amino decode_cosmos_sdk_dec_from_proto
weight_whole_lem bn k =
    let w = to_decimal k in
    let zeros = 20 - length w in
    let (d, parsed, is_d) = from_atomics-to_decimal bn (k * 10 ^ 18) in
    let filled : All IsDigit (pad_end w 20) =
      All-append IsDigit w (replicate zeros b'0') (to_decimal-IsDigit k) (IsDigit-zeros zeros) in
    let (read, again, is_read) =
      from_user_input_integer bn (pad_end w 20) 18 (omega arith) filled in
    let number : value_from 0 (pad_end w 20) ≡ k * 10 ^ zeros =
      rw (value_from-append 0 w (replicate zeros b'0'), value-to_decimal k)
        (value_from-zeros k zeros) in
    (
      pad_end w 20,
      rw
          (
            parsed,
            to_string_whole bn d (k * 10 ^ 18) 18 is_d (mul-mod_left k (10 ^ 18)),
            whole_again k,
          )
          refl,
      unfold weight_from_amino in
          rw (again, bn.print_lem read.atomics _ is_read.atomics, number) refl,
    )
  where
    whole_again : (k : ℕ) → k * 10 ^ 18 / 10 ^ 18 ≡ k
    whole_again k = omega arith

mul_mono_left : (k a b : ℕ) → a ≤ b → k * a ≤ k * b
mul_mono_left zero a b h = omega arith
mul_mono_left (suc k) a b h = omega (arith, mul_mono_left k a b h)

ten_times : (k n : ℕ) → 1 ≤ n → 10 * (k * 10 ^ 18) ≤ k * 10 ^ n * 10 ^ 18
ten_times k zero h = absurd (omega arith)
ten_times k (suc n) h =
    let more : k * 10 ≤ k * 10 ^ suc n =
      mul_mono_left k 10 (10 ^ suc n) (omega (arith, one-le-ten_pow n)) in
    omega (arith, more)

-- A whole weight k from 1 to 10^19 - 1, which is k * 10^18 in units of 10^-18, is written as a text
-- that is read as k * 10^(20 - d), where d is the number of the digits of k: as at least ten times
-- the weight that was written, and so as another weight.
pub weight_whole :
    (bn : BigNumber) (k : ℕ)
    → 0 < k
    → k < 10 ^ 19
    → (s : Text) × (read : ℕ) × (weight_to_amino bn (to_decimal (k * 10 ^ 18)) ≡ ok s)
      × (weight_from_amino bn s ≡ ok (to_decimal read))
      × (read ≡ k * 10 ^ (20 - length (to_decimal k)) * 10 ^ 18)
      × (10 * (k * 10 ^ 18) ≤ read)
      × (read ≢ k * 10 ^ 18)
weight_whole bn k positive small =
    let (s, written, back) = weight_whole_lem bn k in
    let zeros = 20 - length (to_decimal k) in
    let digits : length (to_decimal k) ≤ 19 = length-to_decimal k 19 positive small in
    let more = ten_times k zeros (omega (arith, digits)) in
    (
      s,
      k * 10 ^ zeros * 10 ^ 18,
      written,
      back,
      refl,
      more,
      λ same. omega (arith, more, same, positive),
    )

-- Weights that are texts of numbers between 0 and 1, and options that are known.
abbrev pub IsKnown : (ℤ → ℤ) → WeightedOption → Type 0
IsKnown vote_option_from_json o =
    (vote_option_from_json o.option ≡ o.option)
    × ((m : ℕ) × (o.weight ≡ to_decimal m) × (0 < m) × (m < 10 ^ 18))

options_back :
    (bn : BigNumber) (vote_option_from_json : ℤ → ℤ) (options : List WeightedOption)
    → All (IsKnown vote_option_from_json) options
    → (amino : List WeightedOption) × (options_to_amino bn options ≡ ok amino)
      × (options_from_amino bn vote_option_from_json amino ≡ ok options)
unfolding options_to_amino options_from_amino
options_back bn vote_option_from_json [] h = ([], refl, refl)
options_back bn vote_option_from_json (o ∷ options) ((known, (m, text, positive, lt)), h) =
    let (weight, there, back) = weight_back bn m positive lt in
    let (rest, all_there, all_back) = options_back bn vote_option_from_json options h in
    (
      record { option = o.option; weight = weight } ∷ rest,
      rw (text, there, all_there) refl,
      rw (back, all_back, known, ← text) refl,
    )

-- A weighted vote whose options are known and whose weights lie between 0 and 1, both excluded, is
-- read back from Amino JSON.
pub weighted_back :
    (bn : BigNumber) (vote_option_from_json : ℤ → ℤ) (msg : MsgVoteWeighted)
    → All (IsKnown vote_option_from_json) msg.options
    → (amino : AminoMsgVoteWeighted) × (weighted_to_amino bn msg ≡ ok amino)
      × (weighted_from_amino bn vote_option_from_json amino ≡ ok msg)
unfolding weighted_to_amino weighted_from_amino
weighted_back bn vote_option_from_json msg h =
    let (options, there, back) = options_back bn vote_option_from_json msg.options h in
    (
      record {
        amino_weighted_proposal_id = int_to_string msg.weighted_proposal_id;
        amino_weighted_voter = msg.weighted_voter;
        amino_options = options;
      },
      rw there refl,
      rw (big_int-int_to_string msg.weighted_proposal_id, back) refl,
    )
