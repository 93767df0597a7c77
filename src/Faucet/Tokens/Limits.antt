-- ===== src/Faucet/Tokens/Limits.antt =====
-- Bounds on what the faucet pays out.
use Prim.Native.String.{String}
use cosmjs.Prelude.{
  ℕ, zero, suc, ◌*◌, ◌≤◌, ◌≡◌, refl, ap, ◌≢◌, ◌⊎◌, inl, inr, Option, none, some, arith, ltb,
  Bool-cases, Result, Result-cases, ok, throws, Text, value_from, value-to_decimal,
}
use cosmjs.Prelude.Int.{ℤ, pos, negsuc, pos_part}
use cosmjs.Math.Number.{Number, int, number_of, negate, int_to_string, max_safe_integer}
use cosmjs.Math.Int53.{to_string, Uint53, new_uint53, uint53, uint53_to_string}
use cosmjs.Amino.Coins.{Coin}
use cosmjs.Faucet.Tokens.{default_amount, chosen_amount, times, credit_amount}

new_uint53_sound :
    (x : Number) (u : Uint53) → new_uint53 x ≡ ok u → (n : ℕ) × (x ≡ int (pos n)) × (u ≡ uint53 n)
unfolding new_uint53
new_uint53_sound (int (pos n)) u h = (n, refl, ground arith)
new_uint53_sound (int (negsuc n)) u h = absurd (ground arith)
new_uint53_sound x u h = absurd (ground arith)

chosen_amount-le : (custom : Option ℤ) (d : ℕ) → pos_part (chosen_amount custom d) ≤ d
unfolding chosen_amount
chosen_amount-le none d = omega arith
chosen_amount-le (some (pos zero)) d = omega arith
chosen_amount-le (some (pos (suc n))) d = ground arith
chosen_amount-le (some (negsuc n)) d = omega arith

number_of_value : (m n : ℕ) → number_of m ≡ int (pos n) → n ≡ m
unfolding number_of
number_of_value m n h = ground arith

negated : (x : Number) (n : ℕ) → negate x ≡ int (pos n) → (m : ℕ) → x ≡ int (pos m) → n ≡ 0
unfolding negate
negated x n h zero e = ground arith
negated x n h (suc m) e = absurd (ground arith)

number_of_cases :
    (m : ℕ) → (number_of m ≡ int (pos m)) ⊎ ((n : ℕ) → negate (number_of m) ≢ int (pos n))
unfolding number_of negate
number_of_cases m = elim (Bool-cases (ltb max_safe_integer m)) [
  | inl beyond ↦ inr (λ n e. ground arith)
  | inr safe ↦ inl (ground arith)
]

times_limit : (z : ℤ) (k d n : ℕ) → pos_part z ≤ d → times z k ≡ int (pos n) → n ≤ d * k
unfolding times
times_limit (pos m) k d n h e = let same = number_of_value (m * k) n e in grind arith
times_limit (negsuc m) k d n h e = elim (number_of_cases (suc m * k)) [
  | inl safe ↦ omega (arith, negated (number_of (suc m * k)) n e (suc m * k) safe)
  | inr other ↦ absurd (other n e)
]

or_coin : Coin → Result Coin → Coin
or_coin c (ok d) = d
or_coin c (throws m) = c

ok-injective : {c d : Coin} → ok c ≡ ok d → c ≡ d
unfolding or_coin
ok-injective {c} {d} h = ap (or_coin c) h

credited :
    (denom : Text) (n most : ℕ) (u : Uint53) (c : Coin)
    → u ≡ uint53 n
    → n ≤ most
    → ok (record { denom = denom; amount = uint53_to_string u }) ≡ ok c
    → (value_from 0 c.amount ≤ most) × (c.denom ≡ denom)
unfolding uint53_to_string to_string int_to_string
credited denom n most u c same low h =
    let same_coin = ok-injective h in
    (rw (← same_coin, same, value-to_decimal n) low, rw (← same_coin) refl)

not_ok : {A : Type 0} {m : String} {a : A} → throws m ≡ ok a → ⊥
not_ok h = cc

-- Whatever amount is asked for, the faucet credits at most the configured amount times the factor,
-- and the denom asked for.
pub credit_amount_limit :
    (env : Option Text) (denom : Text) (factor : ℕ) (custom : Option ℤ) (d : ℕ) (c : Coin)
    → default_amount env ≡ ok d
    → credit_amount env denom factor custom ≡ ok c
    → (value_from 0 c.amount ≤ d * factor) × (c.denom ≡ denom)
unfolding credit_amount
credit_amount_limit env denom factor custom d c known h =
    elim (Result-cases (new_uint53 (times (chosen_amount custom d) factor))) [
      | inl (u, made) ↦
          let (n, e, same) = new_uint53_sound _ u made in
          let low = times_limit (chosen_amount custom d) factor d n (chosen_amount-le custom d) e in
          credited denom n (d * factor) u c same low (rw (known, made) at h)
      | inr (m, refused) ↦ absurd (not_ok (rw (known, refused) at h))
    ]
