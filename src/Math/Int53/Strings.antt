-- ===== src/Math/Int53/Strings.antt =====
-- Int53 and Uint53 to decimal text and back.
use cosmjs.Prelude.{
  ℕ, suc, ◌≤◌, ◌<◌, ◌≡◌, refl, ◌↔◌, true, false, [], ◌∷◌, arith, ◌==◌, ◌>>=◌, ok, Text, is_digits,
  value_from, to_decimal, value-to_decimal, is_digits-to_decimal,
}
use cosmjs.Prelude.Int.{ℤ, pos, negsuc, pos_part, neg_part}
use cosmjs.Math.Number.{
  Number, int, number_of, number_of_safe, parse_int, negate, max_safe_integer, int_to_string,
}
use cosmjs.Math.Int53.{
  Uint53, Int53, new_int53, is_integer_text, parse_signed, from_string, to_string, new_uint53,
  uint53_from_string, uint53_to_string, uint53,
}

abbrev pub IsSafe : ℤ → Type 0
IsSafe z = (pos_part z ≤ max_safe_integer) × (neg_part z ≤ max_safe_integer)

-- A text of digits does not begin with a minus sign.
digits_not_minus : (c : ℕ) (s : Text) → is_digits (c ∷ s) ≡ true → (c == b'-') ≡ false
digits_not_minus c s h = ground arith

from_string_digits :
    (s : Text) → is_digits s ≡ true → (is_integer_text s ≡ true) × (parse_signed s ≡ parse_int s)
unfolding is_integer_text parse_signed
from_string_digits [] h = cc
from_string_digits (c ∷ s) h = rw (digits_not_minus c s h) (h, refl)

pub new_int53_safe : (z : ℤ) → IsSafe z → new_int53 (int z) ≡ ok (record { value = z })
unfolding new_int53
new_int53_safe z h = ground arith

-- Every safe integer is read back from its decimal text, the negative ones with their sign.
pub int53_from_string-to_string : (i : Int53) → IsSafe i.value → from_string (to_string i) ≡ ok i
unfolding from_string to_string
int53_from_string-to_string i h = go i.value h
  where
    go : (z : ℤ) → IsSafe z → from_string (int_to_string z) ≡ ok (record { value = z })
    go (pos n) safe =
        let (text, parsed) = from_string_digits (to_decimal n) (is_digits-to_decimal n) in
        unfold int_to_string in
        rw (text, parsed)
          (unfold parse_int in
            rw (value-to_decimal n, number_of_safe n safe.0) (new_int53_safe (pos n) safe))
    go (negsuc n) safe =
        unfold int_to_string is_integer_text parse_signed parse_int negate in
        rw (is_digits-to_decimal (suc n), value-to_decimal (suc n), number_of_safe (suc n) safe.1)
          (new_int53_safe (negsuc n) safe)

-- The constructor of Uint53 accepts exactly the safe integers that are not negative.
pub new_uint53_iff :
    (x : Number) (n : ℕ)
    → (new_uint53 x ≡ ok (uint53 n)) ↔ ((x ≡ int (pos n)) × (n ≤ max_safe_integer))
unfolding new_uint53
new_uint53_iff x n = (λ h. ground arith, λ h. ground arith)

-- A text of digits is accepted by `Uint53.fromString` exactly if its value is a safe integer,
-- which is then the result.
pub uint53_from_string_iff :
    (s : Text) (n : ℕ)
    → is_digits s ≡ true
    → (uint53_from_string s ≡ ok (uint53 n)) ↔ ((value_from 0 s ≡ n) × (n ≤ max_safe_integer))
unfolding uint53_from_string parse_int
uint53_from_string_iff s n h =
    let (text, parsed) = from_string_digits s h in rw (text, parsed) (step (value_from 0 s))
  where
    step :
        (m : ℕ)
        → ((new_int53 (number_of m) >>= λ signed. new_uint53 (int signed.value)) ≡ ok (uint53 n))
          ↔ ((m ≡ n) × (n ≤ max_safe_integer))
    step m = unfold number_of new_int53 new_uint53 in (λ e. ground arith, λ e. ground arith)

-- Every Uint53 is read back from its decimal text.
pub uint53_from_string-to_string :
    (n : ℕ)
    → n ≤ max_safe_integer
    → uint53_from_string (uint53_to_string (uint53 n)) ≡ ok (uint53 n)
unfolding uint53_to_string to_string int_to_string
uint53_from_string-to_string n h =
    (uint53_from_string_iff (to_decimal n) n (is_digits-to_decimal n)).1 (value-to_decimal n, h)

-- A greater value is refused.
pub uint53_from_string_above :
    (s : Text) (u : Uint53)
    → is_digits s ≡ true
    → max_safe_integer < value_from 0 s
    → uint53_from_string s ≡ ok u
    → ⊥
unfolding uint53_from_string parse_int
uint53_from_string_above s u h above e =
    let (text, parsed) = from_string_digits s h in
    step (value_from 0 s) above (rw (text, parsed) at e)
  where
    step :
        (m : ℕ)
        → max_safe_integer < m
        → (new_int53 (number_of m) >>= λ signed. new_uint53 (int signed.value)) ≡ ok u
        → ⊥
    step m lt eq = unfold number_of new_int53 new_uint53 in ground arith
