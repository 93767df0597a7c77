-- ===== src/Math/BigNumber.antt =====
-- The package bn.js, which is not part of the repository: its operations as far as
-- packages/math/src calls them, with what its documentation says of them. `value` is the integer
-- that a BN stands for; the code never sees it. `native` shows that the record can be filled.
use Prim.Native.Nat.{compare, Ordering}
use mathlib.Core.List.{reverse}
use cosmjs.Prelude.{
  ℕ, zero, suc, ◌+◌, ◌*◌, ◌/◌, ◌%◌, ◌^◌, ◌<◌, ◌≡◌, refl, ap, Bool, true, false, [], ◌∷◌, ltb, ◌==◌,
  Text, Bytes, is_digits, value_from, to_decimal,
}
use cosmjs.Prelude.Int.{ℤ, pos, negsuc, sub_ℕ}

abbrev pub is_neg_ℤ : ℤ → Bool
is_neg_ℤ (pos n) = false
is_neg_ℤ (negsuc n) = true

-- Bytes in big-endian order as a number.
unfoldable pub bytes_value : ℕ → Bytes → ℕ
bytes_value acc [] = acc
bytes_value acc (b ∷ bs) = bytes_value (acc * 256 + b) bs

-- The k lowest bytes of a number, the highest first, before `out`.
unfoldable pub bytes_from : ℕ → ℕ → Bytes → Bytes
bytes_from zero n out = out
bytes_from (suc k) n out = bytes_from k (n / 256) ((n % 256) ∷ out)

pub record BigNumber : Type 1 where
  pub BN : Type 0
  pub value : BN → ℤ
  -- new BN(text) of decimal digits, new BN(bytes), and new BN(number) of a safe integer
  pub of_digits : Text → BN
  pub of_bytes : Bytes → BN
  pub of_int : ℤ → BN
  -- toString(), toArray("be", length) and toArray("le", length)
  pub print : BN → Text
  pub to_array : BN → ℕ → Bytes
  pub to_array_le : BN → ℕ → Bytes
  pub add : BN → BN → BN
  pub sub : BN → BN → BN
  pub mul : BN → BN → BN
  pub div : BN → BN → BN
  pub mod_of : BN → BN → BN
  pub pow : BN → BN → BN
  pub addn : BN → ℕ → BN
  -- cmp() as the sign of its result, gt(), isZero(), and isNeg(), which is also ltn(0)
  pub cmp : BN → BN → Ordering
  pub gt : BN → BN → Bool
  pub is_zero : BN → Bool
  pub is_neg : BN → Bool
  pub value-of_digits : (s : Text) → is_digits s ≡ true → value (of_digits s) ≡ pos (value_from 0 s)
  pub value-of_bytes : (bs : Bytes) → value (of_bytes bs) ≡ pos (bytes_value 0 bs)
  pub value-of_int : (z : ℤ) → value (of_int z) ≡ z
  pub print_lem : (x : BN) (n : ℕ) → value x ≡ pos n → print x ≡ to_decimal n
  pub to_array_lem :
      (x : BN) (n k : ℕ) → value x ≡ pos n → n < 256 ^ k → to_array x k ≡ bytes_from k n []
  pub to_array_le_lem :
      (x : BN) (n k : ℕ)
      → value x ≡ pos n
      → n < 256 ^ k
      → to_array_le x k ≡ reverse (bytes_from k n [])
  pub value-add :
      (x y : BN) (m n : ℕ) → value x ≡ pos m → value y ≡ pos n → value (add x y) ≡ pos (m + n)
  pub value-sub :
      (x y : BN) (m n : ℕ) → value x ≡ pos m → value y ≡ pos n → value (sub x y) ≡ sub_ℕ m n
  pub value-mul :
      (x y : BN) (m n : ℕ) → value x ≡ pos m → value y ≡ pos n → value (mul x y) ≡ pos (m * n)
  pub value-div :
      (x y : BN) (m n : ℕ)
      → value x ≡ pos m
      → value y ≡ pos n
      → 0 < n
      → value (div x y) ≡ pos (m / n)
  pub value-mod :
      (x y : BN) (m n : ℕ)
      → value x ≡ pos m
      → value y ≡ pos n
      → 0 < n
      → value (mod_of x y) ≡ pos (m % n)
  pub value-pow :
      (x y : BN) (m n : ℕ) → value x ≡ pos m → value y ≡ pos n → value (pow x y) ≡ pos (m ^ n)
  pub value-addn : (x : BN) (m k : ℕ) → value x ≡ pos m → value (addn x k) ≡ pos (m + k)
  pub cmp_lem : (x y : BN) (m n : ℕ) → value x ≡ pos m → value y ≡ pos n → cmp x y ≡ compare m n
  pub gt_lem : (x y : BN) (m n : ℕ) → value x ≡ pos m → value y ≡ pos n → gt x y ≡ ltb n m
  pub is_zero_lem : (x : BN) (m : ℕ) → value x ≡ pos m → is_zero x ≡ (m == 0)
  pub is_neg_lem : (x : BN) → is_neg x ≡ is_neg_ℤ (value x)

-- A concrete arbitrary-precision integer.
abbrev pub print_ℤ : ℤ → Text
print_ℤ (pos n) = to_decimal n
print_ℤ (negsuc n) = b'-' ∷ to_decimal (suc n)

abbrev pub magnitude : ℤ → ℕ
magnitude (pos n) = n
magnitude (negsuc n) = suc n

abbrev pub lift₂ : (ℕ → ℕ → ℕ) → ℤ → ℤ → ℤ
lift₂ f x y = pos (f (magnitude x) (magnitude y))

pub lift₂_lem :
    (f : ℕ → ℕ → ℕ) (x y : ℤ) (m n : ℕ) → x ≡ pos m → y ≡ pos n → lift₂ f x y ≡ pos (f m n)
lift₂_lem f x y m n hx hy = rw (hx, hy)

pub native_print : (x : ℤ) (n : ℕ) → x ≡ pos n → print_ℤ x ≡ to_decimal n
native_print x n h = rw h

pub native_array :
    (x : ℤ) (n k : ℕ) → x ≡ pos n → n < 256 ^ k → bytes_from k (magnitude x) [] ≡ bytes_from k n []
native_array x n k h _ = rw h

pub native_array_le :
    (x : ℤ) (n k : ℕ)
    → x ≡ pos n
    → n < 256 ^ k
    → reverse (bytes_from k (magnitude x) []) ≡ reverse (bytes_from k n [])
native_array_le x n k h _ = rw h

pub native_gt :
    (x y : ℤ) (m n : ℕ) → x ≡ pos m → y ≡ pos n → ltb (magnitude y) (magnitude x) ≡ ltb n m
native_gt x y m n hx hy = rw (hx, hy)

pub native_sub :
    (x y : ℤ) (m n : ℕ) → x ≡ pos m → y ≡ pos n → sub_ℕ (magnitude x) (magnitude y) ≡ sub_ℕ m n
native_sub x y m n hx hy = rw (hx, hy)

pub native_cmp :
    (x y : ℤ) (m n : ℕ) → x ≡ pos m → y ≡ pos n → compare (magnitude x) (magnitude y) ≡ compare m n
native_cmp x y m n hx hy = rw (hx, hy)

pub native_is_zero : (x : ℤ) (m : ℕ) → x ≡ pos m → (magnitude x == 0) ≡ (m == 0)
native_is_zero x m h = rw h

abbrev pub native : BigNumber
native = record {
  BN = ℤ;
  value = λ x. x;
  of_digits = λ s. pos (value_from 0 s);
  of_bytes = λ bs. pos (bytes_value 0 bs);
  of_int = λ z. z;
  print = print_ℤ;
  to_array = λ x k. bytes_from k (magnitude x) [];
  to_array_le = λ x k. reverse (bytes_from k (magnitude x) []);
  add = lift₂ (λ m n. m + n);
  sub = λ x y. sub_ℕ (magnitude x) (magnitude y);
  mul = lift₂ (λ m n. m * n);
  div = lift₂ (λ m n. m / n);
  mod_of = lift₂ (λ m n. m % n);
  pow = lift₂ (λ m n. m ^ n);
  addn = λ x k. pos (magnitude x + k);
  cmp = λ x y. compare (magnitude x) (magnitude y);
  gt = λ x y. ltb (magnitude y) (magnitude x);
  is_zero = λ x. magnitude x == 0;
  is_neg = is_neg_ℤ;
  value-of_digits = λ s h. refl;
  value-of_bytes = λ bs. refl;
  value-of_int = λ z. refl;
  print_lem = native_print;
  to_array_lem = native_array;
  to_array_le_lem = native_array_le;
  value-add = lift₂_lem (λ m n. m + n);
  value-sub = native_sub;
  value-mul = lift₂_lem (λ m n. m * n);
  value-div = λ x y m n hx hy _. lift₂_lem (λ a b. a / b) x y m n hx hy;
  value-mod = λ x y m n hx hy _. lift₂_lem (λ a b. a % b) x y m n hx hy;
  value-pow = lift₂_lem (λ m n. m ^ n);
  value-addn = λ x m k h. ap (λ (t : ℤ). pos (magnitude t + k)) h;
  cmp_lem = native_cmp;
  gt_lem = native_gt;
  is_zero_lem = native_is_zero;
  is_neg_lem = λ x. refl;
}
