-- ===== src/Prelude/Texts.antt =====
-- JavaScript strings as lists of UTF-16 code units, byte arrays as lists of numbers below 256,
-- and the decimal notation of natural numbers.
use Prim.Native.Char.{code}
use Prim.Native.String.{String}
use Prim.Native.Nat.{ℕ, zero, suc, ◌+◌, ◌-◌, ◌*◌, ◌/◌, ◌%◌, ◌^◌, ◌≤◌, ◌<◌}
use mathlib.Core.Path.{◌≡◌, refl, ap, ◌∙◌}
use mathlib.Core.Logic.{◌≢◌}
use mathlib.Core.Bool.{Bool, true, false, ◌&&◌}
use mathlib.Core.List.{List, [], ◌∷◌, ◌++◌}
use native.Mathlib.Nat.{pow-suc, pow-zero}
use native.Mathlib.Omega.{arith}
use cosmjs.Prelude.Tests.{leb, ◌==◌, if◌then◌else◌}
use cosmjs.Prelude.Lists.{replicate, All, all, length}

abbrev pub Text : Type 0
Text = List ℕ

abbrev pub Bytes : Type 0
Bytes = List ℕ

-- The code units of an ASCII literal.
abbrev pub codes : String → Text
codes String.[] = []
codes (String.◌∷◌ c s) = code c ∷ codes s

abbrev pub text_eq : Text → Text → Bool
text_eq [] [] = true
text_eq (x ∷ xs) (y ∷ ys) = x == y && text_eq xs ys
text_eq _ _ = false

-- `[0-9]`
abbrev pub is_digit : ℕ → Bool
is_digit c = leb b'0' c && leb c b'9'

-- `/^[0-9]+$/`
abbrev pub is_digits : Text → Bool
is_digits [] = false
is_digits (c ∷ s) = is_digit c && all is_digit s

abbrev pub IsByte : ℕ → Type 0
IsByte b = b < 256

abbrev pub IsDigit : ℕ → Type 0
IsDigit c = (b'0' ≤ c) × (c ≤ b'9')

abbrev pub cons_head : ℕ → List Text → List Text
cons_head c [] = (c ∷ []) ∷ []
cons_head c (p ∷ ps) = (c ∷ p) ∷ ps

-- `s.split(separator)` by one character.
unfoldable pub split : ℕ → Text → List Text
split sep [] = [] ∷ []
split sep (c ∷ s) = if c == sep then [] ∷ split sep s else cons_head c (split sep s)

-- The longest run of digits at the start, `[0-9]*`, and the rest.
unfoldable pub span_digits : Text → Text × Text
span_digits [] = ([], [])
span_digits (c ∷ s) = if is_digit c then (c ∷ (span_digits s).0, (span_digits s).1) else ([], c ∷ s)

abbrev pub StartsWithNoDigit : Text → Type 0
StartsWithNoDigit [] = Unit
StartsWithNoDigit (c ∷ s) = is_digit c ≡ false

-- `s.replace(/^0*/, "") || "0"`
unfoldable pub drop_zeros : Text → Text
drop_zeros [] = []
drop_zeros (c ∷ s) = if c == b'0' then drop_zeros s else c ∷ s

unfoldable pub or_zero : Text → Text
or_zero [] = b'0' ∷ []
or_zero (c ∷ s) = c ∷ s

-- The number that decimal digits spell behind `acc`.
unfoldable pub value_from : ℕ → Text → ℕ
value_from acc [] = acc
value_from acc (c ∷ s) = value_from (acc * 10 + (c - b'0')) s

digits_from : ℕ → ℕ → Text → Text
digits_from zero n out = out
digits_from (suc f) n out =
    let rest = digits_from f (n / 10) ((b'0' + n % 10) ∷ out) in if n == 0 then out else rest

-- `n.toString()` of a natural number; `n` rounds are enough, since each divides by ten.
unfoldable pub to_decimal : ℕ → Text
unfolding digits_from
to_decimal n = if n == 0 then b'0' ∷ [] else digits_from n n []

value-digits_from :
    (f n : ℕ) (out : Text) → n ≤ f → value_from 0 (digits_from f n out) ≡ value_from n out
unfolding value_from digits_from
value-digits_from zero zero out h = refl
value-digits_from zero (suc n) out h = elim h [ ]
value-digits_from (suc f) n out h =
    ground (arith, value-digits_from f (n / 10) ((b'0' + n % 10) ∷ out))

pub value-to_decimal : (n : ℕ) → value_from 0 (to_decimal n) ≡ n
unfolding value_from to_decimal
value-to_decimal n = ground (arith, value-digits_from n n [])

All-digits_from : (f n : ℕ) (out : Text) → All IsDigit out → All IsDigit (digits_from f n out)
unfolding digits_from
All-digits_from zero n out h = h
All-digits_from (suc f) n out h =
    ground
      (arith, All-digits_from f (n / 10) ((b'0' + n % 10) ∷ out) ((omega arith, omega arith), h))

pub to_decimal-IsDigit : (n : ℕ) → All IsDigit (to_decimal n)
unfolding to_decimal
to_decimal-IsDigit n = ground (arith, All-digits_from n n [] tt)

digits_from-ne-nil : (f n : ℕ) (out : Text) → out ≢ [] → digits_from f n out ≢ []
unfolding digits_from
digits_from-ne-nil zero n out h = h
digits_from-ne-nil (suc f) n out h =
    ground (arith, digits_from-ne-nil f (n / 10) ((b'0' + n % 10) ∷ out))

pub to_decimal-ne-nil : (n : ℕ) → to_decimal n ≢ []
unfolding to_decimal digits_from
to_decimal-ne-nil zero = ground arith
to_decimal-ne-nil (suc n) =
    ground (arith, digits_from-ne-nil n (suc n / 10) ((b'0' + suc n % 10) ∷ []))

pub all-is_digit : (s : Text) → All IsDigit s → all is_digit s ≡ true
all-is_digit [] h = refl
all-is_digit (c ∷ s) h = ground (arith, all-is_digit s h.1)

pub All-IsDigit : (s : Text) → all is_digit s ≡ true → All IsDigit s
All-IsDigit [] h = tt
All-IsDigit (c ∷ s) h = ground (arith, All-IsDigit s)

pub is_digits_of_All : (s : Text) → s ≢ [] → All IsDigit s → is_digits s ≡ true
is_digits_of_All [] h _ = absurd (h refl)
is_digits_of_All (c ∷ s) _ h = all-is_digit (c ∷ s) h

pub is_digits-to_decimal : (n : ℕ) → is_digits (to_decimal n) ≡ true
is_digits-to_decimal n = is_digits_of_All _ (to_decimal-ne-nil n) (to_decimal-IsDigit n)

length-digits_from :
    (f n d : ℕ) (out : Text) → n ≤ f → n < 10 ^ d → length (digits_from f n out) ≤ d + length out
unfolding digits_from
length-digits_from zero n d out h lt = omega arith
length-digits_from (suc f) zero d out h lt = omega arith
length-digits_from (suc f) (suc n) zero out h lt = absurd (omega (arith, pow-zero 10))
length-digits_from (suc f) (suc n) (suc d) out h lt = ground (
  arith,
  length-digits_from f (suc n / 10) d ((b'0' + suc n % 10) ∷ out) (omega arith)
      (omega (arith, pow-suc 10 d)),
)

-- A positive number below 10^d has at most d digits.
pub length-to_decimal : (n d : ℕ) → 0 < n → n < 10 ^ d → length (to_decimal n) ≤ d
unfolding to_decimal
length-to_decimal n d h lt = ground (arith, length-digits_from n n d [])

-- The run ends where no digit follows.
pub span_digits_lem :
    (s d : Text) → All IsDigit s → StartsWithNoDigit d → span_digits (s ++ d) ≡ (s, d)
unfolding span_digits
span_digits_lem [] [] h hd = refl
span_digits_lem [] (c ∷ d) h hd = rw hd
span_digits_lem (c ∷ s) d (hc, h) hd =
    let e : is_digit c ≡ true = ground arith in rw (e, span_digits_lem s d h hd)

pub is_digits_ne_nil : (s : Text) → is_digits s ≡ true → s ≢ []
is_digits_ne_nil [] h = cc
is_digits_ne_nil (c ∷ s) h = ground arith

pub append_nil_left : (s t : Text) → s ++ t ≡ [] → s ≡ []
append_nil_left [] t e = refl
append_nil_left (c ∷ s) t e = cc

-- A positive number begins with a digit that is not zero.
drop_zeros-digits_from :
    (f n c : ℕ) (out : Text)
    → n ≤ f
    → 0 < n * 10 + (c - b'0')
    → drop_zeros (digits_from f n (c ∷ out)) ≡ digits_from f n (c ∷ out)
unfolding digits_from drop_zeros
drop_zeros-digits_from zero n c out h p = let e : (c == b'0') ≡ false = ground arith in rw e
drop_zeros-digits_from (suc f) zero c out h p = let e : (c == b'0') ≡ false = ground arith in rw e
drop_zeros-digits_from (suc f) (suc n) c out h p =
    let e : (suc n == 0) ≡ false = ground arith in
    rw e (
      drop_zeros-digits_from f (suc n / 10) (b'0' + suc n % 10) (c ∷ out) (omega arith)
        (omega arith))

or_zero_lem : (s : Text) → s ≢ [] → or_zero s ≡ s
unfolding or_zero
or_zero_lem [] h = absurd (h refl)
or_zero_lem (c ∷ s) h = refl

-- Dropping zeros at the start of the decimal notation of a number changes nothing.
pub or_zero-drop_zeros : (n : ℕ) → or_zero (drop_zeros (to_decimal n)) ≡ to_decimal n
unfolding to_decimal digits_from
or_zero-drop_zeros zero = unfold or_zero drop_zeros in refl
or_zero-drop_zeros (suc n) =
    let c = b'0' + suc n % 10 in
    let e : (suc n == 0) ≡ false = ground arith in
    rw e (
      ap or_zero (drop_zeros-digits_from n (suc n / 10) c [] (omega arith) (omega arith))
      ∙ or_zero_lem _ (digits_from-ne-nil n (suc n / 10) (c ∷ []) (ground arith)))

to_decimal_example : to_decimal 1203 ≡ codes "1203"
unfolding to_decimal
to_decimal_example = refl

pub text_eq_refl : (s : Text) → text_eq s s ≡ true
text_eq_refl [] = refl
text_eq_refl (c ∷ s) = ground (arith, text_eq_refl s)

pub text_eq_sound : (s t : Text) → text_eq s t ≡ true → s ≡ t
text_eq_sound [] [] h = refl
text_eq_sound [] (d ∷ t) h = cc
text_eq_sound (c ∷ s) [] h = cc
text_eq_sound (c ∷ s) (d ∷ t) h = ground (arith, text_eq_sound s t)

pub replicate-IsByte : (n b : ℕ) → IsByte b → All IsByte (replicate n b)
replicate-IsByte zero b h = tt
replicate-IsByte (suc n) b h = (h, replicate-IsByte n b h)
