-- ===== src/Amino/Coins/Print.antt =====
-- Reading printed coins.
use mathlib.Core.Path.{subst}
use cosmjs.Prelude.{
  ℕ, ◌+◌, ◌-◌, ◌*◌, ◌≡◌, refl, sym, ap, ◌∙◌, ◌≢◌, inl, inr, true, false, List, [], ◌∷◌, ◌++◌, map,
  append_assoc, append-nil, arith, ◌==◌, Bool-cases, all, All, All-append, ok, Text, is_digits,
  IsDigit, split, StartsWithNoDigit, drop_zeros, or_zero, value_from, to_decimal,
  to_decimal-IsDigit, is_digits-to_decimal, span_digits_lem, is_digits_ne_nil, append_nil_left,
  or_zero-drop_zeros,
}
use cosmjs.Amino.Coins.{
  Coin, as_text, coin, is_space, remove_spaces, nonempty, is_denom_char, is_denom, parse_coin,
  parse_all, parse_coins,
}

-- A decimal amount with no leading zeros, and a denom that the pattern of the parser fits.
abbrev pub IsCoin : Coin → Type 0
IsCoin c = ((n : ℕ) × (c.amount ≡ to_decimal n)) × (is_denom c.denom ≡ true)

-- `amount` directly before `denom`, coins separated by commas.
abbrev pub print_coin : Coin → Text
print_coin c = c.amount ++ c.denom

unfoldable pub print_coins : List Coin → Text
print_coins [] = []
print_coins (c ∷ []) = print_coin c
print_coins (c ∷ d ∷ cs) = print_coin c ++ b',' ∷ print_coins (d ∷ cs)

-- No space and no comma stands in an amount or a denom.
abbrev IsPlain : ℕ → Type 0
IsPlain c = (is_space c ≡ false) × (c ≢ b',')

digit-IsPlain : (c : ℕ) → IsDigit c → IsPlain c
unfolding is_space
digit-IsPlain c h = ground arith

denom_char-IsPlain : (c : ℕ) → is_denom_char c ≡ true → IsPlain c
unfolding is_space
denom_char-IsPlain c h = ground arith

digits-IsPlain : (s : Text) → All IsDigit s → All IsPlain s
digits-IsPlain [] h = tt
digits-IsPlain (c ∷ s) (hc, h) = (digit-IsPlain c hc, digits-IsPlain s h)

denom_chars-IsPlain : (s : Text) → all is_denom_char s ≡ true → All IsPlain s
denom_chars-IsPlain [] h = tt
denom_chars-IsPlain (c ∷ s) h =
    (denom_char-IsPlain c (ground arith), denom_chars-IsPlain s (ground arith))

denom-IsPlain : (s : Text) → is_denom s ≡ true → All IsPlain s
unfolding is_denom
denom-IsPlain [] h = cc
denom-IsPlain (c ∷ s) h = denom_chars-IsPlain (c ∷ s) (ground arith)

remove_spaces_plain : (s t : Text) → All IsPlain s → remove_spaces (s ++ t) ≡ s ++ remove_spaces t
unfolding remove_spaces
remove_spaces_plain [] t h = refl
remove_spaces_plain (c ∷ s) t ((hc, _), h) = rw (hc, remove_spaces_plain s t h)

split_plain : (s : Text) → All IsPlain s → split b',' s ≡ s ∷ []
unfolding split
split_plain [] h = refl
split_plain (c ∷ s) ((_, hc), h) =
    let e : (c == b',') ≡ false = ground arith in rw (e, split_plain s h)

split_at_comma : (s t : Text) → All IsPlain s → split b',' (s ++ b',' ∷ t) ≡ s ∷ split b',' t
unfolding split
split_at_comma [] t h = refl
split_at_comma (c ∷ s) t ((_, hc), h) =
    let e : (c == b',') ≡ false = ground arith in rw (e, split_at_comma s t h)

-- The digits end where the denom begins.
denom_no_digit : (d : Text) → is_denom d ≡ true → StartsWithNoDigit d
unfolding is_denom
denom_no_digit [] hd = tt
denom_no_digit (c ∷ d) hd = ground arith

-- Zeros are dropped from no number in its decimal notation.
module _ (c : Coin) (h : IsCoin c) where
  amount_IsDigit : All IsDigit c.amount
  amount_IsDigit = rw h.0.1 (to_decimal-IsDigit h.0.0)

  amount_is_digits : is_digits c.amount ≡ true
  amount_is_digits = rw h.0.1 (is_digits-to_decimal h.0.0)

  amount_canonical : or_zero (drop_zeros c.amount) ≡ c.amount
  amount_canonical = rw h.0.1 (or_zero-drop_zeros h.0.0)

  coin-IsPlain : All IsPlain (print_coin c)
  coin-IsPlain =
      All-append IsPlain c.amount c.denom (digits-IsPlain c.amount amount_IsDigit)
        (denom-IsPlain c.denom h.1)

  coin_ne_nil : (t : Text) → print_coin c ++ t ≢ []
  coin_ne_nil t e = absurd (
      is_digits_ne_nil c.amount amount_is_digits
        (append_nil_left c.amount (c.denom ++ t) (sym (append_assoc c.amount c.denom t) ∙ e)))

  parse_coin-print : parse_coin (print_coin c) ≡ ok c
  unfolding parse_coin
  parse_coin-print = rw (
    span_digits_lem c.amount c.denom amount_IsDigit (denom_no_digit c.denom h.1),
    amount_is_digits,
    h.1,
    amount_canonical,
  )

-- The parts of a printed list are the printed coins.
parts : List Coin → List Text
parts cs = map print_coin cs

abbrev AllCoins : List Coin → Type 0
AllCoins = All IsCoin

nonempty_text : (s : Text) (ps : List Text) → s ≢ [] → nonempty (s ∷ ps) ≡ s ∷ nonempty ps
unfolding nonempty
nonempty_text [] ps h = absurd (h refl)
nonempty_text (c ∷ s) ps h = refl

print_ne_nil : (c : Coin) → IsCoin c → print_coin c ≢ []
print_ne_nil c h e = coin_ne_nil c h [] (append-nil (print_coin c) ∙ e)

remove_comma :
    (s t : Text)
    → All IsPlain s
    → remove_spaces t ≡ t
    → remove_spaces (s ++ b',' ∷ t) ≡ s ++ b',' ∷ t
unfolding remove_spaces
remove_comma s t h e = remove_spaces_plain s (b',' ∷ t) h ∙ ap (λ (u : Text). s ++ u) (rw e)

remove_spaces_print :
    (cs : List Coin) → AllCoins cs → remove_spaces (print_coins cs) ≡ print_coins cs
unfolding print_coins
remove_spaces_print [] h = unfold remove_spaces in refl
remove_spaces_print (c ∷ []) (hc, _) =
    subst (λ (t : Text). remove_spaces t ≡ t) (append-nil (print_coin c))
      (remove_spaces_plain (print_coin c) [] (coin-IsPlain c hc)
        ∙ ap (λ (t : Text). print_coin c ++ t) (unfold remove_spaces in refl))
remove_spaces_print (c ∷ d ∷ cs) (hc, h) =
    remove_comma (print_coin c) (print_coins (d ∷ cs)) (coin-IsPlain c hc)
      (remove_spaces_print (d ∷ cs) h)

split_print :
    (c : Coin) (cs : List Coin)
    → AllCoins (c ∷ cs)
    → split b',' (print_coins (c ∷ cs)) ≡ parts (c ∷ cs)
unfolding print_coins parts
split_print c [] (hc, _) = split_plain (print_coin c) (coin-IsPlain c hc)
split_print c (d ∷ cs) (hc, h) =
    split_at_comma (print_coin c) (print_coins (d ∷ cs)) (coin-IsPlain c hc)
    ∙ ap (λ (t : List Text). print_coin c ∷ t) (split_print d cs h)

nonempty-parts : (cs : List Coin) → AllCoins cs → nonempty (parts cs) ≡ parts cs
unfolding parts
nonempty-parts [] h = unfold nonempty in refl
nonempty-parts (c ∷ cs) (hc, h) =
    nonempty_text (print_coin c) (map print_coin cs) (print_ne_nil c hc)
    ∙ ap (λ (t : List Text). print_coin c ∷ t) (nonempty-parts cs h)

parse_all-parts : (cs : List Coin) → AllCoins cs → parse_all (parts cs) ≡ ok cs
unfolding parse_all parts
parse_all-parts [] h = refl
parse_all-parts (c ∷ cs) (hc, h) = rw (parse_coin-print c hc, parse_all-parts cs h)

-- `parseCoins` reads back every list of coins that is printed with commas between them, if the
-- amounts have no leading zeros and the denoms fit the pattern.
pub parse_coins-print_coins :
    (cs : List Coin) → All IsCoin cs → parse_coins (print_coins cs) ≡ ok cs
unfolding parse_coins
parse_coins-print_coins [] h = unfold print_coins remove_spaces split nonempty parse_all in refl
parse_coins-print_coins (c ∷ cs) h =
    rw (remove_spaces_print (c ∷ cs) h, split_print c cs h, nonempty-parts (c ∷ cs) h)
      (parse_all-parts (c ∷ cs) h)

value-drop_zeros : (s : Text) → value_from 0 (drop_zeros s) ≡ value_from 0 s
unfolding value_from drop_zeros
value-drop_zeros [] = refl
value-drop_zeros (c ∷ s) = elim (Bool-cases (c == b'0')) [
  | inl z ↦ let e : 0 * 10 + (c - b'0') ≡ 0 = ground arith in rw (z, e) (value-drop_zeros s)
  | inr nz ↦ rw nz
]

value-or_zero : (s : Text) → value_from 0 (or_zero s) ≡ value_from 0 s
unfolding value_from or_zero
value-or_zero [] = refl
value-or_zero (c ∷ s) = refl

-- Dropping leading zeros keeps the value: the amount that `coin` makes of a text of digits has
-- the same value as the text, and the denom is the given one.
pub coin-value :
    (amount denom : Text) (c : Coin)
    → coin (as_text amount) denom ≡ ok c
    → (value_from 0 c.amount ≡ value_from 0 amount) × (c.denom ≡ denom) × (is_digits amount ≡ true)
unfolding coin
coin-value amount denom c h = elim (Bool-cases (is_digits amount)) [
  | inl good ↦
      let e : ok (record { denom = denom; amount = or_zero (drop_zeros amount) }) ≡ ok c =
        rw good at h in
      let a : or_zero (drop_zeros amount) ≡ c.amount = ground arith in
      (rw (← a) (value-or_zero (drop_zeros amount) ∙ value-drop_zeros amount), ground arith, good)
  | inr bad ↦ absurd (ground arith)
]
