-- ===== src/Crypto/Bip39/Words.antt =====
-- The words are in strictly ascending order, so that each has one index.
use cosmjs.Prelude.{
  ℕ, zero, suc, ◌<◌, ◌≡◌, refl, inl, inr, Bool, true, ◌&&◌, some, List, [], ◌∷◌, arith, Bool-cases,
  length, get_or, all, All, Text, text_eq, text_eq_refl, text_eq_sound, text_less, text_less_irrefl,
  text_less_trans,
}
use cosmjs.Crypto.Bip39.Wordlist.{wordlist}
use cosmjs.Crypto.Bip39.{index_of, is_lower_word}

is_ascending : List Text → Bool
is_ascending [] = true
is_ascending (x ∷ []) = true
is_ascending (x ∷ y ∷ xs) = text_less x y && is_ascending (y ∷ xs)

wordlist_ascending : is_ascending wordlist ≡ true
unfolding is_ascending text_less wordlist
wordlist_ascending = refl

pub length-wordlist : length wordlist ≡ 2048
unfolding wordlist
length-wordlist = refl

-- All later words are greater.
abbrev Below : Text → List Text → Type 0
Below x ws = All (λ w. text_less x w ≡ true) ws

Below-trans : (x y : Text) (ws : List Text) → text_less x y ≡ true → Below y ws → Below x ws
Below-trans x y [] h k = tt
Below-trans x y (w ∷ ws) h (kw, k) = (text_less_trans x y w h kw, Below-trans x y ws h k)

Below-tail : (x : Text) (ws : List Text) → is_ascending (x ∷ ws) ≡ true → Below x ws
unfolding is_ascending
Below-tail x [] h = tt
Below-tail x (y ∷ ws) h =
    (ground arith, Below-trans x y ws (ground arith) (Below-tail y ws (ground arith)))

ascending_tail : (x : Text) (ws : List Text) → is_ascending (x ∷ ws) ≡ true → is_ascending ws ≡ true
unfolding is_ascending
ascending_tail x [] h = refl
ascending_tail x (y ∷ ws) h = ground arith

Below-get_or :
    (x : Text) (ws : List Text) (i : ℕ)
    → Below x ws
    → i < length ws
    → text_less x (get_or ws i []) ≡ true
Below-get_or x [] i h k = absurd (omega arith)
Below-get_or x (w ∷ ws) zero h k = h.0
Below-get_or x (w ∷ ws) (suc i) h k = Below-get_or x ws i h.1 (omega arith)

index_of-get_or :
    (ws : List Text) (i : ℕ)
    → is_ascending ws ≡ true
    → i < length ws
    → index_of ws (get_or ws i []) ≡ some i
unfolding index_of
index_of-get_or [] i h k = absurd (omega arith)
index_of-get_or (w ∷ ws) zero h k = rw (text_eq_refl w)
index_of-get_or (w ∷ ws) (suc i) h k = elim (Bool-cases (text_eq w (get_or ws i []))) [
  | inl same ↦ absurd (
      text_less_irrefl w (
        rw (← text_eq_sound w (get_or ws i []) same) at
          (Below-get_or w ws i (Below-tail w ws h) (omega arith))))
  | inr other ↦ rw (other, index_of-get_or ws i (ascending_tail w ws h) (omega arith))
]

-- Each of the 2048 words is found at its index.
pub index_of-wordlist : (i : ℕ) → i < 2048 → index_of wordlist (get_or wordlist i []) ≡ some i
index_of-wordlist i h = index_of-get_or wordlist i wordlist_ascending (rw length-wordlist h)

wordlist_lower : all is_lower_word wordlist ≡ true
unfolding wordlist
wordlist_lower = refl

all-get_or :
    (ws : List Text) (i : ℕ)
    → all is_lower_word ws ≡ true
    → i < length ws
    → is_lower_word (get_or ws i []) ≡ true
all-get_or [] i h k = absurd (omega arith)
all-get_or (w ∷ ws) zero h k = ground arith
all-get_or (w ∷ ws) (suc i) h k = all-get_or ws i (ground arith) (omega arith)

-- Each of the words consists of one or more letters from a to z.
pub is_lower_word-wordlist : (i : ℕ) → i < 2048 → is_lower_word (get_or wordlist i []) ≡ true
is_lower_word-wordlist i h = all-get_or wordlist i wordlist_lower (rw length-wordlist h)
