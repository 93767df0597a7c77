-- ===== src/Amino/SignDoc/Escaping.antt =====
-- What the three replacements do together.
use cosmjs.Prelude.{
  ℕ, ◌≡◌, refl, ap, ◌≢◌, inl, inr, Bool, true, not, ◌&&◌, [], ◌∷◌, ◌++◌, arith, ◌==◌, if◌then◌else◌,
  Bool-cases, all, All, All-append, Text, codes,
}
use cosmjs.Amino.SignDoc.{replace_all, escape_characters}

-- The text for one character.
abbrev pub escaped : ℕ → Text
escaped c =
    if c == b'&'
    then codes "\\u0026"
    else if c == b'<'
    then codes "\\u003c"
    else if c == b'>'
    then codes "\\u003e"
    else c ∷ []

unfoldable pub escape_each : Text → Text
escape_each [] = []
escape_each (c ∷ s) = escaped c ++ escape_each s

-- None of the three characters.
abbrev pub IsEscaped : ℕ → Type 0
IsEscaped c = (c ≢ b'&') × (c ≢ b'<') × (c ≢ b'>')

escape_characters_each : (s : Text) → escape_characters s ≡ escape_each s
unfolding escape_characters escape_each replace_all
escape_characters_each [] = refl
escape_characters_each (c ∷ s) = elim (Bool-cases (c == b'&')) [
  | inl e ↦ rw e (ap (λ t. codes "\\u0026" ++ t) (escape_characters_each s))
  | inr e ↦ elim (Bool-cases (c == b'<')) [
    | inl e' ↦ rw (e, e') (ap (λ t. codes "\\u003c" ++ t) (escape_characters_each s))
    | inr e' ↦ elim (Bool-cases (c == b'>')) [
      | inl e'' ↦ rw (e, e', e'') (ap (λ t. codes "\\u003e" ++ t) (escape_characters_each s))
      | inr e'' ↦ rw (e, e', e'') (ap (λ t. c ∷ t) (escape_characters_each s))
    ]
  ]
]

abbrev is_escaped : ℕ → Bool
is_escaped c = not (c == b'&') && not (c == b'<') && not (c == b'>')

all-IsEscaped : (s : Text) → all is_escaped s ≡ true → All IsEscaped s
all-IsEscaped [] h = tt
all-IsEscaped (c ∷ s) h =
    ((ground arith, ground arith, ground arith), all-IsEscaped s (ground arith))

escaped-IsEscaped : (c : ℕ) → All IsEscaped (escaped c)
escaped-IsEscaped c = elim (Bool-cases (c == b'&')) [
  | inl e ↦ rw e (all-IsEscaped (codes "\\u0026") refl)
  | inr e ↦ elim (Bool-cases (c == b'<')) [
    | inl e' ↦ rw (e, e') (all-IsEscaped (codes "\\u003c") refl)
    | inr e' ↦ elim (Bool-cases (c == b'>')) [
      | inl e'' ↦ rw (e, e', e'') (all-IsEscaped (codes "\\u003e") refl)
      | inr e'' ↦ rw (e, e', e'') ((ground arith, ground arith, ground arith), tt)
    ]
  ]
]

escape_each-IsEscaped : (s : Text) → All IsEscaped (escape_each s)
unfolding escape_each
escape_each-IsEscaped [] = tt
escape_each-IsEscaped (c ∷ s) =
    All-append IsEscaped (escaped c) (escape_each s) (escaped-IsEscaped c) (escape_each-IsEscaped s)

-- The three replacements, one after the other, replace each `&`, `<` and `>` by its own text and keep
-- every other character; none of the three is left.
pub escape_characters_lem :
    (s : Text) → (escape_characters s ≡ escape_each s) × All IsEscaped (escape_characters s)
escape_characters_lem s =
    (escape_characters_each s, rw (escape_characters_each s) (escape_each-IsEscaped s))
