-- ===== src/Stargate/AminoTypes/Laws.antt =====
-- The register with unique Amino types gives each message back.
use cosmjs.Prelude.{
  ◌≡◌, refl, sym, ap, ◌∙◌, inl, inr, true, some, [], ◌∷◌, ◌++◌, Bool-cases, ok, throws, Text,
  text_eq, text_eq_refl, text_eq_sound,
}
use cosmjs.Stargate.AminoTypes.{
  AminoConverter, AminoConverters, EncodeObject, converter_of, to_amino, matches, read_match,
  from_amino,
}

module _ {ℓ} {M J : Type ℓ} where
  -- No two entries have the same Amino type.
  abbrev pub Distinct : AminoConverters M J → Type ℓ
  Distinct [] = Unit
  Distinct ((key, converter) ∷ register) =
      (matches register converter.amino_type ≡ []) × Distinct register

  cons_ne_nil : {entry : Text × AminoConverter M J} → entry ∷ [] ≡ [] → ⊥
  cons_ne_nil e = cc

  matches_one :
      (register : AminoConverters M J) (type_url : Text) (c : AminoConverter M J)
      → Distinct register
      → converter_of register type_url ≡ some c
      → matches register c.amino_type ≡ (type_url, c) ∷ []
  unfolding matches converter_of
  matches_one [] type_url c distinct found = absurd cc
  matches_one ((key, d) ∷ register) type_url c (no_other, distinct) found =
      elim (Bool-cases (text_eq key type_url)) [
        | inl here ↦
            let same : some d ≡ some c = rw here at found in
            let is_d : d ≡ c = cc in
            rw (← is_d, text_eq_refl d.amino_type, no_other)
              (ap (λ (k : Text). (k, d) ∷ []) (text_eq_sound key type_url here))
        | inr elsewhere ↦
            let later : converter_of register type_url ≡ some c = rw elsewhere at found in
            let one = matches_one register type_url c distinct later in
            elim (Bool-cases (text_eq d.amino_type c.amino_type)) [
              | inl clash ↦
                  let both : matches register c.amino_type ≡ [] =
                    rw (text_eq_sound d.amino_type c.amino_type clash) at no_other in
                  absurd (cons_ne_nil (sym one ∙ both))
              | inr other ↦ rw other one
            ]
      ]

  -- In a register without two equal Amino types, a message whose type URL has an entry that reads
  -- its value back is converted, and the result is converted back to the message.
  pub from_amino-to_amino :
      (register : AminoConverters M J) (message : EncodeObject M J) (c : AminoConverter M J)
      (json : J)
      → Distinct register
      → converter_of register message.type_url ≡ some c
      → c.to_amino_value message.value ≡ ok json
      → c.from_amino_value json ≡ ok message.value
      → (to_amino register message ≡ ok (record { type_id = c.amino_type; value = json }))
        × (from_amino register (record { type_id = c.amino_type; value = json }) ≡ ok message)
  unfolding to_amino from_amino
  from_amino-to_amino register message c json distinct found there back = (
    rw (found, there) refl,
    rw (matches_one register message.type_url c distinct found, back) refl,
  )

  matches-append :
      (xs ys : AminoConverters M J) (type_id : Text)
      → matches (xs ++ ys) type_id ≡ matches xs type_id ++ matches ys type_id
  unfolding matches
  matches-append [] ys type_id = refl
  matches-append ((key, d) ∷ xs) ys type_id = elim (Bool-cases (text_eq d.amino_type type_id)) [
    | inl e ↦ rw (e, matches-append xs ys type_id) refl
    | inr e ↦ rw (e, matches-append xs ys type_id) refl
  ]

  read_two :
      (before between after : AminoConverters M J) (first second : Text × AminoConverter M J)
      (json : J)
      → read_match (before ++ (first ∷ (between ++ (second ∷ after)))) json
        ≡ throws "Multiple types are registered with Amino type identifier"
  read_two [] [] after first second json = refl
  read_two [] (x ∷ between) after first second json = refl
  read_two (x ∷ []) between after first second json = refl
  read_two (x ∷ y ∷ before) between after first second json = refl

  -- Where two entries have the Amino type of a message, it is not converted back: fromAmino throws.
  pub from_amino_ambiguous :
      (before between after : AminoConverters M J) (url_1 url_2 : Text)
      (c_1 c_2 : AminoConverter M J) (json : J)
      → c_1.amino_type ≡ c_2.amino_type
      → from_amino
          (before ++ ((url_1, c_1) ∷ (between ++ ((url_2, c_2) ∷ after))))
          (record { type_id = c_1.amino_type; value = json })
        ≡ throws "Multiple types are registered with Amino type identifier"
  unfolding from_amino
  from_amino_ambiguous before between after url_1 url_2 c_1 c_2 json same =
      let t = c_1.amino_type in
      let second : text_eq c_2.amino_type t ≡ true = rw same (text_eq_refl c_2.amino_type) in
      rw
        (
          matches-append before ((url_1, c_1) ∷ (between ++ ((url_2, c_2) ∷ after))) t,
          matches_here url_1 c_1 (between ++ ((url_2, c_2) ∷ after)) t (text_eq_refl t),
          matches-append between ((url_2, c_2) ∷ after) t,
          matches_here url_2 c_2 after t second,
        )
        (read_two (matches before t) (matches between t) (matches after t) (url_1, c_1) (url_2, c_2)
          json)
    where
      matches_here :
          (url : Text) (c : AminoConverter M J) (register : AminoConverters M J) (t : Text)
          → text_eq c.amino_type t ≡ true
          → matches ((url, c) ∷ register) t ≡ (url, c) ∷ matches register t
      matches_here url c register t e = unfold matches in rw e refl
