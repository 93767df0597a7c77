-- ===== src/Stargate/AminoTypes/Tests.antt =====
-- aminotypes.ts on a small register.
use cosmjs.Prelude.{ℕ, ◌≡◌, refl, [], ◌∷◌, ok, throws, codes}
use cosmjs.Stargate.AminoTypes.{
  AminoConverter, AminoConverters, to_amino, from_amino, converter_of, matches,
}
use cosmjs.Stargate.AminoTypes.Laws.{from_amino-to_amino, from_amino_ambiguous}

abbrev same : AminoConverter ℕ ℕ
same = record {
  amino_type = codes "number";
  to_amino_value = λ n. ok n;
  from_amino_value = λ n. ok n;
}

abbrev register : AminoConverters ℕ ℕ
register = (codes "/number", same) ∷ []

unknown_url :
    to_amino register (record { type_url = codes "/text"; value = 3 })
    ≡ throws "Type URL does not exist in the Amino message type register."
unfolding to_amino converter_of
unknown_url = refl

from_amino-to_amino_example :
    (to_amino register (record { type_url = codes "/number"; value = 3 })
      ≡ ok (record { type_id = codes "number"; value = 3 }))
    × (from_amino register (record { type_id = codes "number"; value = 3 })
        ≡ ok (record { type_url = codes "/number"; value = 3 }))
unfolding matches converter_of
from_amino-to_amino_example =
    from_amino-to_amino register (record { type_url = codes "/number"; value = 3 }) same 3
      (refl, tt) refl refl refl

from_amino_ambiguous_example :
    from_amino
      ((codes "/number", same) ∷ (codes "/integer", same) ∷ [])
      (record { type_id = codes "number"; value = 3 })
    ≡ throws "Multiple types are registered with Amino type identifier"
from_amino_ambiguous_example =
    from_amino_ambiguous [] [] [] (codes "/number") (codes "/integer") same same 3 refl
