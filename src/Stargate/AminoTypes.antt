-- ===== src/Stargate/AminoTypes.antt =====
-- packages/stargate/src/aminotypes.ts. A message is a value of any type, `M` for the messages of
-- protobuf and `J` for those of Amino JSON. The register is an object without inherited members.
pub mod Laws
mod Tests
use cosmjs.Prelude.{
  not, Option, none, some, List, [], ◌∷◌, if◌then◌else◌, Result, ◌>>=◌, ◌>>◌, ok, throws, Text,
  text_eq,
}

module _ {ℓ} (M J : Type ℓ) where
  pub record AminoConverter : Type ℓ where
    pub amino_type : Text
    pub to_amino_value : M → Result J
    pub from_amino_value : J → Result M

  pub record EncodeObject : Type ℓ where
    pub type_url : Text
    pub value : M

  pub record AminoMsg : Type ℓ where
    pub type_id : Text
    pub value : J

  -- The entries of the register by type URL.
  abbrev pub AminoConverters : Type ℓ
  AminoConverters = List (Text × AminoConverter)

module _ {ℓ} {M J : Type ℓ} where
  -- `this.register[typeUrl]`
  unfoldable pub converter_of : AminoConverters M J → Text → Option (AminoConverter M J)
  converter_of [] type_url = none
  converter_of ((key, converter) ∷ register) type_url =
      if text_eq key type_url then some converter else converter_of register type_url

  abbrev pub converted : Option (AminoConverter M J) → M → Result (AminoMsg M J)
  converted none value = throws "Type URL does not exist in the Amino message type register."
  converted (some converter) value = do
    json ← converter.to_amino_value value
    ok (record { type_id = converter.amino_type; value = json })

  unfoldable pub to_amino : AminoConverters M J → EncodeObject M J → Result (AminoMsg M J)
  to_amino register message = converted (converter_of register message.type_url) message.value

  -- The entries with an Amino type.
  unfoldable pub matches : AminoConverters M J → Text → AminoConverters M J
  matches [] type_id = []
  matches ((key, converter) ∷ register) type_id =
      let rest = matches register type_id in
      if text_eq converter.amino_type type_id then (key, converter) ∷ rest else rest

  abbrev pub read_match : AminoConverters M J → J → Result (EncodeObject M J)
  read_match [] json =
      throws "Amino type identifier does not exist in the Amino message type register."
  read_match ((type_url, converter) ∷ []) json = do
    value ← converter.from_amino_value json
    ok (record { type_url = type_url; value = value })
  read_match (first ∷ second ∷ more) json =
      throws "Multiple types are registered with Amino type identifier"

  unfoldable pub from_amino : AminoConverters M J → AminoMsg M J → Result (EncodeObject M J)
  from_amino register message = read_match (matches register message.type_id) message.value
