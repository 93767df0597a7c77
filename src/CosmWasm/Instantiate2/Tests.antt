-- ===== src/CosmWasm/Instantiate2/Tests.antt =====
-- Keys of short inputs over a concrete bn.js.
use cosmjs.Prelude.{◌≡◌, refl, arith, replicate, Bytes, codes}
use cosmjs.Math.BigNumber.{native}
use cosmjs.CosmWasm.Instantiate2.Injective.{key_of_injective}

abbrev checksum : Bytes
checksum = replicate 32 9

key_of_injective_example :
    (checksum ≡ checksum)
    × (codes "creator" ≡ codes "creator")
    × (codes "salt" ≡ codes "salt")
    × (codes "" ≡ codes "")
key_of_injective_example =
    key_of_injective native checksum (codes "creator") (codes "salt") (codes "") checksum
      (codes "creator") (codes "salt") (codes "") (omega arith) (omega arith) (omega arith)
      (omega arith) (omega arith) (omega arith) (omega arith) (omega arith) refl
