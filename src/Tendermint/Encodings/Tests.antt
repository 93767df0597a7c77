-- ===== src/Tendermint/Encodings/Tests.antt =====
-- The encodings at concrete numbers.
use cosmjs.Prelude.{◌+◌, ◌*◌, ◌/◌, ◌%◌, ◌≡◌, refl, ◌≢◌, some, [], ◌∷◌, ◌++◌, arith}
use cosmjs.Tendermint.Encodings.{
  encode_uvarint, uvarint_from, Version, encode_version, Time, encode_time,
}
use cosmjs.Tendermint.Encodings.Uvarint.{read_uvarint, read-encode_uvarint, encode_uvarint_cut}
use cosmjs.Tendermint.Encodings.Fields.{read_message, read-encode_version, read-encode_time}

three_hundred : encode_uvarint 300 ≡ 0xac ∷ 2 ∷ []
unfolding encode_uvarint uvarint_from
three_hundred = refl

read-encode_uvarint_example : read_uvarint (encode_uvarint 300 ++ 9 ∷ []) ≡ some (300, 9 ∷ [])
read-encode_uvarint_example = read-encode_uvarint 300 (9 ∷ []) (omega arith)

-- The first second that is encoded wrongly, in January 2038.
two_to_31 : encode_uvarint 2147483648 ≡ 0x80 ∷ 0 ∷ []
unfolding encode_uvarint uvarint_from
two_to_31 = refl

encode_uvarint_cut_example :
    (encode_uvarint 2147483700 ≡ (2147483700 % 128 + 128) ∷ (2147483700 / 128 % 256) ∷ [])
    × (read_uvarint (encode_uvarint 2147483700) ≢ some (2147483700, []))
encode_uvarint_cut_example = encode_uvarint_cut 2147483700 (omega arith) (omega arith)

abbrev version : Version
version = record { block = 11; app = 1000 }

read-encode_version_example : read_message (encode_version version) ≡ some (11, 1000)
read-encode_version_example = read-encode_version version (omega arith) (omega arith)

abbrev noon : Time
noon = record { milliseconds = 1700000000123; nanoseconds = some 4567 }

read-encode_time_example : read_message (encode_time noon) ≡ some (1700000000, 4567 + 123 * 1000000)
read-encode_time_example = read-encode_time noon (omega arith) (omega arith)
