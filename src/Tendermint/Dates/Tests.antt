-- ===== src/Tendermint/Dates/Tests.antt =====
-- Times and integers at concrete numbers.
use cosmjs.Prelude.{◌≡◌, arith, ok, Text}
use cosmjs.Prelude.Int.{pos, negsuc}
use cosmjs.Math.Number.{int}
use cosmjs.Tendermint.Encodings.{Time}
use cosmjs.Tendermint.Dates.{
  from_seconds, to_seconds, to_seconds-from_seconds, api_text, api_to_small_int, small_int_to_api,
  api_to_small_int-small_int_to_api,
}

to_seconds-from_seconds_example :
    (time : Time) × (from_seconds 1700000000 (int (pos 123456789)) ≡ ok time)
    × (to_seconds time ≡ (1700000000, 123456789))
to_seconds-from_seconds_example = to_seconds-from_seconds 1700000000 123456789 (omega arith)

api_to_small_int-small_int_to_api_example :
    (s : Text) × (small_int_to_api (int (negsuc 41)) ≡ ok s)
    × (api_to_small_int (api_text s) ≡ ok (negsuc 41))
api_to_small_int-small_int_to_api_example =
    api_to_small_int-small_int_to_api (negsuc 41) (omega arith)
