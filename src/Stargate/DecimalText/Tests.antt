-- ===== src/Stargate/DecimalText/Tests.antt =====
-- Texts of decimals over a concrete bn.js.
use cosmjs.Prelude.{◌≡◌, ok, Text, to_decimal}
use cosmjs.Math.BigNumber.{native}
use cosmjs.Stargate.DecimalText.{proto_decimal_to_json, json_decimal_to_proto}
use cosmjs.Stargate.DecimalText.RoundTrip.{json_decimal_to_proto-proto_decimal_to_json}

-- A rate of 5 %.
json_decimal_to_proto-proto_decimal_to_json_example :
    (s : Text) × (proto_decimal_to_json native (to_decimal 50000000000000000) ≡ ok s)
    × (json_decimal_to_proto native s ≡ ok (to_decimal 50000000000000000))
json_decimal_to_proto-proto_decimal_to_json_example =
    json_decimal_to_proto-proto_decimal_to_json native 50000000000000000
