-- ===== src/JsonRpc/Parse/Tests.antt =====
-- JSON-RPC messages at concrete values.
use cosmjs.Prelude.{◌≡◌, refl, inr, true, none, some, ok, codes}
use cosmjs.Prelude.Int.{pos, negsuc}
use cosmjs.Math.Number.{int}
use cosmjs.JsonRpc.Values.{
  object, no_fields, boolean, is_json_compatible_dictionary, is_json_compatible_value, every_field,
}
use cosmjs.JsonRpc.Parse.{
  number_id, JsonRpcRequest, JsonRpcResponse, failure, parse_json_rpc_request,
  parse_json_rpc_response,
}
use cosmjs.JsonRpc.Parse.RoundTrip.{
  request_value, response_value, parse-request_value, parse-response_value,
}

abbrev refused : JsonRpcResponse
refused = failure (record {
  id = none;
  error = record {
    code = int (negsuc 32599);
    message = codes "Invalid";
    error_data = some (boolean true);
  };
})

refused_json : is_json_compatible_value (boolean true) ≡ true
unfolding is_json_compatible_value
refused_json = refl

parse-response_value_example : parse_json_rpc_response (response_value refused) ≡ ok refused
parse-response_value_example = parse-response_value refused refused_json

abbrev status_request : JsonRpcRequest
status_request = record {
  id = number_id (int (pos 7));
  method = codes "status";
  params = object no_fields;
}

status_params : is_json_compatible_dictionary (object no_fields) ≡ true
unfolding is_json_compatible_dictionary every_field
status_params = refl

parse-request_value_example :
    parse_json_rpc_request (request_value status_request) ≡ ok status_request
parse-request_value_example = parse-request_value status_request (inr status_params)
