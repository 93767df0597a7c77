-- ===== src/JsonRpc/Parse.antt =====
-- packages/json-rpc/src/parse.ts and types.ts.
pub mod RoundTrip
mod Tests
use cosmjs.Prelude.{
  Bool, false, not, ◌&&◌, Option, none, some, if◌then◌else◌, Result, ◌>>=◌, ◌>>◌, throw_if, ok,
  throws, Text, codes, text_eq,
}
use cosmjs.Math.Number.{Number}
use cosmjs.JsonRpc.Values.{
  Value, Fields, undefined, null, string, number, object, is_json_compatible_value,
  is_json_compatible_array, is_json_compatible_dictionary, get_field,
}

pub data JsonRpcId : Type 0 where
  number_id : Number → JsonRpcId
  string_id : Text → JsonRpcId

pub record JsonRpcRequest : Type 0 where
  pub id : JsonRpcId
  pub method : Text
  pub params : Value

pub record JsonRpcSuccessResponse : Type 0 where
  pub id : JsonRpcId
  pub result : Value

pub record JsonRpcError : Type 0 where
  pub code : Number
  pub message : Text
  pub error_data : Option Value

-- The id may be null.
pub record JsonRpcErrorResponse : Type 0 where
  pub id : Option JsonRpcId
  pub error : JsonRpcError

pub data JsonRpcResponse : Type 0 where
  success : JsonRpcSuccessResponse → JsonRpcResponse
  failure : JsonRpcErrorResponse → JsonRpcResponse

-- The properties of a JSON object.
abbrev pub dictionary : Value → Result Fields
dictionary (object fs) =
    if is_json_compatible_dictionary (object fs)
    then ok fs
    else throws "Data must be JSON compatible dictionary"
dictionary other = throws "Data must be JSON compatible dictionary"

-- `typeof id !== "number" && typeof id !== "string"` gives null.
abbrev pub id_of : Value → Option JsonRpcId
id_of (number n) = some (number_id n)
id_of (string s) = some (string_id s)
id_of other = none

unfoldable pub parse_json_rpc_id : Value → Result (Option JsonRpcId)
parse_json_rpc_id value = do fs ← dictionary value; ok (id_of (get_field fs (codes "id")))

abbrev pub is_text : Value → Text → Bool
is_text (string s) t = text_eq s t
is_text other t = false

abbrev pub valid_id : Option JsonRpcId → Result JsonRpcId
valid_id none = throws "Invalid id field"
valid_id (some id) = ok id

abbrev pub valid_method : Value → Result Text
valid_method (string s) = ok s
valid_method other = throws "Invalid method field"

abbrev check_version : Fields → Result (Unit {0})
check_version fs =
    throw_if (not (is_text (get_field fs (codes "jsonrpc")) (codes "2.0")))
      "Got unexpected jsonrpc version"

unfoldable pub parse_json_rpc_request : Value → Result JsonRpcRequest
parse_json_rpc_request value = do
  fs ← dictionary value
  check_version fs
  found ← parse_json_rpc_id value
  id ← valid_id found
  method ← valid_method (get_field fs (codes "method"))
  let params = get_field fs (codes "params")
  throw_if (not (is_json_compatible_array params) && not (is_json_compatible_dictionary params))
      "Invalid params field"
  ok (record { id = id; method = method; params = params })

abbrev code_of : Value → Result Number
code_of (number n) = ok n
code_of other = throws "Error property 'code' is not a number"

abbrev message_of : Value → Result Text
message_of (string s) = ok s
message_of other = throws "Error property 'message' is not a string"

unfoldable pub data_of : Value → Result (Option Value)
data_of undefined = ok none
data_of value =
    if is_json_compatible_value value
    then ok (some value)
    else throws "Error property 'data' is defined but not a JSON compatible value."

unfoldable pub parse_error : Fields → Result JsonRpcError
parse_error fs = do
  code ← code_of (get_field fs (codes "code"))
  message ← message_of (get_field fs (codes "message"))
  error_data ← data_of (get_field fs (codes "data"))
  ok (record { code = code; message = message; error_data = error_data })

-- The id of an error response, which may be null.
abbrev nullable_id : Value → Result (Option JsonRpcId)
nullable_id (number n) = ok (some (number_id n))
nullable_id (string s) = ok (some (string_id s))
nullable_id null = ok none
nullable_id other = throws "Invalid id field"

abbrev error_fields : Value → Result Fields
error_fields (object fs) =
    if is_json_compatible_dictionary (object fs) then ok fs else throws "Invalid error field"
error_fields other = throws "Invalid error field"

unfoldable pub parse_json_rpc_error_response : Value → Result JsonRpcErrorResponse
parse_json_rpc_error_response value = do
  fs ← dictionary value
  check_version fs
  id ← nullable_id (get_field fs (codes "id"))
  es ← error_fields (get_field fs (codes "error"))
  error ← parse_error es
  ok (record { id = id; error = error })

abbrev result_of : Value → Result Value
result_of undefined = throws "Invalid result field"
result_of value = ok value

unfoldable pub parse_json_rpc_success_response : Value → Result JsonRpcSuccessResponse
parse_json_rpc_success_response value = do
  fs ← dictionary value
  check_version fs
  id ← valid_id (id_of (get_field fs (codes "id")))
  result ← result_of (get_field fs (codes "result"))
  ok (record { id = id; result = result })

-- `catch`: what is no error response is read as a success response.
abbrev pub or_success : Result JsonRpcErrorResponse → Value → Result JsonRpcResponse
or_success (ok response) value = ok (failure response)
or_success (throws m) value = do
  response ← parse_json_rpc_success_response value
  ok (success response)

unfoldable pub parse_json_rpc_response : Value → Result JsonRpcResponse
parse_json_rpc_response value = or_success (parse_json_rpc_error_response value) value
