-- ===== src/JsonRpc/Parse/RoundTrip.antt =====
-- Messages as JSON values are parsed back.
use cosmjs.Prelude.{
  ◌≡◌, refl, ◌∙◌, ◌⊎◌, inl, inr, true, false, not, ◌&&◌, Option, none, some, arith, ◌>>=◌, ok,
  throws, Text, codes,
}
use cosmjs.JsonRpc.Values.{
  Value, Fields, no_fields, field, undefined, null, string, number, boolean, array, object,
  other_object, other_type, is_json_compatible_value, is_json_compatible_array,
  is_json_compatible_dictionary, every_field, get_field,
}
use cosmjs.JsonRpc.Parse.{
  JsonRpcId, number_id, string_id, JsonRpcRequest, JsonRpcError, JsonRpcResponse, success, failure,
  result_of, data_of, parse_json_rpc_id, parse_json_rpc_request, parse_error,
  parse_json_rpc_error_response, parse_json_rpc_success_response, parse_json_rpc_response,
}

abbrev pub id_value : JsonRpcId → Value
id_value (number_id n) = number n
id_value (string_id s) = string s

abbrev pub nullable_value : Option JsonRpcId → Value
nullable_value none = null
nullable_value (some id) = id_value id

-- An object with the version and these properties.
abbrev pub message_value : Fields → Value
message_value fs = object (field (codes "jsonrpc") (string (codes "2.0")) fs)

abbrev pub request_value : JsonRpcRequest → Value
request_value r = message_value (
    field (codes "id") (id_value r.id)
      (field (codes "method") (string r.method) (field (codes "params") r.params no_fields)))

abbrev pub data_field : Option Value → Fields
data_field none = no_fields
data_field (some x) = field (codes "data") x no_fields

abbrev pub error_value : JsonRpcError → Value
error_value e = object (
    field (codes "code") (number e.code)
      (field (codes "message") (string e.message) (data_field e.error_data)))

abbrev pub response_value : JsonRpcResponse → Value
response_value (success r) =
    message_value (field (codes "id") (id_value r.id) (field (codes "result") r.result no_fields))
response_value (failure r) = message_value (
    field (codes "id") (nullable_value r.id)
      (field (codes "error") (error_value r.error) no_fields))

-- Every part that is any JSON value is one.
abbrev pub IsJsonData : Option Value → Type 0
IsJsonData none = Unit
IsJsonData (some x) = is_json_compatible_value x ≡ true

abbrev pub IsJsonResponse : JsonRpcResponse → Type 0
IsJsonResponse (success r) = is_json_compatible_value r.result ≡ true
IsJsonResponse (failure r) = IsJsonData r.error.error_data

result_of_json : (x : Value) → is_json_compatible_value x ≡ true → result_of x ≡ ok x
unfolding is_json_compatible_value
result_of_json undefined h = cc
result_of_json null h = refl
result_of_json (string s) h = refl
result_of_json (number n) h = refl
result_of_json (boolean b) h = refl
result_of_json (array xs) h = refl
result_of_json (object fs) h = refl
result_of_json (other_object n) h = refl
result_of_json (other_type n) h = refl

module _ (x : Value) (h : is_json_compatible_value x ≡ true) where
  abbrev success_value : JsonRpcId → Value
  success_value id = response_value (success (record { id = id; result = x }))

  no_error :
      (id : JsonRpcId)
      → parse_json_rpc_error_response (success_value id) ≡ throws "Invalid error field"
  unfolding parse_json_rpc_error_response is_json_compatible_dictionary get_field every_field
  no_error (number_id n) = rw h
  no_error (string_id s) = rw h

  success_parsed :
      (id : JsonRpcId)
      → parse_json_rpc_success_response (success_value id) ≡ ok (record { id = id; result = x })
  unfolding parse_json_rpc_success_response is_json_compatible_dictionary get_field every_field
  success_parsed (number_id n) = rw (h, result_of_json x h)
  success_parsed (string_id s) = rw (h, result_of_json x h)

every_data_field : (d : Option Value) → IsJsonData d → every_field (data_field d) ≡ true
unfolding every_field
every_data_field none h = refl
every_data_field (some x) h = rw h

data_of_json : (x : Value) → is_json_compatible_value x ≡ true → data_of x ≡ ok (some x)
unfolding data_of is_json_compatible_value
data_of_json undefined h = cc
data_of_json null h = refl
data_of_json (string s) h = refl
data_of_json (number n) h = refl
data_of_json (boolean b) h = refl
data_of_json (array xs) h = rw h
data_of_json (object fs) h = rw h
data_of_json (other_object n) h = cc
data_of_json (other_type n) h = cc

abbrev error_properties : JsonRpcError → Fields
error_properties e =
    field (codes "code") (number e.code)
      (field (codes "message") (string e.message) (data_field e.error_data))

data_found :
    (d : Option Value) → IsJsonData d → data_of (get_field (data_field d) (codes "data")) ≡ ok d
unfolding get_field
data_found none h = unfold data_of in refl
data_found (some x) h = data_of_json x h

parse_error_lem :
    (e : JsonRpcError) → IsJsonData e.error_data → parse_error (error_properties e) ≡ ok e
unfolding parse_error get_field
parse_error_lem e h = rw (data_found e.error_data h)

error_is_json :
    (e : JsonRpcError) → IsJsonData e.error_data → every_field (error_properties e) ≡ true
unfolding every_field
error_is_json e h = rw (every_data_field e.error_data h)

-- The checks before the error object pass.
error_reached :
    (id : Option JsonRpcId) (e : JsonRpcError)
    → IsJsonData e.error_data
    → parse_json_rpc_error_response (response_value (failure (record { id = id; error = e })))
      ≡ (parse_error (error_properties e) >>= λ error. ok (record { id = id; error = error }))
unfolding parse_json_rpc_error_response is_json_compatible_dictionary get_field every_field
    is_json_compatible_value
error_reached none e h = let is_json = every_data_field e.error_data h in rw is_json (rw is_json)
error_reached (some (number_id n)) e h =
    let is_json = every_data_field e.error_data h in rw is_json (rw is_json)
error_reached (some (string_id s)) e h =
    let is_json = every_data_field e.error_data h in rw is_json (rw is_json)

failure_parsed :
    (id : Option JsonRpcId) (e : JsonRpcError)
    → IsJsonData e.error_data
    → parse_json_rpc_error_response (response_value (failure (record { id = id; error = e })))
      ≡ ok (record { id = id; error = e })
failure_parsed id e h = error_reached id e h ∙ rw (parse_error_lem e h)

-- Every response whose result or data is JSON, a success or a failure with or without id and
-- data, is parsed back from the JSON object that has its properties.
pub parse-response_value :
    (r : JsonRpcResponse) → IsJsonResponse r → parse_json_rpc_response (response_value r) ≡ ok r
unfolding parse_json_rpc_response
parse-response_value (success r) h =
    rw (no_error r.result h r.id) (rw (success_parsed r.result h r.id))
parse-response_value (failure r) h = rw (failure_parsed r.id r.error h)

array_json : (x : Value) → is_json_compatible_array x ≡ true → is_json_compatible_value x ≡ true
unfolding is_json_compatible_array is_json_compatible_value
array_json (array xs) a = a
array_json x a = absurd (ground arith)

dictionary_json :
    (x : Value) → is_json_compatible_dictionary x ≡ true → is_json_compatible_value x ≡ true
unfolding is_json_compatible_dictionary is_json_compatible_value
dictionary_json (object fs) d = d
dictionary_json x d = absurd (ground arith)

module _ (params : Value)
    (h : (is_json_compatible_array params ≡ true)
      ⊎ (is_json_compatible_dictionary params ≡ true)) where
  params_json : is_json_compatible_value params ≡ true
  params_json = elim h [ inl a ↦ array_json params a | inr d ↦ dictionary_json params d ]

  params_pass :
      (not (is_json_compatible_array params) && not (is_json_compatible_dictionary params)) ≡ false
  params_pass = elim h [ inl a ↦ rw a refl | inr d ↦ ground (arith, d) ]

  request_parsed :
      (id : JsonRpcId) (method : Text)
      → parse_json_rpc_request
          (request_value (record { id = id; method = method; params = params }))
        ≡ ok (record { id = id; method = method; params = params })
  unfolding parse_json_rpc_request parse_json_rpc_id is_json_compatible_dictionary get_field
      every_field
  request_parsed (number_id n) method = rw params_json (rw params_pass)
  request_parsed (string_id s) method = rw params_json (rw params_pass)

-- Every request whose params are a JSON array or object is parsed back from the JSON object that
-- has its properties.
pub parse-request_value :
    (r : JsonRpcRequest)
    → (is_json_compatible_array r.params ≡ true) ⊎ (is_json_compatible_dictionary r.params ≡ true)
    → parse_json_rpc_request (request_value r) ≡ ok r
parse-request_value r h = request_parsed r.params h r.id r.method
