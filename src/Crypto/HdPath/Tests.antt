-- ===== src/Crypto/HdPath/Tests.antt =====
-- Paths at concrete texts.
use cosmjs.Prelude.{◌+◌, ◌^◌, ◌≡◌, [], ◌∷◌, arith, ok, codes, IsFinished}
use cosmjs.Crypto.HdPath.{HdPath, path_to_string, string_to_path}
use cosmjs.Crypto.HdPath.RoundTrip.{string_to_path-path_to_string}
use cosmjs.Crypto.HdPath.Total.{string_to_path_terminates}

abbrev cosmos_path : HdPath
cosmos_path =
    record { value = 44 + 2 ^ 31 } ∷ record { value = 118 + 2 ^ 31 } ∷ record { value = 5 } ∷ []

string_to_path-path_to_string_example : string_to_path (path_to_string cosmos_path) ≡ ok cosmos_path
string_to_path-path_to_string_example = string_to_path-path_to_string cosmos_path (omega arith)

string_to_path_terminates_example : IsFinished (string_to_path (codes "m/44'/4294967296x"))
string_to_path_terminates_example = string_to_path_terminates (codes "m/44'/4294967296x")
