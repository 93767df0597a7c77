-- ===== src/Crypto/HdPath.antt =====
-- packages/crypto/src/slip10.ts: raw indices, and paths from and to text; and the path of
-- packages/amino/src/paths.ts.
pub mod RoundTrip
pub mod Total
mod Tests
use cosmjs.Prelude.{
  ℕ, zero, suc, ◌+◌, ◌-◌, ◌*◌, ◌/◌, ◌^◌, Bool, false, not, ◌&&◌, Option, none, some, List, [], ◌∷◌,
  ◌++◌, leb, ◌==◌, if◌then◌else◌, length, drop, Result, ◌>>=◌, ◌>>◌, throw_if, ok, throws, Text,
  is_digits, span_digits, to_decimal, out_of_fuel,
}
use cosmjs.Prelude.Int.{pos, pos_part}
use cosmjs.Math.Number.{number_of}
use cosmjs.Math.Int53.{uint53_from_string, to_number}
use cosmjs.Math.Uint32.{Uint32, new_uint32}

-- A Slip10RawIndex is a Uint32.
abbrev pub Slip10RawIndex : Type 0
Slip10RawIndex = Uint32

abbrev pub HdPath : Type 0
HdPath = List Slip10RawIndex

-- The constructors; the argument is an integer from 0 on.
unfoldable pub hardened : ℕ → Result Slip10RawIndex
hardened index = new_uint32 (number_of (index + 2 ^ 31))

unfoldable pub normal : ℕ → Result Slip10RawIndex
normal index = new_uint32 (number_of index)

unfoldable pub is_hardened : Slip10RawIndex → Bool
is_hardened index = leb (2 ^ 31) index.value

-- The text of one component, behind its slash.
unfoldable pub component_to_string : Slip10RawIndex → Text
unfolding is_hardened
component_to_string index =
    if is_hardened index
    then to_decimal (index.value - 2 ^ 31) ++ b'\'' ∷ []
    else to_decimal index.value

-- The `reduce` of `pathToString`.
path_string_from : Text → HdPath → Text
path_string_from current [] = current
path_string_from current (component ∷ path) =
    path_string_from (current ++ b'/' ∷ component_to_string component) path

unfoldable pub path_to_string : HdPath → Text
unfolding path_string_from
path_to_string path = path_string_from (b'm' ∷ []) path

abbrev pub starts_with_char : ℕ → Text → Bool
starts_with_char c [] = false
starts_with_char c (d ∷ s) = d == c

-- What the match of `/^\/([0-9]+)('?)/` captures, and the text behind it.
pub record Component : Type 0 where
  pub number_string : Text
  pub apostrophe : Bool
  pub rest : Text

unfoldable pub match_component : Text → Option Component
match_component [] = none
match_component (c ∷ s) =
    let digits = (span_digits s).0 in
    let rest = (span_digits s).1 in
    let apostrophe = starts_with_char b'\'' rest in
    if c == b'/' && is_digits digits
    then some (record {
      number_string = digits;
      apostrophe = apostrophe;
      rest = if apostrophe then drop 1 rest else rest;
    })
    else none

-- The index of a component.
unfoldable pub component_index : Component → Result Slip10RawIndex
component_index component = do
  parsed ← uint53_from_string component.number_string
  let value = pos_part (to_number parsed)
  throw_if (leb (2 ^ 31) value) "Component value too high. Must not exceed 2**31-1."
  if component.apostrophe then hardened value else normal value

abbrev pub or_syntax_error : Option Component → Result Component
or_syntax_error none = throws "Syntax error while reading path component"
or_syntax_error (some component) = ok component

-- The loop of `stringToPath`; each round reads two characters at least, so the length of the
-- text bounds the rounds.
unfoldable pub read_path : ℕ → Text → Result HdPath
read_path fuel [] = ok []
read_path zero (c ∷ rest) = throws out_of_fuel
read_path (suc fuel) (c ∷ rest) = do
  component ← or_syntax_error (match_component (c ∷ rest))
  index ← component_index component
  path ← read_path fuel component.rest
  ok (index ∷ path)

unfoldable pub string_to_path : Text → Result HdPath
string_to_path input = do
  throw_if (not (starts_with_char b'm' input)) "Path string must start with 'm'"
  read_path (length (drop 1 input)) (drop 1 input)

-- m/44'/118'/0'/0/a
unfoldable pub make_cosmoshub_path : ℕ → Result HdPath
unfolding hardened normal
make_cosmoshub_path a = do
  purpose ← hardened 44
  coin_type ← hardened 118
  account ← hardened 0
  change ← normal 0
  index ← normal a
  ok (purpose ∷ coin_type ∷ account ∷ change ∷ index ∷ [])
