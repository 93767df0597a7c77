-- ===== src/Tendermint/Dates.antt =====
-- packages/tendermint-rpc/src/dates.ts, the seconds, and inthelpers.ts, the small integers.
mod Tests
use cosmjs.Prelude.{
  ℕ, ◌+◌, ◌-◌, ◌*◌, ◌/◌, ◌%◌, ◌<◌, ◌≡◌, false, not, some, arith, ltb, Result, ◌>>=◌, ◌>>◌, throw_if,
  ok, Text,
}
use cosmjs.Prelude.Int.{ℤ, pos, negsuc}
use cosmjs.Math.Number.{Number, int}
use cosmjs.Math.Int53
use cosmjs.Math.Int53.{Int53, new_int53}
use cosmjs.Math.Int53.Strings.{IsSafe, new_int53_safe, int53_from_string-to_string}
use cosmjs.Math.Uint32.{Uint32, new_uint32}
use cosmjs.Tendermint.Encodings.{Time, or_none}

-- `fromSeconds`, for whole seconds from 1970 on.
unfoldable pub from_seconds : ℕ → Number → Result Time
from_seconds seconds nanos = do
  checked_nanos ← new_uint32 nanos
  throw_if (ltb 999999999 checked_nanos.value) "Nano seconds must not exceed 999999999"
  ok (record {
    milliseconds = seconds * 1000 + checked_nanos.value / 1000000;
    nanoseconds = some (checked_nanos.value % 1000000);
  })

-- The seconds, and the nanoseconds behind them.
unfoldable pub to_seconds : Time → ℕ × ℕ
to_seconds time =
    (time.milliseconds / 1000, time.milliseconds % 1000 * 1000000 + or_none time.nanoseconds)

-- A time made of seconds and nanoseconds below a second gives them back.
pub to_seconds-from_seconds :
    (seconds nanos : ℕ)
    → nanos < 1000000000
    → (time : Time) × (from_seconds seconds (int (pos nanos)) ≡ ok time)
      × (to_seconds time ≡ (seconds, nanos))
unfolding from_seconds new_uint32 to_seconds
to_seconds-from_seconds seconds nanos h =
    let word : ltb 4294967295 nanos ≡ false = ground arith in
    let fits : ltb 999999999 nanos ≡ false = ground arith in
    let high : (seconds * 1000 + nanos / 1000000) / 1000 ≡ seconds = omega arith in
    let low : (seconds * 1000 + nanos / 1000000) % 1000 * 1000000 + nanos % 1000000 ≡ nanos =
      omega arith in
    (
      record {
        milliseconds = seconds * 1000 + nanos / 1000000;
        nanoseconds = some (nanos % 1000000);
      },
      rw (word, fits),
      rw (high, low),
    )

-- `string | number`
pub data ApiInt : Type 0 where
  api_number : Number → ApiInt
  api_text : Text → ApiInt

abbrev checked_int : ApiInt → Result Int53
checked_int (api_number n) = new_int53 n
checked_int (api_text s) = Int53.from_string s

unfoldable pub api_to_small_int : ApiInt → Result ℤ
api_to_small_int input = do i ← checked_int input; ok i.value

unfoldable pub small_int_to_api : Number → Result Text
small_int_to_api num = do i ← new_int53 num; ok (Int53.to_string i)

-- Every safe integer, negative or not, is sent as a text that is read back as the integer.
pub api_to_small_int-small_int_to_api :
    (z : ℤ)
    → IsSafe z
    → (s : Text) × (small_int_to_api (int z) ≡ ok s) × (api_to_small_int (api_text s) ≡ ok z)
unfolding small_int_to_api api_to_small_int
api_to_small_int-small_int_to_api z h = (
  Int53.to_string (record { value = z }),
  rw (new_int53_safe z h),
  rw (int53_from_string-to_string (record { value = z }) h),
)
