-- ===== src/Tendermint/Encodings/Fields.antt =====
-- The encodings of versions and times, against a reader of messages with two number fields.
use cosmjs.Prelude.{
  ℕ, zero, suc, ◌+◌, ◌*◌, ◌/◌, ◌%◌, ◌^◌, ◌<◌, ◌≡◌, refl, ◌≢◌, true, false, Option, none, some, [],
  ◌∷◌, ◌++◌, append-nil, arith, ◌==◌, if◌then◌else◌, Bytes,
}
use cosmjs.Tendermint.Encodings.{field, Time, or_none, encode_time, Version, encode_version}
use cosmjs.Tendermint.Encodings.Uvarint.{read_uvarint, read-encode_uvarint}

-- A field as the format defines it: its number behind its tag; 0 if the tag is not there.
unfoldable pub read_field : ℕ → Bytes → Option (ℕ × Bytes)
read_field tag [] = some (0, [])
read_field tag (b ∷ bs) = if b == tag then read_uvarint bs else some (0, b ∷ bs)

abbrev StartsWithout : ℕ → Bytes → Type 0
StartsWithout tag [] = Unit
StartsWithout tag (b ∷ bs) = b ≢ tag

read_field-field :
    (tag n : ℕ) (tail : Bytes)
    → n < 2 ^ 31
    → StartsWithout tag tail
    → read_field tag (field tag n ++ tail) ≡ some (n, tail)
unfolding field read_field
read_field-field tag zero [] h other = refl
read_field-field tag zero (b ∷ bs) h other = let e : (b == tag) ≡ false = ground arith in rw e
read_field-field tag (suc n) tail h other =
    let set : (suc n == 0) ≡ false = ground arith in
    let e : (tag == tag) ≡ true = ground arith in rw (set, e) (read-encode_uvarint (suc n) tail h)

-- The second number of a message, which nothing follows.
abbrev with_last : ℕ → Option (ℕ × Bytes) → Option (ℕ × ℕ)
with_last m (some (n, [])) = some (m, n)
with_last m other = none

abbrev read_last : ℕ → Option (ℕ × Bytes) → Option (ℕ × ℕ)
read_last tag none = none
read_last tag (some (m, rest)) = with_last m (read_field tag rest)

-- A message with the fields 1 and 2.
unfoldable pub read_message : Bytes → Option (ℕ × ℕ)
read_message bytes = read_last 0x10 (read_field 0x08 bytes)

field_starts : (n : ℕ) → StartsWithout 0x08 (field 0x10 n)
unfolding field
field_starts zero = tt
field_starts (suc n) = ground arith

read-fields :
    (m n : ℕ) → m < 2 ^ 31 → n < 2 ^ 31 → read_message (field 0x08 m ++ field 0x10 n) ≡ some (m, n)
unfolding read_message
read-fields m n hm hn =
    let last : read_field 0x10 (field 0x10 n) ≡ some (n, []) =
      rw append-nil at (read_field-field 0x10 n [] hn tt) in
    rw (read_field-field 0x08 m (field 0x10 n) hm (field_starts n), last)

-- A version whose numbers are below 2^31 is read back from its encoding.
pub read-encode_version :
    (v : Version)
    → v.block < 2 ^ 31
    → v.app < 2 ^ 31
    → read_message (encode_version v) ≡ some (v.block, v.app)
unfolding encode_version
read-encode_version v hb ha = read-fields v.block v.app hb ha

-- Up to 2038-01-19, second 2^31 - 1, a time is encoded as its seconds and the nanoseconds within
-- the second, if the nanoseconds behind the millisecond are below a million.
pub read-encode_time :
    (t : Time)
    → t.milliseconds / 1000 < 2 ^ 31
    → or_none t.nanoseconds < 1000000
    → read_message (encode_time t)
      ≡ some (t.milliseconds / 1000, or_none t.nanoseconds + t.milliseconds % 1000 * 1000000)
unfolding encode_time
read-encode_time t seconds nanos =
    read-fields (t.milliseconds / 1000) (or_none t.nanoseconds + t.milliseconds % 1000 * 1000000)
      seconds (omega arith)
