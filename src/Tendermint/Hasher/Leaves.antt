-- ===== src/Tendermint/Hasher/Leaves.antt =====
-- The leaves of a block header, described by readers of the formats they are written in.
use cosmjs.Prelude.{
  ℕ, ◌+◌, ◌*◌, ◌/◌, ◌%◌, ◌^◌, ◌<◌, ◌≡◌, refl, true, false, Option, none, some, List, [], ◌∷◌, ◌++◌,
  map, append-nil, arith, ltb, leb, ◌==◌, if◌then◌else◌, length, length-append, take, drop, All,
  take-append, drop-append, ok, Bytes,
}
use cosmjs.Tendermint.Encodings.{
  BlockId, or_none, encode_version, encode_string, encode_uvarint, encode_time, encode_block_id,
  encode_bytes,
}
use cosmjs.Tendermint.Encodings.Uvarint.{read_uvarint, read-encode_uvarint}
use cosmjs.Tendermint.Encodings.Fields.{
  read_field, read_message, read-encode_version, read-encode_time,
}
use cosmjs.Tendermint.Hasher.{Header, encode_each, byte_fields}

-- As many bytes as the number in front of them says, and what follows them.
abbrev counted : Option (ℕ × Bytes) → Option (Bytes × Bytes)
counted none = none
counted (some (n, rest)) = if leb n (length rest) then some (take n rest, drop n rest) else none

-- A field of bytes as the format defines it: the length, a varint, behind the tag.
unfoldable pub read_bytes : ℕ → Bytes → Option (Bytes × Bytes)
read_bytes tag [] = none
read_bytes tag (b ∷ bs) = if b == tag then counted (read_uvarint bs) else none

abbrev with_parts_hash : Bytes → ℕ → Option (Bytes × Bytes) → Option BlockId
with_parts_hash hash total (some (parts_hash, [])) =
    some (record { hash = hash; total = total; parts_hash = parts_hash })
with_parts_hash hash total other = none

abbrev with_total : Bytes → Option (ℕ × Bytes) → Option BlockId
with_total hash none = none
with_total hash (some (total, rest)) = with_parts_hash hash total (read_bytes 0x12 rest)

abbrev with_parts : Bytes → Option (Bytes × Bytes) → Option BlockId
with_parts hash (some (parts, [])) = with_total hash (read_field 0x08 parts)
with_parts hash other = none

abbrev with_hash : Option (Bytes × Bytes) → Option BlockId
with_hash none = none
with_hash (some (hash, rest)) = with_parts hash (read_bytes 0x12 rest)

-- A block id: its hash, and a message of the total of the parts and their hash.
unfoldable pub read_block_id : Bytes → Option BlockId
read_block_id bytes = with_hash (read_bytes 0x0a bytes)

read_bytes_lem :
    (tag : ℕ) (bs tail : Bytes)
    → length bs < 128
    → read_bytes tag (tag ∷ length bs ∷ (bs ++ tail)) ≡ some (bs, tail)
unfolding read_bytes read_uvarint
read_bytes_lem tag bs tail h =
    let same : (tag == tag) ≡ true = ground arith in
    let short : ltb (length bs) 128 ≡ true = ground arith in
    let there : leb (length bs) (length (bs ++ tail)) ≡ true =
      ground (arith, length-append bs tail) in
    rw (same, short, there, take-append bs tail, drop-append bs tail)

-- A block id with short hashes and less than 128 parts is read back.
read-encode_block_id :
    (id : BlockId)
    → length id.hash < 128
    → id.total < 128
    → length id.parts_hash < 124
    → read_block_id (encode_block_id id) ≡ some id
unfolding encode_block_id read_block_id read_field read_uvarint
read-encode_block_id id hash total parts =
    let hash_size : length id.hash % 256 ≡ length id.hash = omega arith in
    let small : id.total % 256 ≡ id.total = omega arith in
    let parts_size : length id.parts_hash % 256 ≡ length id.parts_hash = omega arith in
    let message = 0x08 ∷ id.total ∷ 0x12 ∷ length id.parts_hash ∷ id.parts_hash in
    let message_size : (length id.parts_hash + 4) % 256 ≡ length message = omega arith in
    let few : ltb id.total 128 ≡ true = ground arith in
    let outer : read_bytes 0x12 (0x12 ∷ length message ∷ message) ≡ some (message, []) =
      rw append-nil at (read_bytes_lem 0x12 message [] (omega arith)) in
    let inner : read_bytes 0x12 (0x12 ∷ length id.parts_hash ∷ id.parts_hash)
        ≡ some (id.parts_hash, []) =
      rw append-nil at (read_bytes_lem 0x12 id.parts_hash [] (omega arith)) in
    rw (
      hash_size,
      small,
      parts_size,
      message_size,
      read_bytes_lem 0x0a id.hash (0x12 ∷ length message ∷ message) hash,
      outer,
      few,
      inner,
    )

-- A byte array behind its length; nothing for the empty one.
abbrev pub prefixed : Bytes → Bytes
prefixed [] = []
prefixed (b ∷ bs) = length (b ∷ bs) ∷ b ∷ bs

encode_bytes_lem : (bs : Bytes) → length bs < 128 → encode_bytes bs ≡ ok (prefixed bs)
unfolding encode_bytes
encode_bytes_lem [] h = refl
encode_bytes_lem (b ∷ bs) h =
    let short : leb 0x80 (length (b ∷ bs)) ≡ false = ground arith in
    let some_bytes : (length (b ∷ bs) == 0) ≡ false = ground arith in rw (short, some_bytes)

encode_each_lem :
    (xs : List Bytes) → All (λ x. length x < 128) xs → encode_each xs ≡ ok (map prefixed xs)
unfolding encode_each
encode_each_lem [] h = refl
encode_each_lem (x ∷ xs) (hx, h) = rw (encode_bytes_lem x hx, encode_each_lem xs h)

-- The sizes of a header for which its encoding is right, the nine byte arrays apart.
abbrev pub IsEncodable : Header → BlockId → Type 0
IsEncodable header id =
    (header.version.block < 2 ^ 31)
    × (header.version.app < 2 ^ 31)
    × (length header.chain_id < 128)
    × (header.height < 2 ^ 31)
    × (header.time.milliseconds / 1000 < 2 ^ 31)
    × (or_none header.time.nanoseconds < 1000000)
    × (length id.hash < 128)
    × (id.total < 128)
    × (length id.parts_hash < 124)

-- The nine byte arrays of a header are short.
abbrev pub HasShortFields : Header → Type 0
HasShortFields header =
    (length header.last_commit_hash < 128)
    × (length header.data_hash < 128)
    × (length header.validators_hash < 128)
    × (length header.next_validators_hash < 128)
    × (length header.consensus_hash < 128)
    × (length header.app_hash < 128)
    × (length header.last_results_hash < 128)
    × (length header.evidence_hash < 128)
    × (length header.proposer_address < 128)

pub encode_fields :
    (header : Header)
    → HasShortFields header
    → encode_each (byte_fields header) ≡ ok (map prefixed (byte_fields header))
encode_fields header (a, b, c, d, e, f, g, h, i) =
    encode_each_lem (byte_fields header) (a, (b, (c, (d, (e, (f, (g, (h, (i, tt)))))))))

-- The leaves of a block header, from what they mean.
pub data IsHeaderLeaves (header : Header) (id : BlockId) : List Bytes → Type 0 where
  header_leaves :
      {version height time block_id : Bytes}
      → read_message version ≡ some (header.version.block, header.version.app)
      → read_uvarint height ≡ some (header.height, [])
      → read_message time
        ≡ some (
          header.time.milliseconds / 1000,
          or_none header.time.nanoseconds + header.time.milliseconds % 1000 * 1000000,
        )
      → read_block_id block_id ≡ some id
      → IsHeaderLeaves header id (
          version
          ∷ (length header.chain_id ∷ header.chain_id)
          ∷ height
          ∷ time
          ∷ block_id
          ∷ prefixed header.last_commit_hash
          ∷ prefixed header.data_hash
          ∷ prefixed header.validators_hash
          ∷ prefixed header.next_validators_hash
          ∷ prefixed header.consensus_hash
          ∷ prefixed header.app_hash
          ∷ prefixed header.last_results_hash
          ∷ prefixed header.evidence_hash
          ∷ prefixed header.proposer_address
          ∷ [])

-- The leaves that the code makes.
unfoldable pub leaves : Header → BlockId → List Bytes
leaves header id =
    encode_version header.version
    ∷ encode_string header.chain_id
    ∷ encode_uvarint header.height
    ∷ encode_time header.time
    ∷ encode_block_id id
    ∷ map prefixed (byte_fields header)

pub leaves_lem :
    (header : Header) (id : BlockId)
    → IsEncodable header id
    → IsHeaderLeaves header id (leaves header id)
unfolding leaves encode_string
leaves_lem header id (block, app, chain_id, height, seconds, nanos, hash, total, parts) =
    let chain_size : length header.chain_id % 256 ≡ length header.chain_id = omega arith in
    let height_back : read_uvarint (encode_uvarint header.height) ≡ some (header.height, []) =
      rw append-nil at (read-encode_uvarint header.height [] height) in
    rw chain_size (
      header_leaves (read-encode_version header.version block app) height_back
        (read-encode_time header.time seconds nanos) (read-encode_block_id id hash total parts))
