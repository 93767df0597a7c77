-- ===== src/Lib.antt =====
-- A verification library for CosmJS: the parts of the packages that compute, modelled from their
-- TypeScript source, with the theorems that make them correct.
--
-- The program is a set of packages. `encoding` and `utils` turn bytes into text and compare arrays;
-- `math` has integers of fixed range and decimals; `crypto` has signatures, derivation paths and
-- keys; `amino` has coins and public keys in their binary format, on top of these;
-- `tendermint-rpc` checks what an RPC server sends and hashes block headers; `json-rpc` parses the
-- messages that `socket` queues and sends; `faucet` decides on amounts with `math` and `amino`.
-- `proto-signing` turns public keys into protobuf and back, and `stargate` computes fees with
-- decimals and coins and converts each message between protobuf and Amino JSON: a register finds
-- the converter of a type URL or of an Amino type, and each module brings its converters.
--
-- How files and code correspond, paths from the root of the repository:
--   Prelude        numbers, lists, texts, results and bounded recursion that the models share
--   Encoding       packages/encoding/src: ascii.ts (toAscii is to_ascii), hex.ts, base64.ts
--   Utils.Arrays   packages/utils/src/arrays.ts
--   Math.Uint32, Math.Int53, Math.Uint64
--                  packages/math/src/integers.ts: each constructor is new_..., the static
--                  functions and methods keep their names
--   Math.Decimal   packages/math/src/decimal.ts
--   Math.BigNumber the operations of the package bn.js that the code calls, a parameter
--   Math.Number    a JavaScript number as far as the code tells numbers apart
--   Crypto.Signature, Crypto.Signature.Extended
--                  packages/crypto/src/secp256k1signature.ts
--   Crypto.HdPath  packages/crypto/src/slip10.ts, raw indices and paths as text, and
--                  packages/amino/src/paths.ts
--   Crypto.Bip39   packages/crypto/src/bip39.ts: Wordlist is its list of words, the bit strings of
--                  the source are texts of zeros and ones
--   Crypto.Hmac    packages/crypto/src/hmac.ts and hash.ts: an object is its state
--   Crypto.Slip10  packages/crypto/src/slip10.ts, the class Slip10; Derivation holds SLIP-0010 as
--                  relations, in numbers
--   Amino.Binary   packages/amino/src/encoding.ts and pubkeys.ts
--   Amino.Coins    packages/amino/src/coins.ts
--   Amino.Compare  packages/amino/src/multisig.ts (compareArrays) and omitdefault.ts
--   Amino.Addresses
--                  packages/amino/src/addresses.ts
--   Amino.Multisig packages/amino/src/multisig.ts (createMultisigThresholdPubkey); `sort` is a
--                  stable insertion sort, and keys without an address give one error
--   Amino.SignDoc  packages/amino/src/signdoc.ts
--   Tendermint.Encodings, Tendermint.Checks
--                  packages/tendermint-rpc/src/comet38/encodings.ts
--   Tendermint.Hasher
--                  packages/tendermint-rpc/src/comet38/hasher.ts
--   Tendermint.Dates
--                  packages/tendermint-rpc/src/dates.ts and inthelpers.ts
--   Socket.Queue   packages/socket/src/queueingstreamingsocket.ts: the state of the class is a
--                  record, and what runs between two awaits is one event
--   JsonRpc        packages/json-rpc/src: compatibility.ts (Values), parse.ts and types.ts (Parse)
--   Faucet.Tokens  packages/faucet/src/tokenmanager.ts
--   ProtoSigning.Pubkey
--                  packages/proto-signing/src/pubkey.ts
--   Stargate.Fee   packages/stargate/src/fee.ts
--   Stargate.AminoTypes
--                  packages/stargate/src/aminotypes.ts: the register is a list of entries
--   Stargate.DecimalText
--                  protoDecimalToJson and jsonDecimalToProto of
--                  packages/stargate/src/modules/staking/aminomessages.ts
--   Stargate.BigInt
--                  BigInt(text), which the converters call
--   Stargate.Modules
--                  packages/stargate/src/modules/*/aminomessages.ts: toAmino and fromAmino of each
--                  message
--   Stargate.Default
--                  createDefaultAminoConverters of
--                  packages/stargate/src/signingstargateclient.ts
--   CosmWasm.Instantiate2
--                  packages/cosmwasm-stargate/src/instantiate2.ts
--
-- A text is a list of UTF-16 code units, a Uint8Array a list of numbers below 256. A function that
-- throws returns a Result; values that the source splices into a message are left out of it.
--
-- Bounds: the loop of stringToPath, decodeAminoPubkey, hashTree and the varint encoding recurse on
-- a number. The length of the input, or the number encoded, is given, each round takes something
-- off it, and the modules Fuel, Total, Root and Uvarint show that this is enough. The retries of
-- SLIP-0010 on secp256k1 depend on the hash function and have no bound that is always enough: where
-- the bound is met, Derivation says that each of the attempts was invalid; Ed25519 has no retries.
-- Numbers become bit strings in as many rounds as the number says, and bit strings are cut in as
-- many as they have characters.
--
-- Parameters, which stand for code that is not in the repository: bn.js, base64-js, SHA-256,
-- RIPEMD-160, HMAC-SHA512, the hash function under the class Hmac, the multiplication of the base
-- point, bech32, TextEncoder, and the codecs that cosmjs-types generates from protobuf, with what
-- their documentation says where a theorem needs it; so is the Unicode normalization of texts,
-- which keeps ASCII. The tests fill them with concrete functions.
--
-- Not modelled: network clients, wallets, generated protobuf types and the command line, which
-- move data without deciding on it; dates as RFC 3339 texts, bech32 and UTF-8, which are calls of
-- other libraries; JSON.stringify; conversions to bigint and to a double.
pub mod Prelude
pub mod Encoding
pub mod Utils
pub mod Crypto
pub mod Math
pub mod ProtoSigning
pub mod Stargate
pub mod CosmWasm
pub mod Amino
pub mod Faucet
pub mod JsonRpc
pub mod Socket
pub mod Tendermint
