-- ===== src/ProtoSigning/Pubkey/StandIn.antt =====
-- A stand-in for the codecs that pubkey.ts calls, which shows that they can behave as is asked.
use cosmjs.Prelude.{
  ℕ, zero, suc, ◌≡◌, refl, List, [], ◌∷◌, ◌++◌, length, take, drop, take_exact, drop_exact, Result,
  ok, throws, Bytes,
}
use cosmjs.Prelude.Int.{ℤ, pos, negsuc}
use cosmjs.ProtoSigning.Pubkey.{Any, ProtoKeys}

-- Each text and value behind its length.
pub write_all : List Any → Bytes
write_all [] = []
write_all (a ∷ as_) =
    length a.type_url ∷ (a.type_url ++ (length a.value ∷ (a.value ++ write_all as_)))

abbrev pub head_or_zero : Bytes → ℕ
head_or_zero [] = 0
head_or_zero (b ∷ bs) = b

abbrev pub tail_of : Bytes → Bytes
tail_of [] = []
tail_of (b ∷ bs) = bs

pub read_all : ℕ → Bytes → List Any
read_all zero s = []
read_all (suc k) s =
    let url = take (head_or_zero s) (tail_of s) in
    let behind = drop (head_or_zero s) (tail_of s) in
    record { type_url = url; value = take (head_or_zero behind) (tail_of behind) }
    ∷ read_all k (drop (head_or_zero behind) (tail_of behind))

pub read_all-write_all : (anys : List Any) → read_all (length anys) (write_all anys) ≡ anys
unfolding read_all write_all
read_all-write_all [] = refl
read_all-write_all (a ∷ anys) =
    let rest = length a.value ∷ (a.value ++ write_all anys) in
    rw
      (
        take_exact (length a.type_url) a.type_url rest refl,
        drop_exact (length a.type_url) a.type_url rest refl,
        take_exact (length a.value) a.value (write_all anys) refl,
        drop_exact (length a.value) a.value (write_all anys) refl,
        read_all-write_all anys,
      )
      refl

abbrev pub write_legacy : ℤ → List Any → Bytes
write_legacy (pos n) anys = n ∷ length anys ∷ write_all anys
write_legacy (negsuc n) anys = []

abbrev pub read_legacy : Bytes → Result (ℤ × List Any)
read_legacy (n ∷ k ∷ s) = ok (pos n, read_all k s)
read_legacy other = throws "too short"

abbrev pub stand_in : ProtoKeys
stand_in = record {
  encode_secp256k1_key = λ bs. bs;
  decode_secp256k1_key = λ bs. ok bs;
  encode_ed25519_key = λ bs. bs;
  decode_ed25519_key = λ bs. ok bs;
  encode_legacy = write_legacy;
  decode_legacy = read_legacy;
  secp256k1_law = λ bs. refl;
  ed25519_law = λ bs. refl;
  legacy_law = λ n anys h. rw (read_all-write_all anys) refl;
}
