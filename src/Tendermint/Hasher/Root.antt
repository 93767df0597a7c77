-- ===== src/Tendermint/Hasher/Root.antt =====
-- The tree of hashes, against the definition of a Merkle root.
use mathlib.Core.Path.{subst}
use cosmjs.Prelude.{
  ℕ, zero, suc, ◌*◌, ◌^◌, ◌≤◌, ◌<◌, ◌≡◌, refl, some, List, [], ◌∷◌, ◌++◌, arith, length, take, drop,
  take-append-drop, length-take, length-drop, ok, Bytes, split,
}
use cosmjs.Tendermint.Encodings.{BlockId}
use cosmjs.Tendermint.Hasher.{
  get_split_point, Header, hash_leaf, hash_inner, hash_tree_from, hash_tree, hash_block,
}
use cosmjs.Tendermint.Hasher.Leaves.{
  leaves, IsEncodable, IsHeaderLeaves, HasShortFields, encode_fields, leaves_lem,
}
use cosmjs.Tendermint.Hasher.Split.{get_split_point_lem}

module _ (sha256 : Bytes → Bytes) where
  -- The Merkle root of leaves (RFC 6962): one leaf is hashed behind a 0, and the roots of two
  -- parts behind a 1, the left part being the greatest power of two below the number of leaves.
  pub data IsRoot : List Bytes → Bytes → Type 0 where
    leaf : (x : Bytes) → IsRoot (x ∷ []) (sha256 (0 ∷ x))
    inner :
        {xs ys : List Bytes} {l r : Bytes} (k : ℕ)
        → length xs ≡ 2 ^ k
        → 1 ≤ length ys
        → length ys ≤ length xs
        → IsRoot xs l
        → IsRoot ys r
        → IsRoot (xs ++ ys) (sha256 (1 ∷ (l ++ r)))

  -- Both halves have roots; then so has the whole.
  join_roots :
      (f p k : ℕ) (xs : List Bytes) {l r : Bytes}
      → p ≡ 2 ^ k
      → p < length xs
      → length xs ≤ 2 * p
      → IsRoot (take p xs) l
      → IsRoot (drop p xs) r
      → IsRoot xs (sha256 (1 ∷ (l ++ r)))
  join_roots f p k xs {l} {r} e below above hl hr =
      let left = length-take p xs in
      let right = length-drop p xs in
      subst (λ (t : List Bytes). IsRoot t (sha256 (1 ∷ (l ++ r)))) (take-append-drop p xs)
        (inner k (omega (arith, left, e)) (omega (arith, right)) (omega (arith, left, right)) hl hr)

  hash_tree_step :
      (f p : ℕ) (x y : Bytes) (xs : List Bytes) (l r : Bytes)
      → get_split_point (length (x ∷ y ∷ xs)) ≡ ok p
      → hash_tree_from sha256 f (take p (x ∷ y ∷ xs)) ≡ ok l
      → hash_tree_from sha256 f (drop p (x ∷ y ∷ xs)) ≡ ok r
      → hash_tree_from sha256 (suc f) (x ∷ y ∷ xs) ≡ ok (sha256 (1 ∷ (l ++ r)))
  unfolding hash_tree_from hash_inner
  hash_tree_step f p x y xs l r split left right = rw (split, left, right)

  hash_tree_one : (f : ℕ) (x : Bytes) → hash_tree_from sha256 f (x ∷ []) ≡ ok (sha256 (0 ∷ x))
  unfolding hash_tree_from hash_leaf
  hash_tree_one zero x = refl
  hash_tree_one (suc f) x = refl

  hash_tree_from_lem :
      (f : ℕ) (xs : List Bytes)
      → length xs ≤ f
      → 1 ≤ length xs
      → (h : Bytes) × (hash_tree_from sha256 f xs ≡ ok h) × IsRoot xs h
  hash_tree_from_lem f [] fits some_leaf = absurd (omega arith)
  hash_tree_from_lem f (x ∷ []) fits some_leaf = (sha256 (0 ∷ x), hash_tree_one f x, leaf x)
  hash_tree_from_lem zero (x ∷ y ∷ xs) fits some_leaf = absurd (omega arith)
  hash_tree_from_lem (suc f) (x ∷ y ∷ xs) fits some_leaf =
      let whole = x ∷ y ∷ xs in
      let (p, k, split, power, below, above) = get_split_point_lem (length whole) (omega arith) in
      let left = length-take p whole in
      let right = length-drop p whole in
      let (l, el, il) =
        hash_tree_from_lem f (take p whole) (omega (arith, left)) (omega (arith, left)) in
      let (r, er, ir) =
        hash_tree_from_lem f (drop p whole) (omega (arith, right)) (omega (arith, right)) in
      (
        sha256 (1 ∷ (l ++ r)),
        hash_tree_step f p x y xs l r split el er,
        join_roots f p k whole power below above il ir,
      )

  -- `hashTree` ends on every list of leaves that is not empty, and returns their Merkle root.
  pub hash_tree-IsRoot :
      (xs : List Bytes) → 1 ≤ length xs → (h : Bytes) × (hash_tree sha256 xs ≡ ok h) × IsRoot xs h
  unfolding hash_tree
  hash_tree-IsRoot xs h = hash_tree_from_lem (length xs) xs (omega arith) h

module _ (sha256 : Bytes → Bytes) where
  -- The hash of a block header with a last block is the Merkle root of fourteen leaves: the block
  -- and app versions, the chain id, the height, the time and the last block id, each as a reader of
  -- its format reads it, then the nine byte arrays by name, each behind its length. The conditions
  -- are IsEncodable and HasShortFields: the nine arrays, the chain id and the hash of the last block are
  -- shorter than 128 bytes, the hash of its parts is shorter than 124, their total is below 128,
  -- the versions, the height and the seconds are below 2^31 and the nanoseconds below a million.
  pub hash_block-IsRoot :
      (header : Header) (id : BlockId)
      → header.last_block_id ≡ some id
      → IsEncodable header id
      → HasShortFields header
      → (ls : List Bytes) × (h : Bytes) × (hash_block sha256 header ≡ ok h)
        × IsHeaderLeaves header id ls
        × IsRoot sha256 ls h
  unfolding hash_block leaves
  hash_block-IsRoot header id e encodable short =
      let (h, eh, root) = hash_tree-IsRoot sha256 (leaves header id) (omega arith) in
      (
        leaves header id,
        h,
        rw (e, encode_fields header short) eh,
        leaves_lem header id encodable,
        root,
      )
