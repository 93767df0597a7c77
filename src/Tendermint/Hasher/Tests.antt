-- ===== src/Tendermint/Hasher/Tests.antt =====
-- The Merkle root at concrete leaves; the stand-in for the hash function gives its input.
use cosmjs.Prelude.{
  ℕ, ◌*◌, ◌^◌, ◌≤◌, ◌<◌, ◌≡◌, refl, none, some, List, [], ◌∷◌, arith, replicate, ok, Bytes,
}
use cosmjs.Tendermint.Encodings.{BlockId}
use cosmjs.Tendermint.Hasher.{
  get_split_point, floor_log2, Header, hash_tree, hash_tree_from, hash_leaf, hash_inner, hash_block,
}
use cosmjs.Tendermint.Hasher.Split.{get_split_point_lem}
use cosmjs.Tendermint.Hasher.Root.{IsRoot, hash_tree-IsRoot, hash_block-IsRoot}
use cosmjs.Tendermint.Hasher.Leaves.{IsHeaderLeaves}

abbrev identity : Bytes → Bytes
identity bs = bs

three_leaves :
    hash_tree identity ((5 ∷ []) ∷ (6 ∷ []) ∷ (7 ∷ []) ∷ [])
    ≡ ok (1 ∷ 1 ∷ 0 ∷ 5 ∷ 0 ∷ 6 ∷ 0 ∷ 7 ∷ [])
unfolding hash_tree get_split_point floor_log2 hash_leaf hash_inner hash_tree_from
three_leaves = refl

get_split_point_lem_example :
    (p k : ℕ) × (get_split_point 8 ≡ ok p) × (p ≡ 2 ^ k) × (p < 8) × (8 ≤ 2 * p)
get_split_point_lem_example = get_split_point_lem 8 (omega arith)

hash_tree-IsRoot_example :
    (h : Bytes) × (hash_tree identity ((5 ∷ []) ∷ (6 ∷ []) ∷ (7 ∷ []) ∷ []) ≡ ok h)
    × IsRoot identity ((5 ∷ []) ∷ (6 ∷ []) ∷ (7 ∷ []) ∷ []) h
hash_tree-IsRoot_example =
    hash_tree-IsRoot identity ((5 ∷ []) ∷ (6 ∷ []) ∷ (7 ∷ []) ∷ []) (omega arith)

abbrev block_id : BlockId
block_id = record { hash = replicate 32 1; total = 1; parts_hash = replicate 32 2 }

abbrev header : Header
header = record {
  version = record { block = 11; app = 0 };
  chain_id = 97 ∷ [];
  height = 5;
  time = record { milliseconds = 1700000000000; nanoseconds = none };
  last_block_id = some block_id;
  last_commit_hash = replicate 32 3;
  data_hash = [];
  validators_hash = replicate 32 4;
  next_validators_hash = replicate 32 4;
  consensus_hash = replicate 32 5;
  app_hash = replicate 32 6;
  last_results_hash = [];
  evidence_hash = [];
  proposer_address = replicate 20 7;
}

hash_block-IsRoot_example :
    (ls : List Bytes) × (h : Bytes) × (hash_block identity header ≡ ok h)
    × IsHeaderLeaves header block_id ls
    × IsRoot identity ls h
hash_block-IsRoot_example =
    hash_block-IsRoot identity header block_id refl (ground arith) (ground arith)
