-- ===== src/Smt.antt =====
-- pkg/smt/smt.go: the sparse Merkle tree. BLAKE3-256 is third-party code, the parameter `blake3`. A
-- depth argument of the Go code runs from the tree's depth less one to -1; here it is counted one
-- higher, so that `zero` is the Go code's -1.
pub mod Hashed
pub mod Proofs
pub mod Binding
pub mod Total
use gleipnir.Prelude.{
  ℕ, zero, suc, ◌+◌, ◌-◌, ◌/◌, ◌%◌, Bool, true, false, not, ◌&&◌, ◌||◌, Bytes, codes, zero_bytes,
  Option, none, some, List, [], ◌∷◌, ◌++◌, length, get_elem?, leb, ltb, if◌then◌else◌, ◌==◌,
  bytes_eq,
}
use gleipnir.Prelude.Words.{be_bytes}
use gleipnir.Prelude.Bits.{byte_at, test_bit}
use gleipnir.Prelude.Table.{Table, lookup, insert}

pub record Node : Type 0 where
  pub left : Bytes
  pub right : Bytes
  pub hash : Bytes
  pub leaf : Bool
  pub key : Bytes
  pub value : Bytes

abbrev pub Store : Type 0
Store = Table Bytes Node

pub record SparseMerkleTree : Type 0 where
  pub root : Bytes
  pub depth : ℕ
  pub store : Store
  pub zeroes : List Bytes

-- The bit of the key at a depth that is not negative; 1 is `true`.
unfoldable pub path : Bytes → ℕ → Bool
path key depth =
    if leb (length key) (depth / 8) then false else test_bit (byte_at key (depth / 8)) (depth % 8)

-- t.zeroes[depth]. `new` makes one entry more than there are depths, so the index is in range.
abbrev zero_at : List Bytes → ℕ → Bytes
zero_at zeroes depth = elim (get_elem? zeroes depth) [ none ↦ zero_bytes 32 | some z ↦ z ]

-- What leafHash writes to the digest.
unfoldable pub leaf_preimage : Bytes → Bytes → Bytes
leaf_preimage key value =
    codes "leaf" ++ (be_bytes 8 (length key) ++ (key ++ (be_bytes 8 (length value) ++ value)))

module _ (blake3 : Bytes → Bytes) where
  unfoldable pub parent_hash : Bytes → Bytes → Bytes
  parent_hash left right = blake3 (left ++ right)

  unfoldable pub leaf_hash : Bytes → Bytes → Bytes
  leaf_hash key value = blake3 (leaf_preimage key value)

  -- The loop of New from the entry `z` on, and the last entry, which it leaves at zero.
  zeroes_from : Bytes → ℕ → List Bytes
  zeroes_from z zero = zero_bytes 32 ∷ []
  zeroes_from z (suc n) = z ∷ zeroes_from (parent_hash z z) n

  unfoldable pub new : ℕ → SparseMerkleTree
  unfolding zeroes_from
  new depth = record {
    root = zero_bytes 32;
    depth = depth;
    store = [];
    zeroes = zeroes_from (zero_bytes 32) depth;
  }

  unfoldable pub put_leaf : Store → Bytes → Bytes → Store × Bytes
  put_leaf s key value =
      let lh = leaf_hash key value in
      (
        insert lh
            (record {
              left = zero_bytes 32;
              right = zero_bytes 32;
              hash = lh;
              leaf = true;
              key = key;
              value = value;
            })
            s,
        lh,
      )

  unfoldable pub put_inner : Store → Bytes → Bytes → Store × Bytes
  put_inner s left right =
      let h = parent_hash left right in
      (
        insert h
            (record { left = left; right = right; hash = h; leaf = false; key = []; value = [] }) s,
        h,
      )

  -- splitAndInsert
  unfoldable pub split_and_insert :
      List Bytes → Store → Bytes → Bytes → Bytes → Bytes → ℕ → Store × Bytes
  split_and_insert zeroes s key1 h1 key2 h2 zero = (s, h2)
  split_and_insert zeroes s key1 h1 key2 h2 (suc d) =
      let child = split_and_insert zeroes s key1 h1 key2 h2 d in
      if path key1 d
      then (if path key2 d then put_inner child.0 (zero_at zeroes d) child.1 else put_inner s h2 h1)
      else if path key2 d
      then put_inner s h1 h2
      else put_inner child.0 child.1 (zero_at zeroes d)

  -- insertAt where the node found is a leaf.
  unfoldable pub insert_at_leaf : List Bytes → Store → Node → Bytes → Bytes → ℕ → Store × Bytes
  insert_at_leaf zeroes s n key value depth =
      if n.key == key then put_leaf s key value else elim depth [
        | zero ↦ (s, n.hash)
        | suc d ↦
            split_and_insert zeroes (put_leaf s key value).0 n.key (leaf_hash n.key n.value) key
              (leaf_hash key value) (suc d)
      ]

  -- The new node above the child that the recursive call gave.
  abbrev above_left : Node → Option (Store × Bytes) → Option (Store × Bytes)
  above_left n none = none
  above_left n (some (s, h)) = some (put_inner s h n.right)

  abbrev above_right : Node → Option (Store × Bytes) → Option (Store × Bytes)
  above_right n none = none
  above_right n (some (s, h)) = some (put_inner s n.left h)

  -- insertAt. `none` is an inner node below depth 0, where the Go code goes on down to the left.
  unfoldable pub insert_at : List Bytes → Store → Bytes → Bytes → Bytes → ℕ → Option (Store × Bytes)
  insert_at zeroes s current key value zero = elim (lookup current s) [
    | none ↦ some (put_leaf s key value)
    | some n ↦ if n.leaf then some (insert_at_leaf zeroes s n key value zero) else none
  ]
  insert_at zeroes s current key value (suc d) = elim (lookup current s) [
    | none ↦ some (put_leaf s key value)
    | some n ↦
        if n.leaf
        then some (insert_at_leaf zeroes s n key value (suc d))
        else if path key d
        then above_right n (insert_at zeroes s n.right key value d)
        else above_left n (insert_at zeroes s n.left key value d)
  ]

  abbrev with_root : SparseMerkleTree → Option (Store × Bytes) → Option SparseMerkleTree
  with_root t none = none
  with_root t (some (s, h)) = some (record t { root = h; store = s })

  -- Insert
  unfoldable pub insert_key : SparseMerkleTree → Bytes → Bytes → Option SparseMerkleTree
  insert_key t key value = with_root t (insert_at t.zeroes t.store t.root key value t.depth)

  -- BulkInsert, the map's entries in the order of the iteration.
  unfoldable pub bulk_insert : SparseMerkleTree → Table Bytes Bytes → Option SparseMerkleTree
  bulk_insert t [] = some t
  bulk_insert t ((key, value) ∷ rest) = elim (insert_key t key value) [
    | none ↦ none
    | some t' ↦ bulk_insert t' rest
  ]

  -- The loop of Verify; the first sibling belongs to `depth`.
  unfoldable pub fold_path : Bytes → Bytes → ℕ → List Bytes → Bytes
  fold_path key current depth [] = current
  fold_path key current depth (p ∷ ps) =
      fold_path key (if path key depth then parent_hash p current else parent_hash current p)
        (suc depth) ps

  unfoldable pub verify : SparseMerkleTree → Bytes → Bytes → Bytes → List Bytes → Bool
  verify t key value root proof =
      if ltb t.depth (length proof)
      then false
      else fold_path key (leaf_hash key value) (t.depth - length proof) proof == root

-- The loop of Get; ErrNotFound is `none`.
unfoldable pub get_from : Store → Bytes → Bytes → ℕ → Option Bytes
get_from s key current zero = none
get_from s key current (suc d) = elim (lookup current s) [
  | none ↦ none
  | some n ↦
      if n.leaf
      then (if n.key == key then some n.value else none)
      else if path key d
      then get_from s key n.right d
      else get_from s key n.left d
]

unfoldable pub get : SparseMerkleTree → Bytes → Option Bytes
get t key = get_from t.store key t.root t.depth

-- The loop of Prove with the siblings so far, and the check after it.
unfoldable pub prove_from : Store → Bytes → Bytes → List Bytes → ℕ → Option (List Bytes)
prove_from s key current proof zero = elim (lookup current s) [
  | none ↦ none
  | some n ↦ if not n.leaf || not (n.key == key) then none else some proof
]
prove_from s key current proof (suc d) = elim (lookup current s) [
  | none ↦ none
  | some n ↦
      if n.leaf
      then (if not (n.key == key) then none else some proof)
      else if path key d
      then prove_from s key n.right (n.left ∷ proof) d
      else prove_from s key n.left (n.right ∷ proof) d
]

unfoldable pub prove : SparseMerkleTree → Bytes → Option (List Bytes)
prove t key = prove_from t.store key t.root [] t.depth
