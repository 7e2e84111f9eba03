-- ===== src/Smt/Binding.antt =====
-- A root binds the value of a key, or the digest has a collision.
use gleipnir.Prelude.{
  ℕ, zero, suc, ◌-◌, ◌/◌, ◌%◌, ◌≡◌, ◌≢◌, ◌⊎◌, refl, true, Bytes, List, [], ◌∷◌, ◌++◌, arith,
  Bool-cases, inl, inr, if◌then◌else◌, ◌==◌, bytes_eq, bytes_beq_iff, length, All, codes,
}
use gleipnir.Prelude.Words.{be_bytes}
use gleipnir.Smt.{SparseMerkleTree, parent_hash, leaf_hash, leaf_preimage, path, fold_path, verify}

append-cancel : (a b x y : Bytes) → length a ≡ length b → a ++ x ≡ b ++ y → (a ≡ b) × (x ≡ y)
append-cancel [] [] x y n e = (refl, e)
append-cancel [] (c ∷ b) x y n e = absurd (omega arith)
append-cancel (c ∷ a) [] x y n e = absurd (omega arith)
append-cancel (c ∷ a) (c' ∷ b) x y n e =
    let rest = append-cancel a b x y (omega arith) (ground arith) in
    (ground (arith, rest.0), rest.1)

length-append_byte : (a : Bytes) (b : ℕ) → length (a ++ b ∷ []) ≡ suc (length a)
length-append_byte [] b = refl
length-append_byte (c ∷ a) b = omega (arith, length-append_byte a b)

length-be_bytes : (n x : ℕ) → length (be_bytes n x) ≡ n
unfolding be_bytes
length-be_bytes zero x = refl
length-be_bytes (suc n) x =
    omega (arith, length-append_byte (be_bytes n (x / 256)) (x % 256), length-be_bytes n (x / 256))

-- The digest's input determines key and value, for keys of one length.
leaf_preimage_inj :
    (key key' value value' : Bytes)
    → length key ≡ length key'
    → leaf_preimage key value ≡ leaf_preimage key' value'
    → (key ≡ key') × (value ≡ value')
unfolding leaf_preimage
leaf_preimage_inj key key' value value' n e =
    let a = append-cancel (codes "leaf") (codes "leaf") _ _ refl e in
    let b =
      append-cancel (be_bytes 8 (length key)) (be_bytes 8 (length key')) _ _
        (omega (arith, length-be_bytes 8 (length key), length-be_bytes 8 (length key'))) a.1 in
    let c = append-cancel key key' _ _ n b.1 in
    let d =
      append-cancel (be_bytes 8 (length value)) (be_bytes 8 (length value')) _ _
        (omega (arith, length-be_bytes 8 (length value), length-be_bytes 8 (length value'))) c.1 in
    (c.0, d.1)

-- A hash is 32 bytes.
abbrev pub IsSized : Bytes → Type 0
IsSized h = length h ≡ 32

module _ (blake3 : Bytes → Bytes) where
  -- Two inputs with one digest.
  pub record Collision : Type 0 where
    pub one : Bytes
    pub other : Bytes
    pub differ : one ≢ other
    pub meet : blake3 one ≡ blake3 other

  collide : (a b : Bytes) → blake3 a ≡ blake3 b → (a ≡ b) ⊎ Collision
  collide a b e = elim (Bool-cases (a == b)) [
    | inl same ↦ inl ((bytes_beq_iff a b).0 same)
    | inr other ↦ inr (record {
      one = a;
      other = b;
      differ = λ h. ground (arith, (bytes_beq_iff a b).1 h);
      meet = e;
    })
  ]

  -- One step of `fold_path`.
  abbrev up : Bytes → Bytes → Bytes → ℕ → Bytes
  up key a p d = if path key d then parent_hash blake3 p a else parent_hash blake3 a p

  module _ (sized : (b : Bytes) → length (blake3 b) ≡ 32) where
    fold_path-step :
        (key : Bytes) (a b p q : Bytes) (d : ℕ)
        → IsSized a
        → IsSized b
        → IsSized p
        → IsSized q
        → up key a p d ≡ up key b q d
        → (a ≡ b) ⊎ Collision
    unfolding parent_hash
    fold_path-step key a b p q d sa sb sp sq e = elim (Bool-cases (path key d)) [
      | inl right ↦ elim (collide (p ++ a) (q ++ b) (ground arith)) [
        | inl same ↦ inl (append-cancel p q a b (omega arith) same).1
        | inr c ↦ inr c
      ]
      | inr left ↦ elim (collide (a ++ p) (b ++ q) (ground arith)) [
        | inl same ↦ inl (append-cancel a b p q (omega arith) same).0
        | inr c ↦ inr c
      ]
    ]

    fold_path-IsSized : (key a p : Bytes) (d : ℕ) → IsSized (up key a p d)
    unfolding parent_hash
    fold_path-IsSized key a p d = ground (arith, sized (p ++ a), sized (a ++ p))

    fold_path-binds :
        (key a b : Bytes) (d : ℕ) (ps qs : List Bytes)
        → IsSized a
        → IsSized b
        → All IsSized ps
        → All IsSized qs
        → length ps ≡ length qs
        → fold_path blake3 key a d ps ≡ fold_path blake3 key b d qs
        → (a ≡ b) ⊎ Collision
    unfolding fold_path
    fold_path-binds key a b d [] [] sa sb sp sq n e = inl e
    fold_path-binds key a b d [] (q ∷ qs) sa sb sp sq n e = absurd (omega arith)
    fold_path-binds key a b d (p ∷ ps) [] sa sb sp sq n e = absurd (omega arith)
    fold_path-binds key a b d (p ∷ ps) (q ∷ qs) sa sb sp sq n e =
        elim (fold_path-binds key (up key a p d) (up key b q d) (suc d) ps qs
          (fold_path-IsSized key a p d) (fold_path-IsSized key b q d) sp.1 sq.1 (omega arith) e) [
            | inl same ↦ fold_path-step key a b p q d sa sb sp.0 sq.0 same
            | inr c ↦ inr c
          ]

    -- Two values that verify for one key against one root, by paths of the same number of hashes,
    -- are equal, or two inputs of the digest collide.
    pub verify_binds :
        (t : SparseMerkleTree) (key value value' root : Bytes) (ps qs : List Bytes)
        → All IsSized ps
        → All IsSized qs
        → length ps ≡ length qs
        → verify blake3 t key value root ps ≡ true
        → verify blake3 t key value' root qs ≡ true
        → (value ≡ value') ⊎ Collision
    unfolding verify leaf_hash
    verify_binds t key value value' root ps qs sp sq n e f =
        let d = t.depth - length ps in
        let left : fold_path blake3 key (leaf_hash blake3 key value) d ps ≡ root =
          ground
            (arith, bytes_beq_iff (fold_path blake3 key (leaf_hash blake3 key value) d ps) root) in
        let right : fold_path blake3 key (leaf_hash blake3 key value') d qs ≡ root =
          ground
            (arith, bytes_beq_iff (fold_path blake3 key (leaf_hash blake3 key value') d qs) root) in
        elim (fold_path-binds key _ _ d ps qs (sized _) (sized _) sp sq n (ground arith)) [
          | inl same ↦ elim (collide (leaf_preimage key value) (leaf_preimage key value') same) [
            | inl plain ↦ inl (leaf_preimage_inj key key value value' refl plain).1
            | inr c ↦ inr c
          ]
          | inr c ↦ inr c
        ]
