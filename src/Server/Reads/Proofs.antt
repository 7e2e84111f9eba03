-- ===== src/Server/Reads/Proofs.antt =====
-- What the answers of GetMerkleProof of pkg/server/lightclient.go are proofs of.
use gleipnir.Prelude.{
  ℕ, ◌≡◌, refl, inl, inr, Bool-cases, Option-cases, arith, true, Bytes, some, List, length, nat_beq,
}
use gleipnir.Prelude.Results.{ok, Result-cases}
use gleipnir.Smt.{prove, verify}
use gleipnir.Smt.Hashed.{IsHashed}
use gleipnir.Smt.Proofs.{prove_verifies}
use gleipnir.Engine.{Engine}
use gleipnir.Server.Reads.{check_named_block, get_merkle_proof}

get_merkle_proof-prove :
    (e : Engine) (key : Bytes) (index : ℕ) (proof : List Bytes) (root : Bytes)
    → get_merkle_proof e key index ≡ ok (proof, root)
    → (prove e.st key ≡ some proof) × (root ≡ e.st.root)
unfolding get_merkle_proof
get_merkle_proof-prove e key index proof root h = elim (Bool-cases (nat_beq (length key) 32)) [
  | inr odd ↦ absurd (ground arith)
  | inl sized ↦ elim (Result-cases (check_named_block e index)) [
    | inr (x, refused) ↦ absurd (ground arith)
    | inl (tt, named) ↦ elim (Option-cases (prove e.st key)) [
      | inl missing ↦ absurd (ground arith)
      | inr (path, found) ↦ elim (Bool-cases (nat_beq (length e.st.root) 32)) [
        | inr short ↦ absurd (ground arith)
        | inl full ↦ (ground (arith, found), ground arith)
      ]
    ]
  ]
]

-- Where every node of the tree is under its hash, a proof that GetMerkleProof answers with is accepted
-- by the tree's verification for the key, some value and the root of the answer. That root is the
-- tree's current one, whatever block was named; asked for another block, GetMerkleProof answers the
-- same if it answers.
pub get_merkle_proof-current :
    (blake3 : Bytes → Bytes) (e : Engine) (key : Bytes) (index other : ℕ) (proof later : List Bytes)
    (root root' : Bytes)
    → IsHashed blake3 e.st.store
    → get_merkle_proof e key index ≡ ok (proof, root)
    → get_merkle_proof e key other ≡ ok (later, root')
    → ((value : Bytes) × (verify blake3 e.st key value root proof ≡ true))
      × ((root ≡ e.st.root) × ((later ≡ proof) × (root' ≡ root)))
get_merkle_proof-current blake3 e key index other proof later root root' hashed h k =
    let p = get_merkle_proof-prove e key index proof root h in
    let q = get_merkle_proof-prove e key other later root' k in
    let v = prove_verifies blake3 e.st key proof hashed p.0 in
    ((v.0, rw p.1 v.1), (p.1, (ground (arith, p.0, q.0), rw (p.1, q.1) refl)))
