-- ===== src/Engine/History.antt =====
-- What the engine has committed, over any run of its methods.
use gleipnir.Prelude.{
  or_nil, get_elem?-bound, ℕ, zero, suc, ◌-◌, ◌≡◌, refl, sym, ap, ◌∙◌, ◌⊎◌, true, Bytes, bytes_eq,
  ◌==◌, Option, none, some, List, [], ◌∷◌, ◌++◌, arith, Bool-cases, inl, inr, length, length-append,
  get_elem?,
}
use gleipnir.Prelude.Int.{ℤ}
use gleipnir.Prelude.Table.{Table, lookup, insert, lookup-insert}
use gleipnir.Chain.{Block, ProvenanceEntry}
use gleipnir.Smt.{SparseMerkleTree}
use gleipnir.Engine.{Engine, AnchorProof, knows, lookup_hash, get_block}
use gleipnir.Engine.Prepare.{Env}
use gleipnir.Engine.Cycle.{anchor_entries, proof_of}
use gleipnir.Engine.Ledger.{Ledger, perform-Ledger}
use gleipnir.Engine.Operations.{Operation, perform, perform_all}

get_elem?-old :
    (bs : List Block) (b : Block) (i : ℕ) (x : Block)
    → get_elem? bs i ≡ some x
    → get_elem? (bs ++ (b ∷ [])) i ≡ some x
get_elem?-old [] b i x h = absurd (ground arith)
get_elem?-old (c ∷ bs) b zero x h = h
get_elem?-old (c ∷ bs) b (suc i) x h = get_elem?-old bs b i x h

get_elem?-last : (bs : List Block) (b : Block) → get_elem? (bs ++ (b ∷ [])) (length bs) ≡ some b
get_elem?-last [] b = refl
get_elem?-last (c ∷ bs) b = get_elem?-last bs b

abbrev named : Option AnchorProof → ℕ
named none = 0
named (some q) = q.block_index

anchor_entries-lookup :
    (t : SparseMerkleTree) (index : ℕ) (time : ℤ) (h : Bytes) (p : AnchorProof)
    (es : List ProvenanceEntry) (a : Table Bytes AnchorProof)
    → lookup h (anchor_entries t index time a es) ≡ some p
    → ((knows es h ≡ true) × (p.block_index ≡ index)) ⊎ (lookup h a ≡ some p)
unfolding anchor_entries knows
anchor_entries-lookup t index time h p [] a found = inr found
anchor_entries-lookup t index time h p (e ∷ es) a found =
    elim (anchor_entries-lookup t index time h p es (insert e.hash (proof_of t index time e) a)
      found) [
        | inl (later, i) ↦ inl (ground arith, i)
        | inr earlier ↦ elim (Bool-cases (e.hash == h)) [
          | inl here ↦
              let now = lookup-insert e.hash h (proof_of t index time e) a in
              let same : some (proof_of t index time e) ≡ some p = ground arith in
              inl (ground arith, sym (ap named same))
          | inr other ↦ inr (ground (arith, lookup-insert e.hash h (proof_of t index time e) a))
        ]
      ]

-- The block that a proof names is in the chain and has the entry.
pub record InBlock (e : Engine) (h : Bytes) (p : AnchorProof) : Type 0 where
  pub block : Block
  pub position : get_elem? e.blocks p.block_index ≡ some block
  pub inside : knows (or_nil block.anchored) h ≡ true

abbrev pub ProofsInBlocks : Engine → Type 0
ProofsInBlocks e = (h : Bytes) (p : AnchorProof) → lookup_hash e h ≡ some p → InBlock e h p

Ledger-ProofsInBlocks :
    (env : Env) (e e' : Engine) → Ledger env e e' → ProofsInBlocks e → ProofsInBlocks e'
unfolding lookup_hash
Ledger-ProofsInBlocks env e e' (inl s) inv h p found =
    let was = inv h p (sym (ap (lookup h) s.1) ∙ found) in
    record {
      block = was.block;
      position = ap (λ bs. get_elem? bs p.block_index) s.0 ∙ was.position;
      inside = was.inside;
    }
Ledger-ProofsInBlocks env e e' (inr g) inv h p found =
    elim (anchor_entries-lookup e'.st (length e'.blocks - 1) g.block.timestamp h p
      (or_nil g.block.anchored) e.anchored (sym (ap (lookup h) g.proved) ∙ found)) [
        | inl (inside, i) ↦
            let n : p.block_index ≡ length e.blocks =
              omega (arith, i, ap length g.longer, length-append e.blocks (g.block ∷ [])) in
            record {
              block = g.block;
              position = rw (g.longer, n) (get_elem?-last e.blocks g.block);
              inside = inside;
            }
        | inr earlier ↦
            let was = inv h p earlier in
            record {
              block = was.block;
              position =
                  ap (λ bs. get_elem? bs p.block_index) g.longer
                  ∙ get_elem?-old e.blocks g.block p.block_index was.block was.position;
              inside = was.inside;
            }
      ]

-- Whatever is called on an engine, and whatever is on the bus, each proof that LookupHash gives names
-- a block of the chain that holds the entry, where that was so at first.
pub perform_all-ProofsInBlocks :
    (env : Env) (ops : List Operation) (e : Engine)
    → ProofsInBlocks e
    → ProofsInBlocks (perform_all env e ops)
perform_all-ProofsInBlocks env [] e inv = inv
perform_all-ProofsInBlocks env (op ∷ ops) e inv =
    perform_all-ProofsInBlocks env ops (perform env e op)
      (Ledger-ProofsInBlocks env e (perform env e op) (perform-Ledger env e op) inv)

perform-get_block :
    (env : Env) (e : Engine) (op : Operation) (i : ℕ) (b : Block)
    → get_block e i ≡ some b
    → get_block (perform env e op) i ≡ some b
unfolding get_block
perform-get_block env e op i b found = elim (perform-Ledger env e op) [
  | inl s ↦ rw s.0 found
  | inr g ↦
      let here : get_elem? e.blocks i ≡ some b = ground arith in
      let still = get_elem?-old e.blocks g.block i b here in
      let bound = get_elem?-bound (e.blocks ++ (g.block ∷ [])) i b still in
      rw g.longer (ground arith)
]

-- A block that an engine has stays what it is and where it is, whatever operations are called on it and
-- whatever is on the bus.
pub block_stays :
    (env : Env) (ops : List Operation) (e : Engine) (i : ℕ) (b : Block)
    → get_block e i ≡ some b
    → get_block (perform_all env e ops) i ≡ some b
block_stays env [] e i b found = found
block_stays env (op ∷ ops) e i b found =
    block_stays env ops (perform env e op) i b (perform-get_block env e op i b found)
