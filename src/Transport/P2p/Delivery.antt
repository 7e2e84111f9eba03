-- ===== src/Transport/P2p/Delivery.antt =====
-- From the call at one node to the state of another: broadcast, sendStream, readFramed and a handler.
use gleipnir.Prelude.{
  ℕ, ◌<◌, ◌≤◌, ◌≡◌, refl, ap, sym, subst, inl, inr, Bool-cases, false, Bytes, bytes_eq, nat_eq,
  ◌==◌, none, some, List, [], ◌∷◌, ◌++◌, length, ltb, nat_beq, arith, if◌then◌else◌, All, map,
}
use gleipnir.Prelude.Table.{lookup-insert_self}
use gleipnir.Prelude.Words.{be_bytes}
use gleipnir.Chain.{Block, ProvenanceEntry}
use gleipnir.Transport.Frames.{read_full-append, read_full-all, length-be_bytes, be_value-be_bytes}
use gleipnir.Transport.P2p.{
  Json, Protocol, entries, proposals, GossipBus, Message, publish, publish_final, snapshot,
  get_proposed, get_final, max_stream_message, send_stream, broadcast, read_framed, receive,
  handle_stream,
}

-- What arrives is what was sent, where it is not empty and within the limit.
read_framed-send_stream :
    (body : Bytes)
    → 0 < length body
    → length body ≤ max_stream_message
    → (frame : Bytes) × (send_stream body ≡ some frame) × (read_framed frame ≡ some body)
unfolding send_stream read_framed
read_framed-send_stream body full small =
    let header = be_bytes 4 (length body) in
    let fits : ltb max_stream_message (length body) ≡ false = ground arith in
    let some_bytes : nat_beq (length body) 0 ≡ false = ground arith in
    (
      header ++ body,
      rw fits refl,
      rw
          (
            read_framed,
            read_full-append 4 header body (length-be_bytes (length body)),
            be_value-be_bytes (length body) (omega arith),
            some_bytes,
            fits,
            read_full-all (length body) body refl,
          )
          refl,
    )

handle_stream-sent :
    (json : Json) (proto : Protocol) (body frame : Bytes)
    → 0 < length body
    → length body ≤ max_stream_message
    → send_stream body ≡ some frame
    → (b : GossipBus) → handle_stream json b proto frame ≡ receive json b proto body
unfolding handle_stream
handle_stream-sent json proto body frame full small sent b =
    let wire = read_framed-send_stream body full small in
    let same : wire.0 ≡ frame = ground (arith, wire.1) in
    let arrives : read_framed frame ≡ some body =
      subst (λ x. read_framed x ≡ some body) same wire.2 in
    rw (handle_stream, arrives) refl

-- The peers but this node, as broadcast goes through them.
abbrev pub others : Bytes → List Bytes → List Bytes
others host [] = []
others host (pid ∷ pids) = let rest = others host pids in if pid == host then rest else pid ∷ rest

abbrev pub Stream : Type 0
Stream = Bytes × Protocol × Bytes

-- One stream for each peer but this node, and each ends in its handler with what was sent.
broadcast_lem :
    (json : Json) (P : GossipBus → GossipBus → Type 0) (a : GossipBus) (proto : Protocol)
    (body : Bytes) (peers : List Bytes)
    → 0 < length body
    → length body ≤ max_stream_message
    → ((b : GossipBus) → P b (receive json b proto body))
    → (map (λ (t : Stream). t.0) (broadcast a peers proto body) ≡ others a.host_id peers)
      × All
          (λ (t : Stream). (b : GossipBus) → P b (handle_stream json b t.1 t.2))
          (broadcast a peers proto body)
unfolding broadcast
broadcast_lem json P a proto body [] full small h = (refl, tt)
broadcast_lem json P a proto body (pid ∷ pids) full small h =
    let rest = broadcast_lem json P a proto body pids full small h in
    let wire = read_framed-send_stream body full small in
    elim (Bool-cases (pid == a.host_id)) [
      | inl own ↦ rw own rest
      | inr other ↦
          rw (other, wire.1)
            (
              ap (λ (xs : List Bytes). pid ∷ xs) rest.0,
              (
                (λ b.
                    subst (P b)
                      (sym (handle_stream-sent json proto body wire.0 full small wire.1 b)) (h b)),
                rest.1,
              ),
            )
    ]

-- The streams that a call leads to.
abbrev pub streams : GossipBus → List Bytes → Message → List Stream
streams b peers none = []
streams b peers (some (proto, body)) = broadcast b peers proto body

receive-entry :
    (json : Json) (b : GossipBus) (entry : ProvenanceEntry)
    → json.to_entry (json.of_entry entry) ≡ some entry
    → snapshot (receive json b entries (json.of_entry entry)) ≡ snapshot b ++ entry ∷ []
unfolding receive snapshot
receive-entry json b entry reads = rw (snapshot, receive, reads) refl

receive-block :
    (json : Json) (b : GossipBus) (block : Block)
    → json.to_block (json.of_block block) ≡ some block
    → (get_proposed (receive json b proposals (json.of_block block)) block.index ≡ some block)
      × ((cycle : ℕ)
          → get_final (receive json b proposals (json.of_block block)) cycle ≡ get_final b cycle)
unfolding receive get_proposed get_final
receive-block json b block reads =
    rw (receive, reads) (lookup-insert_self block.index block b.held_proposals, (λ cycle. refl))

module _ (json : Json) (a : GossipBus) (peers : List Bytes) where
  -- An entry that is published goes to every peer but this node, and each of them holds it in the
  -- end, behind what it held. As JSON it has a byte at least and four mebibytes at most, and is read
  -- back as it was.
  pub publish-delivers :
      (entry : ProvenanceEntry)
      → json.to_entry (json.of_entry entry) ≡ some entry
      → 0 < length (json.of_entry entry)
      → length (json.of_entry entry) ≤ max_stream_message
      → (map (λ (t : Stream). t.0) (streams a peers (publish json a entry).1)
          ≡ others a.host_id peers)
        × All
            (λ (t : Stream).
              (b : GossipBus) → snapshot (handle_stream json b t.1 t.2) ≡ snapshot b ++ entry ∷ [])
            (streams a peers (publish json a entry).1)
  unfolding publish
  publish-delivers entry reads full small =
      broadcast_lem json (λ b b'. snapshot b' ≡ snapshot b ++ entry ∷ []) a entries
        (json.of_entry entry) peers full small (λ b. receive-entry json b entry reads)

  -- What PublishFinal broadcasts is received as a candidate: at every peer the final block takes the
  -- place of the candidate of its index, also of one that is held already, and no final block is
  -- added. As JSON the block has a byte at least and four mebibytes at most, and is read back.
  pub publish_final-arrives_as_candidate :
      (block : Block)
      → json.to_block (json.of_block block) ≡ some block
      → 0 < length (json.of_block block)
      → length (json.of_block block) ≤ max_stream_message
      → (map (λ (t : Stream). t.0) (streams a peers (publish_final json a block).1)
          ≡ others a.host_id peers)
        × All
            (λ (t : Stream).
              (b : GossipBus)
              → (get_proposed (handle_stream json b t.1 t.2) block.index ≡ some block)
                × ((cycle : ℕ)
                    → get_final (handle_stream json b t.1 t.2) cycle ≡ get_final b cycle))
            (streams a peers (publish_final json a block).1)
  unfolding publish_final
  publish_final-arrives_as_candidate block reads full small =
      broadcast_lem json
        (λ b b'.
          (get_proposed b' block.index ≡ some block)
          × ((cycle : ℕ) → get_final b' cycle ≡ get_final b cycle))
        a proposals (json.of_block block) peers full small (λ b. receive-block json b block reads)
