-- ===== src/Transport/P2p.antt =====
-- pkg/transport/p2p/gossip.go: the gossip channel of one node among others. A method is one step and
-- gives the node's state with what it hands to broadcast; what others send arrives as the bytes of a
-- stream. The library that connects hosts, encoding/json and the parser of addresses are arguments.
pub mod Delivery
pub mod Finals
pub mod Redial
use gleipnir.Prelude.{
  ℕ, zero, suc, ◌+◌, ◌*◌, Bool, true, false, not, ◌||◌, Bytes, bytes_eq, nat_eq, ◌==◌, Option, none,
  some, List, [], ◌∷◌, ◌++◌, length, ltb, nat_beq, if◌then◌else◌,
}
use gleipnir.Prelude.Table.{Table, lookup, insert, delete}
use gleipnir.Prelude.Words.{be_bytes}
use gleipnir.Chain.{Block, ProvenanceEntry}
use gleipnir.Consensus.Gossip.{BlockSig, VrfProofMsg, kept, or_nothing, has_prover}
use gleipnir.Transport.{read_full, be_value}

-- encoding/json on the four kinds of message; what does not marshal is the empty string.
pub record Json : Type 0 where
  pub of_entry : ProvenanceEntry → Bytes
  pub of_block : Block → Bytes
  pub of_sig : BlockSig → Bytes
  pub of_proof : VrfProofMsg → Bytes
  pub to_entry : Bytes → Option ProvenanceEntry
  pub to_block : Bytes → Option Block
  pub to_sig : Bytes → Option BlockSig
  pub to_proof : Bytes → Option VrfProofMsg

pub data Protocol : Type 0 where
  entries proposals sigs vrf_proofs : Protocol

-- peer.AddrInfo
pub record AddrInfo : Type 0 where
  pub id : Bytes
  pub addrs : List Bytes

pub record GossipBus : Type 0 where
  pub host_id : Bytes
  pub pending : List ProvenanceEntry
  pub held_proposals : Table ℕ Block
  pub held_finals : Table ℕ Block
  pub held_sigs : Table ℕ (List BlockSig)
  pub held_proofs : Table ℕ (List VrfProofMsg)
  pub connected : Table Bytes Bool
  pub known_addrs : Table Bytes (List Bytes)

-- What a call hands to broadcast, if anything.
abbrev pub Message : Type 0
Message = Option (Protocol × Bytes)

unfoldable pub add_sig : GossipBus → BlockSig → GossipBus
add_sig b s = record b {
  held_sigs = insert s.cycle (or_nothing (lookup s.cycle b.held_sigs) ++ s ∷ []) b.held_sigs;
}

unfoldable pub add_proof : GossipBus → VrfProofMsg → GossipBus
add_proof b m = record b {
  held_proofs = insert m.cycle (or_nothing (lookup m.cycle b.held_proofs) ++ m ∷ []) b.held_proofs;
}

module _ (json : Json) where
  unfoldable pub publish : GossipBus → ProvenanceEntry → GossipBus × Message
  publish b entry =
      (record b { pending = b.pending ++ entry ∷ [] }, some (entries, json.of_entry entry))

  -- Propose: the first block of an index stays.
  unfoldable pub propose : GossipBus → Block → GossipBus × Message
  propose b block = elim (lookup block.index b.held_proposals) [
    | some earlier ↦ (b, none)
    | none ↦ (
      record b { held_proposals = insert block.index block b.held_proposals },
      some (proposals, json.of_block block),
    )
  ]

  -- PublishFinal, which broadcasts like Propose.
  unfoldable pub publish_final : GossipBus → Block → GossipBus × Message
  publish_final b block = (
    record b { held_finals = insert block.index block b.held_finals },
    some (proposals, json.of_block block),
  )

  unfoldable pub publish_sig : GossipBus → BlockSig → GossipBus × Message
  unfolding add_sig
  publish_sig b s = (add_sig b s, some (sigs, json.of_sig s))

  unfoldable pub publish_vrf_proof : GossipBus → VrfProofMsg → GossipBus × Message
  unfolding add_proof
  publish_vrf_proof b m =
      if has_prover m.signer_id (or_nothing (lookup m.cycle b.held_proofs))
      then (b, none)
      else (add_proof b m, some (vrf_proofs, json.of_proof m))

unfoldable pub snapshot : GossipBus → List ProvenanceEntry
snapshot b = b.pending

unfoldable pub remove_entries : GossipBus → Table Bytes Bool → GossipBus
remove_entries b remove = record b { pending = kept remove b.pending }

unfoldable pub get_proposed : GossipBus → ℕ → Option Block
get_proposed b cycle = lookup cycle b.held_proposals

unfoldable pub get_final : GossipBus → ℕ → Option Block
get_final b cycle = lookup cycle b.held_finals

unfoldable pub get_sigs : GossipBus → ℕ → List BlockSig
get_sigs b cycle = or_nothing (lookup cycle b.held_sigs)

unfoldable pub get_vrf_proofs : GossipBus → ℕ → List VrfProofMsg
get_vrf_proofs b cycle = or_nothing (lookup cycle b.held_proofs)

abbrev pub max_stream_message : ℕ
max_stream_message = 4 * 1024 * 1024

-- sendStream: what it writes, or nothing where the message is over the limit.
unfoldable pub send_stream : Bytes → Option Bytes
send_stream bytes =
    if ltb max_stream_message (length bytes)
    then none
    else some (be_bytes 4 (length bytes) ++ bytes)

-- broadcast: the streams that are opened, one for each connected peer but this node.
unfoldable pub broadcast :
    GossipBus → List Bytes → Protocol → Bytes → List (Bytes × Protocol × Bytes)
broadcast b [] proto bytes = []
broadcast b (pid ∷ pids) proto bytes =
    let others = broadcast b pids proto bytes in
    if pid == b.host_id
    then others
    else elim (send_stream bytes) [ none ↦ others | some frame ↦ (pid, proto, frame) ∷ others ]

-- readFramed
unfoldable pub read_framed : Bytes → Option Bytes
read_framed bs = elim (read_full 4 bs) [
  | none ↦ none
  | some (header, rest) ↦
      let n = be_value 0 header in
      if nat_beq n 0 || ltb max_stream_message n
      then none
      else elim (read_full n rest) [ none ↦ none | some (body, after) ↦ some body ]
]

module _ (json : Json) where
  -- The handlers of the four protocols, behind readFramed.
  unfoldable pub receive : GossipBus → Protocol → Bytes → GossipBus
  unfolding add_sig add_proof
  receive b entries body = elim (json.to_entry body) [
    | none ↦ b
    | some entry ↦ record b { pending = b.pending ++ entry ∷ [] }
  ]
  receive b proposals body = elim (json.to_block body) [
    | none ↦ b
    | some block ↦ record b { held_proposals = insert block.index block b.held_proposals }
  ]
  receive b sigs body = elim (json.to_sig body) [ none ↦ b | some s ↦ add_sig b s ]
  receive b vrf_proofs body = elim (json.to_proof body) [
    | none ↦ b
    | some m ↦
        if has_prover m.signer_id (or_nothing (lookup m.cycle b.held_proofs))
        then b
        else add_proof b m
  ]

  unfoldable pub handle_stream : GossipBus → Protocol → Bytes → GossipBus
  unfolding read_framed
  handle_stream b proto bs = elim (read_framed bs) [ none ↦ b | some body ↦ receive b proto body ]

-- ConnectedF and DisconnectedF
unfoldable pub connected_f : GossipBus → Bytes → GossipBus
connected_f b id = record b { connected = insert id true b.connected }

unfoldable pub disconnected_f : GossipBus → Bytes → GossipBus
disconnected_f b id = record b { connected = delete id b.connected }

unfoldable pub connected_peers : GossipBus → ℕ
connected_peers b = length b.connected

unfoldable pub remember_peer : GossipBus → AddrInfo → GossipBus
remember_peer b pi = if pi.id == b.host_id then b else record b {
  known_addrs = insert pi.id (or_nothing (lookup pi.id b.known_addrs) ++ pi.addrs) b.known_addrs;
}

-- connectToPeerInfo: whether the dial succeeds is seen by ConnectedF alone.
unfoldable pub connect_to_peer_info : GossipBus → AddrInfo → GossipBus
unfolding remember_peer
connect_to_peer_info b pi = remember_peer b pi

abbrev pub or_false : Option Bool → Bool
or_false none = false
or_false (some r) = r

unfoldable pub handle_peer_found : GossipBus → AddrInfo → GossipBus
unfolding remember_peer connect_to_peer_info
handle_peer_found b pi =
    if pi.id == b.host_id
    then b
    else let b' = remember_peer b pi in
      if or_false (lookup pi.id b'.connected) then b' else connect_to_peer_info b' pi

unfoldable pub connect_to_peer : (Bytes → Option AddrInfo) → GossipBus → Bytes → GossipBus
unfolding connect_to_peer_info
connect_to_peer parse b addr = elim (parse addr) [ none ↦ b | some pi ↦ connect_to_peer_info b pi ]

unfoldable pub connect_all : (Bytes → Option AddrInfo) → GossipBus → List Bytes → GossipBus
connect_all parse b [] = b
connect_all parse b (addr ∷ rest) = connect_all parse (connect_to_peer parse b addr) rest

-- NewGossipBus, once the host is there: its bootstrap peers are dialled.
unfoldable pub new_gossip_bus : (Bytes → Option AddrInfo) → Bytes → List Bytes → GossipBus
new_gossip_bus parse host_id bootstrap_peers =
    connect_all parse
      (record {
        host_id = host_id;
        pending = [];
        held_proposals = [];
        held_finals = [];
        held_sigs = [];
        held_proofs = [];
        connected = [];
        known_addrs = [];
      })
      bootstrap_peers

-- Times in nanoseconds.
abbrev pub redial_period : ℕ
redial_period = 10000000000

abbrev pub redial_retry_interval : ℕ
redial_retry_interval = 2000000000

-- last.Add(redialRetryInterval).After(now): a missing time is long ago.
abbrev pub too_soon : Option ℕ → ℕ → Bool
too_soon none now = false
too_soon (some last) now = ltb now (last + redial_retry_interval)

abbrev pub Attempts : Type 0
Attempts = Table Bytes ℕ

-- A dial is a call of connectToPeerInfo; without addresses there is none.
unfoldable pub dial : GossipBus → Bytes → List Bytes → GossipBus
unfolding connect_to_peer_info
dial b id [] = b
dial b id (a ∷ as') = connect_to_peer_info b (record { id = id; addrs = a ∷ as' })

-- One candidate of redialLoop, where it is not connected.
unfoldable pub redial_one : ℕ → Bytes → List Bytes → GossipBus × Attempts → GossipBus × Attempts
redial_one now id addrs s =
    if too_soon (lookup id s.1) now then s else (dial s.0 id addrs, insert id now s.1)

-- The loop over the candidates in redialLoop.
unfoldable pub redial_each :
    (Bytes → Bool) → ℕ → Table Bytes (List Bytes) → GossipBus × Attempts → GossipBus × Attempts
redial_each is_connected now [] s = s
redial_each is_connected now (c ∷ cs) s =
    redial_each is_connected now cs (if is_connected c.0 then s else redial_one now c.0 c.1 s)

-- A round of redialLoop: the addresses are those known when it begins.
unfoldable pub redial_round : (Bytes → Bool) → ℕ → GossipBus × Attempts → GossipBus × Attempts
redial_round is_connected now s = redial_each is_connected now s.0.known_addrs s

-- The rounds at each tick from a time on.
unfoldable pub redial_rounds : (Bytes → Bool) → ℕ → ℕ → GossipBus × Attempts → GossipBus × Attempts
redial_rounds is_connected zero now s = s
redial_rounds is_connected (suc n) now s =
    redial_rounds is_connected n (now + redial_period) (redial_round is_connected now s)
