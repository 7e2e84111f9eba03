-- ===== src/Consensus/Peer.antt =====
-- pkg/consensus/node.go: the network's validators. Of an identity (pkg/identity/uid0.go) only the
-- public part is kept; `ID()` is the hexadecimal form of the root.
use gleipnir.Prelude.{ℕ, ◌+◌, ◌-◌, ◌/◌, ◌%◌, Bool, Bytes, [], ◌∷◌, ltb, if◌then◌else◌}

pub record Peer : Type 0 where
  pub root_id : Bytes
  pub public_key : Bytes
  pub vrf_public_key : Bytes
  pub contract_hash : Bytes
  pub addr : Bytes
  pub alive : Bool

-- encoding/hex: one digit for each half of a byte.
hex_digit : ℕ → ℕ
hex_digit d = if ltb d 10 then b'0' + d else b'a' + (d - 10)

unfoldable pub hex_encode : Bytes → Bytes
unfolding hex_digit
hex_encode [] = []
hex_encode (b ∷ bs) = hex_digit (b / 16) ∷ hex_digit (b % 16) ∷ hex_encode bs

unfoldable pub peer_id : Peer → Bytes
unfolding hex_encode
peer_id p = hex_encode p.root_id
