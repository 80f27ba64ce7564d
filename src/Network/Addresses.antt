-- ===== src/Network/Addresses.antt =====
-- Dialling in src/net/p2p.js: addresses, and the connections that the node opens.
use Prim.Native.String.{◌++◌ as str_append}
use mineverse.Prelude.{
  String, Bool, true, false, Option, none, some, List, [], ◌∷◌, leb, ◌&&◌, ◌||◌, not, str_eq,
  if◌then◌else◌,
}
use mineverse.Dict
use mineverse.Bank.Contracts.{is_some}
use mineverse.Keys.{codes, drop_prefix}
use mineverse.Network.{Peer, dial, Node, NetEnv}
use mineverse.Network.Peers.{count_listed, act}

-- `/^wss?:\/\//.test(address)`
unfoldable pub has_scheme : String → Bool
has_scheme address =
    is_some (drop_prefix (codes "ws://") (codes address))
    || is_some (drop_prefix (codes "wss://") (codes address))

-- `normalizeAddress`
unfoldable pub normalize_address : NetEnv → String → Option String
unfolding has_scheme
normalize_address net address =
    elim (net.parse_url (if has_scheme address then address else str_append "ws://" address)) [
      | none ↦ none
      | some url ↦
          if str_eq url.port ""
          then none
          else if not (str_eq url.protocol "ws:") && not (str_eq url.protocol "wss:")
          then none
          else some (
              str_append url.protocol
                (str_append "//" (str_append url.hostname (str_append ":" url.port))))
    ]

abbrev pub know : String → Node → Node
know address node = record node { known = Dict.put node.known address tt }

abbrev pub undial : String → Node → Node
undial address node = record node { dialing = Dict.remove node.dialing address }

-- `addPeerAddress`: whether it was taken, and the node after it.
unfoldable pub add_peer_address : NetEnv → String → Node → Bool × Node
unfolding normalize_address
add_peer_address net address node = elim (normalize_address net address) [
  | none ↦ (false, node)
  | some normalized ↦
      if str_eq normalized node.self_address then (false, node) else (true, know normalized node)
]

abbrev has_address : Peer → String → Bool
has_address p address = elim p.address [ none ↦ false | some other ↦ str_eq other address ]

-- `isConnectedTo`, over the peers in the table.
unfoldable pub is_connected_to : String → List Peer → Bool
is_connected_to address [] = false
is_connected_to address (p ∷ peers) =
    if p.is_listed && has_address p address then true else is_connected_to address peers

-- `connect`, up to the socket that it opens.
unfoldable pub connect : NetEnv → String → Node → Node
unfolding normalize_address is_connected_to count_listed
connect net address node = elim (normalize_address net address) [
  | none ↦ node
  | some normalized ↦
      if node.stopped
        || str_eq normalized node.self_address
        || is_some (Dict.get node.dialing normalized)
        || is_connected_to normalized node.peers
        || leb node.max_peers (count_listed node.peers)
      then node
      else act (dial normalized) (record node {
        known = Dict.put node.known normalized tt;
        dialing = Dict.put node.dialing normalized tt;
      })
]

unfoldable pub redial_at : NetEnv → String → Node → Node
unfolding connect
redial_at net address node =
    if is_connected_to address node.peers then node else connect net address node

-- `redial`, over the addresses that are known.
unfoldable pub redial_each : NetEnv → List String → Node → Node
unfolding redial_at
redial_each net [] node = node
redial_each net (address ∷ addresses) node = redial_each net addresses (redial_at net address node)

unfoldable pub redial : NetEnv → Node → Node
unfolding redial_each
redial net node = if node.stopped then node else redial_each net (Dict.keys node.known) node
