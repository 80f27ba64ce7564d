-- ===== src/Tests/Networks.antt =====
-- A node with peers.
use mineverse.Dict
use mineverse.Prelude.{ℕ, ◌+◌, arith, none, some, List, [], ◌∷◌, ◌++◌, ◌≡◌, refl, true, false}
use mineverse.Network.{
  Message, new_tx, new_block, ping, hello, parsed, Peer, DropReason, close_peer, Node, NetEnv, text,
  new_node,
}
use mineverse.Network.Chain.{run-Advances}
use mineverse.Network.Growth.{Advances}
use mineverse.Network.Gossip.{handle_tx-once, handle_raw-closes}
use mineverse.Network.Messages.{handle_tx}
use mineverse.Network.Events.{Event, connection, message, prune_due, redial_due, run, handle_raw}
use mineverse.Tests.Samples.{env, lib, now, pay_bob, mined_block}
use mineverse.Tests.Chains.{first_chain}

abbrev pub net : NetEnv
net = record {
  env = env;
  parse_url = λ t. some (record { protocol = "ws:"; hostname = "10.0.0.1"; port = "6001" });
}

abbrev pub node : Node
node = new_node first_chain "00ff" "ws://127.0.0.1:6001" 32

abbrev greeting : Message
greeting = hello (
    some (record {
      node_id = text "11ee";
      chain_id = text "mineverse-2";
      listen_address = text "10.0.0.1:6001";
      summary = none;
    }))

abbrev happenings : List (ℕ × Event)
happenings =
    (now, connection "10.0.0.1")
    ∷ (now, message 0 (parsed greeting))
    ∷ (now, message 0 (parsed (new_tx (some pay_bob))))
    ∷ (now, message 0 (parsed (new_block (some mined_block))))
    ∷ []

run-Advances_example : Advances lib node.chain (run net happenings node).chain
run-Advances_example = run-Advances net happenings node

abbrev stranger : Peer
stranger = record {
  id = 3;
  is_open = true;
  is_listed = true;
  inbound = true;
  address = none;
  remote = some "10.0.0.9";
  node_id = none;
  handshaken = false;
  alive = true;
  window_start = now;
  window_count = 0;
}

handle_raw-closes_example :
    ((handle_raw net now stranger (parsed ping) node).chain ≡ node.chain)
    × ((reason : DropReason) × ((handle_raw net now stranger (parsed ping) node).sent
          ≡ node.sent ++ close_peer 3 reason ∷ []))
handle_raw-closes_example = handle_raw-closes net now stranger (parsed ping) node (refl, refl)

abbrev ten_minutes : List (ℕ × Event)
ten_minutes = happenings ++ (now + 300000, prune_due) ∷ (now + 599999, redial_due) ∷ []

unseen :
    Dict.get node.seen "tx:ab112233445566778899aabbccddeeff00112233445566778899aabbccddeeff" ≡ none
unfolding Dict.get Dict.empty new_node
unseen = refl

handle_tx-once_example :
    handle_tx net
      (now + 599999)
      stranger
      pay_bob
      (run net ten_minutes (handle_tx net now stranger pay_bob node))
    ≡ run net ten_minutes (handle_tx net now stranger pay_bob node)
handle_tx-once_example =
    handle_tx-once net now (now + 599999) stranger stranger pay_bob pay_bob ten_minutes node unseen
      (omega arith, (omega arith, (omega arith, (omega arith, (omega arith, (omega arith, tt))))))
      refl
