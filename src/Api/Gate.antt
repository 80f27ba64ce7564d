-- ===== src/Api/Gate.antt =====
-- Who may change what through the HTTP server (src/api/server.js).
use mineverse.Prelude.{
  ℕ, String, Bool, true, false, not, Option, none, some, ◌≡◌, refl, ap, ◌∙◌, arith, ◌⊎◌, inl, inr,
  Bool-cases, Result, str_eq, eq_iff, ok, err, >>=-eq-ok, if◌then◌else◌,
}
use mineverse.Transaction.{Transaction}
use mineverse.Mempool.{Refusal}
use mineverse.Blockchain.{Blockchain, submit_transaction}
use mineverse.Blockchain.Storage.{save}
use mineverse.Network.{Node, NetEnv}
use mineverse.Network.Peers.{broadcast_transaction, broadcast, mark_seen}
use mineverse.Network.Addresses.{add_peer_address}
use mineverse.Network.Kept.{connect-chain}
use mineverse.Api.{Command, Request, Host, ApiEnv}
use mineverse.Api.Writes.{
  passes_gate, after_submitting, after_adding, answer_add_peer, answer_snapshot, answer_command,
  serve,
}

-- The server asks for no token, as it has none or an empty one, or the one sent is its own.
abbrev pub IsAllowed : (own sent : Option String) → Type 0
IsAllowed own sent =
    (own ≡ none) ⊎ (own ≡ some "") ⊎ ((t : String) × (own ≡ some t) × (sent ≡ some t))

passes_gate-IsAllowed :
    (own sent : Option String) → passes_gate own sent ≡ true → IsAllowed own sent
unfolding passes_gate
passes_gate-IsAllowed none sent h = inl refl
passes_gate-IsAllowed (some t) none h = inr (inl (ground (arith, eq_iff t "")))
passes_gate-IsAllowed (some t) (some given) h = elim (Bool-cases (str_eq t "")) [
  | inl e ↦ inr (inl (ap some ((eq_iff t "").0 e)))
  | inr e ↦ inr (inr (t, refl, ground (arith, eq_iff given t)))
]

-- A request changes nothing, or it is a command, and the server has no token or an empty one, or the
-- request sends just that token.
pub serve-guarded :
    (api : ApiEnv) (now : ℕ) (token : Option String) (request : Request) (host : Host)
    → ((serve api now token request host).1 ≡ host)
      ⊎ ((command : Command) × (request ≡ Request.post command) × IsAllowed host.api_token token)
unfolding serve
serve-guarded api now token (Request.get query) host = inl refl
serve-guarded api now token (Request.post command) host =
    elim (Bool-cases (passes_gate host.api_token token)) [
      | inl passes ↦ inr (command, refl, passes_gate-IsAllowed host.api_token token passes)
      | inr fails ↦ inl (rw fails refl)
    ]
serve-guarded api now token (Request.other is_get) host =
    elim (Bool-cases (if is_get then true else passes_gate host.api_token token)) [
      | inl passes ↦ inl (rw passes refl)
      | inr fails ↦ inl (rw fails refl)
    ]

-- The blocks and the state of a host are those of another.
abbrev pub IsSameLedger : Host → Host → Type 0
IsSameLedger host next =
    (next.node.chain.blocks ≡ host.node.chain.blocks)
    × (next.node.chain.state ≡ host.node.chain.state)

add_peer_address-chain :
    (net : NetEnv) (address : String) (node : Node)
    → (add_peer_address net address node).1.chain ≡ node.chain
unfolding add_peer_address
add_peer_address-chain net address node = ground arith

broadcast_transaction-chain :
    (now : ℕ) (tx : Transaction) (node : Node)
    → (broadcast_transaction now tx node).chain ≡ node.chain
unfolding broadcast_transaction broadcast mark_seen
broadcast_transaction-chain now tx node = ground arith

IsSameLedger-chain : (host next : Host) → next.node.chain ≡ host.node.chain → IsSameLedger host next
IsSameLedger-chain host next e =
    (ap (λ (c : Blockchain). c.blocks) e, ap (λ (c : Blockchain). c.state) e)

submit_transaction-ledger :
    (api : ApiEnv) (now : ℕ) (chain : Blockchain) (tx : Transaction) {next : Blockchain}
    → submit_transaction api.net.env now chain tx ≡ ok next
    → (next.blocks ≡ chain.blocks) × (next.state ≡ chain.state)
unfolding submit_transaction
submit_transaction-ledger api now chain tx h =
    let (pool, g1, h1) = >>=-eq-ok _ _ h in (ground arith, ground arith)

module _ (api : ApiEnv) (now : ℕ) (host : Host) where
  after_submitting-ledger :
      (tx : Transaction) (r : Result Refusal Blockchain)
      → submit_transaction api.net.env now host.node.chain tx ≡ r
      → IsSameLedger host (after_submitting now tx host r).1
  unfolding after_submitting
  after_submitting-ledger tx (err x) e = (refl, refl)
  after_submitting-ledger tx (ok chain) e =
      let (blocks, state) = submit_transaction-ledger api now host.node.chain tx e in
      let node : Node = record host.node { chain = chain } in
      elim (Bool-cases host.has_p2p) [
        | inl on ↦
            let k = broadcast_transaction-chain now tx node in (rw (on, k) blocks, rw (on, k) state)
        | inr off ↦ (rw off blocks, rw off state)
      ]

  after_adding-chain :
      (address : String) (r : Bool × Node)
      → r.1.chain ≡ host.node.chain
      → (after_adding api address host r).1.node.chain ≡ host.node.chain
  unfolding after_adding
  after_adding-chain address (true, node) e = connect-chain api.net address node ∙ e
  after_adding-chain address (false, node) e = e

  answer_add_peer-ledger :
      (given : Option String) → IsSameLedger host (answer_add_peer api given host).1
  unfolding answer_add_peer
  answer_add_peer-ledger none = elim (Bool-cases (not host.has_p2p)) [
    | inl off ↦ rw off (refl, refl)
    | inr on ↦ rw on (refl, refl)
  ]
  answer_add_peer-ledger (some address) = elim (Bool-cases (not host.has_p2p)) [
    | inl off ↦ rw off (refl, refl)
    | inr on ↦ rw on (
        IsSameLedger-chain host
          (after_adding api address host (add_peer_address api.net address host.node)).1
          (after_adding-chain address _ (add_peer_address-chain api.net address host.node)))
  ]

  answer_snapshot-ledger : (throws : Bool) → IsSameLedger host (answer_snapshot throws host).1
  unfolding answer_snapshot save
  answer_snapshot-ledger throws = (ground arith, ground arith)

  answer_command-ledger :
      (command : Command) → IsSameLedger host (answer_command api now host command).1
  unfolding answer_command
  answer_command-ledger (Command.build public_key payload fee) = (refl, refl)
  answer_command-ledger (Command.submit tx) = after_submitting-ledger tx _ refl
  answer_command-ledger (Command.add_peer given) = answer_add_peer-ledger given
  answer_command-ledger (Command.snapshot throws) = answer_snapshot-ledger throws
  answer_command-ledger (Command.new_wallet draws) = (refl, refl)

-- No request changes the blocks of the chain or its state, so none moves funds.
pub serve-IsSameLedger :
    (api : ApiEnv) (now : ℕ) (token : Option String) (request : Request) (host : Host)
    → IsSameLedger host (serve api now token request host).1
unfolding serve
serve-IsSameLedger api now token (Request.get query) host = (refl, refl)
serve-IsSameLedger api now token (Request.post command) host =
    elim (Bool-cases (passes_gate host.api_token token)) [
      | inl passes ↦ rw passes (answer_command-ledger api now host command)
      | inr fails ↦ rw fails (refl, refl)
    ]
serve-IsSameLedger api now token (Request.other is_get) host =
    elim (Bool-cases (if is_get then true else passes_gate host.api_token token)) [
      | inl passes ↦ rw passes (refl, refl)
      | inr fails ↦ rw fails (refl, refl)
    ]
