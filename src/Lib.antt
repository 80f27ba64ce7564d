-- ===== src/Lib.antt =====
-- Mineverse: a blockchain whose state machine keeps a coin, tokens with pools, escrow contracts, a
-- market for items, land, companies, and votes. This library models the program under src/ of the
-- repository; app.js and what it loads are the first version of the program, which is not modelled.
--
-- The parts, with the file of the repository and the module that models it:
--
-- - src/core/config.js: Config, the constants that the other modules read.
-- - src/core/ledger.js: Ledger. A function that writes to the state object returns the new state; one
--   that throws returns an error (Prelude.Results), and the caller loses the state, as every caller of
--   the source works on a clone. Ledger.Supply says which coin a call moves, Ledger.Fees and
--   Ledger.Swaps what fees and trades take.
-- - src/core/bank.js: Bank, with Bank.Contracts for the handlers of contracts.
-- - src/core/market.js, land.js, stocks.js: Market, Land, Stocks. The child modules named Supply, and
--   Stocks.Dividends, carry each handler's effect on the coin, those named Nonces its effect on the
--   nonces of accounts and on the votes, and those named Escrow its effect on what the bank holds for contracts.
-- - src/core/state.js: Records has the state and its parts, State.Core the handlers of the file, State
--   the table of handlers, applyTransaction, applyBlock and circulatingSupply. State.Conservation,
--   State.Replay, State.Spending, State.Escrowed, State.Votes and State.Ballots put the handlers'
--   effects together.
-- - src/core/transaction.js: Transaction has the payloads, one constructor for each type, and
--   Transaction.Fields and Transaction.Validate the checks; Transaction.Create is createTransaction.
-- - src/crypto/keys.js: Keys; the curve and SHA-256 are fields of a record that every user takes.
-- - src/util/hash.js: Hash, the Merkle root and the difficulty test.
-- - src/core/block.js: Block and Block.Validate.
-- - src/core/genesis.js: Genesis, the state of the genesis allocations, with Genesis.Allocated on their
--   sum, and Genesis.Load, the checks on the file and the genesis block.
-- - src/util/canonical.js: Canonical, the serialiser on values, with Canonical.Quote for JSON texts.
--   Serial has what is serialised: the signing payload of a transaction and the header of a block.
-- - src/core/mempool.js: Mempool, with Mempool.Select for the selection.
-- - src/core/blockchain.js: Blockchain, with Blockchain.Rules for difficulty, median time and context,
--   Blockchain.Building for buildCandidate and what it calls in block.js and transaction.js,
--   Blockchain.Mining for mineOnce, Blockchain.Storage for save and load, and Blockchain.View for the
--   accessors and summary.
-- - src/crypto/wallet.js, mnemonic.js: Wallet, with Wallet.Words for words and phrases.
-- - src/net/p2p.js: Network. The node is a record with its peers, its tables and the list of what it
--   has sent; Network.Events has what sockets and timers do to it as events, and a run is a list of
--   events with their times. Network.Peers, Network.Addresses and Network.Messages have the methods.
-- - src/api/server.js: Api. A request is a constructor with the parameters that its route reads, a
--   response a status with a value; Api.Reads has the GET routes, with Api.Views, Api.Lists and
--   Api.Quotes, and Api.Writes the POST routes and the token gate.
--
-- They work together as in the source: Blockchain validates a block (Block.Validate, Transaction),
-- checks its context (Blockchain.Rules), applies it (State, which calls the handlers of Ledger, Bank,
-- Market, Land and Stocks), and reconciles the Mempool. Env collects what the chain takes from
-- libraries and from the serialiser: the crypto functions, txHash, computeHash, blockSize and
-- stateRoot. Network holds a Blockchain and calls addBlock, replaceChain and submitTransaction on it;
-- Api holds a node of Network. A block that is added emits an event, on which the node broadcasts it.
--
-- Numbers are natural numbers. An addition that the source checks against Number.MAX_SAFE_INTEGER is
-- checked in the model; a product or a quotient that the source computes in doubles goes through the
-- rounding of doubles (Prelude.Number); BigInt arithmetic is exact. A subtraction that the source does
-- not guard is one that stops with an error of the model's own where it would go below 0. Coordinates
-- of chunks are integers (Prelude.Int). Objects used as tables are dictionaries with distinct keys in
-- the order of insertion (Dict), whose representation is private; inherited properties of JavaScript
-- objects, such as "constructor", are not in them. The field `height` of the state is stored as
-- `blocks_applied`, one more. Fields of transactions and blocks are typed, so the checks on their
-- JavaScript types are not modelled.
--
-- Loops are structural recursion, but for some on fuel: the levels of the Merkle tree, with the number
-- of hashes, which each level lowers; the run of a sender's nonces, with the number of the sender's
-- transactions, each of which serves one nonce; the scaling in the division of doubles, with 128
-- doublings, more than two numbers of 53 bits need; the decimal digits of an integer, with one more
-- than the integer, and those of a coordinate of a chunk, with 16; and the candidates of a key and the
-- tries of a mining slice, with the bounds of the source.
--
-- Env takes txHash and computeHash as functions that always return; Serial has them as the source
-- computes them, where the serialiser can throw. In the source txHash throws on a number that is not
-- finite in a field of the payload that no check reads, as a received text with 1e400 has it; addBlock,
-- replaceChain and the mempool catch that and refuse. A payload has the fields of its type here: fields beyond those, and the payload of an unknown type,
-- are not represented, and the latter is serialised as an empty object.
--
-- The work of a block and the integers that are serialised have no upper bound here; the engine throws
-- a RangeError where a BigInt has too many digits for it, as 1n << difficulty can have in the first
-- block of a chain that a peer sends, and replaceChain catches that and refuses the chain.
--
-- Not modelled: the size of a block's text and the root of the state, which are arguments; the command
-- line of node.js and client.js, and the scripts, which are input and output or call libraries;
-- sockets, timers, files and JSON texts around the modelled handlers; and the first version of the
-- program.
pub mod Prelude
pub mod Dict
pub mod Config
pub mod Records
pub mod Ledger
pub mod Bank
pub mod Market
pub mod Land
pub mod Stocks
pub mod Keys
pub mod Canonical
pub mod Transaction
pub mod Wallet
pub mod Block
pub mod State
pub mod Serial
pub mod Hash
pub mod Env
pub mod Mempool
pub mod Network
pub mod Genesis
pub mod Blockchain
pub mod Api
mod Tests
