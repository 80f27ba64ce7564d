-- ===== src/Blockchain/Ballots.antt =====
-- One vote for each address on a whole chain (`CAST_VOTE` of src/core/state.js, in the blocks of
-- src/core/blockchain.js).
use mineverse.Prelude.{ℕ, ◌+◌, ◌≤◌, String, List, [], ◌∷◌, ◌≡◌, ok, >>=-eq-ok, arith}
use mineverse.Records.{State}
use mineverse.Keys.{CryptoLib}
use mineverse.Block.{Block}
use mineverse.State.Spending.{body_of}
use mineverse.State.Votes.{voted, voted-le}
use mineverse.State.Ballots.{ballots, apply_block-voted}
use mineverse.Blockchain.{Blockchain}
use mineverse.Blockchain.History.{run_blocks, IsReplay}

module _ (lib : CryptoLib) (voter id : String) where
  -- How many transactions in the bodies of the blocks cast the vote of the voter in the vote.
  unfoldable pub ballots_in : List Block → ℕ
  unfolding ballots
  ballots_in [] = 0
  ballots_in (b ∷ blocks) = ballots lib voter id (body_of b.transactions) + ballots_in blocks

  run_blocks-voted :
      (s : State) (blocks : List Block) {t : State}
      → run_blocks lib s blocks ≡ ok t
      → voted voter id s.votes + ballots_in blocks ≤ voted voter id t.votes
  unfolding run_blocks ballots_in
  run_blocks-voted s [] h = ground arith
  run_blocks-voted s (b ∷ blocks) h =
      let (r, e, h1) = >>=-eq-ok _ _ h in
      omega (arith, apply_block-voted lib voter id s b e, run_blocks-voted r.0 blocks h1)

  -- While the state is the replay of the blocks, no address votes twice in a vote: the bodies of the
  -- blocks after the first hold at most one transaction that casts a vote of the address in the vote.
  pub ballots_in-IsReplay : (chain : Blockchain) (w : IsReplay lib chain) → ballots_in w.rest ≤ 1
  ballots_in-IsReplay chain w =
      omega (arith, run_blocks-voted _ w.rest w.state_eq, voted-le voter id chain.state.votes)
