-- ===== src/Blockchain/Spending.antt =====
-- No transaction of a chain can enter it a second time.
use mineverse.Prelude.{List, [], ◌∷◌, ◌≡◌, ok, >>=-eq-ok, arith}
use mineverse.Records.{State}
use mineverse.Keys.{CryptoLib}
use mineverse.Block.{Block}
use mineverse.State.Replay.{Grows}
use mineverse.State.Spending.{
  body_of, AllSpent, AllSpent-Grows, apply_block-Spent, AllRefused, AllSpent-AllRefused,
}
use mineverse.Blockchain.{Blockchain}
use mineverse.Blockchain.History.{run_blocks, IsReplay}

module _ (lib : CryptoLib) where
  -- A statement about the bodies of all blocks.
  abbrev EachSpent : List Block → State → Type 0
  EachSpent [] s = Unit
  EachSpent (b ∷ blocks) s = AllSpent lib (body_of b.transactions) s × EachSpent blocks s

  abbrev pub EachRefused : List Block → State → Type 0
  EachRefused [] s = Unit
  EachRefused (b ∷ blocks) s = AllRefused lib (body_of b.transactions) s × EachRefused blocks s

  run_blocks-Spent :
      (s : State) (blocks : List Block) {t : State}
      → run_blocks lib s blocks ≡ ok t
      → EachSpent blocks t × Grows s t
  unfolding run_blocks
  run_blocks-Spent s [] h = (tt, λ who. ground arith)
  run_blocks-Spent s (b ∷ blocks) {t} h =
      let (r, e, h1) = >>=-eq-ok _ _ h in
      let (ws, g) = run_blocks-Spent r.0 blocks h1 in
      let (now, k) = apply_block-Spent lib s b e in
      (
        (AllSpent-Grows lib (body_of b.transactions) r.0 t now g, ws),
        λ who. omega (arith, g who, k who),
      )

  EachSpent-EachRefused :
      (blocks : List Block) (s : State) → EachSpent blocks s → EachRefused blocks s
  EachSpent-EachRefused [] s w = tt
  EachSpent-EachRefused (b ∷ blocks) s (w, ws) =
      (AllSpent-AllRefused lib (body_of b.transactions) s w, EachSpent-EachRefused blocks s ws)

  -- While the state is the replay of the blocks, no transaction in the body of a block after the
  -- first applies to it again, in whatever context: its nonce is refused.
  pub blocks-EachRefused :
      (chain : Blockchain) (w : IsReplay lib chain) → EachRefused w.rest chain.state
  blocks-EachRefused chain w =
      let (ws, g) = run_blocks-Spent _ w.rest w.state_eq in
      EachSpent-EachRefused w.rest chain.state ws
