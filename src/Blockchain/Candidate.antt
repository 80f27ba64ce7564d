-- ===== src/Blockchain/Candidate.antt =====
-- The candidate that `buildCandidate` assembles, against the state machine.
use mineverse.Prelude.{
  ◌-◌, List, [], ◌∷◌, ◌++◌, ◌≡◌, refl, arith, ok, inl, inr, Result-cases, ◌>>=◌, >>=-eq-ok,
}
use mineverse.Records.{State, Context, Receipt}
use mineverse.Keys.{CryptoLib}
use mineverse.Transaction.{Transaction}
use mineverse.Config.{max_txs_per_block}
use mineverse.Mempool.{sender_text}
use mineverse.Mempool.Select.{select_for_block}
use mineverse.State.{apply_transaction, apply_all}
use mineverse.Env.{Env}
use mineverse.Blockchain.{Blockchain, Trial, try_transaction, try_all, assemble}

-- The transactions apply one after the other, from one state to the other.
abbrev Applies : CryptoLib → Context → State → List Transaction → State → Type 0
Applies lib ctx s txs t = (rs : List Receipt) × (apply_all lib txs ctx s [] ≡ ok (t, rs))

apply_all-snoc :
    (lib : CryptoLib) (ctx : Context) (s : State) (txs : List Transaction) (tx : Transaction)
    (before : List Receipt) {t u : State} {r1 r2 : List Receipt}
    → apply_all lib txs ctx s before ≡ ok (t, r1)
    → apply_transaction lib tx ctx t ≡ ok (u, r2)
    → apply_all lib (txs ++ tx ∷ []) ctx s before ≡ ok (u, r1 ++ r2)
unfolding apply_all ◌>>=◌
apply_all-snoc lib ctx s [] tx before h k = ground arith
apply_all-snoc lib ctx s (first ∷ txs) tx before h k =
    let (r, e, h1) = >>=-eq-ok (apply_transaction lib first ctx s) _ h in
    rw e (apply_all-snoc lib ctx r.0 txs tx (before ++ r.1) h1 k)

module _ (env : Env) (ctx : Context) (s : State) where
  try_transaction-Applies :
      (tx : Transaction) (r : Trial)
      → Applies env.lib ctx s r.accepted r.working
      → Applies env.lib ctx s
          (try_transaction env ctx tx r).accepted
          (try_transaction env ctx tx r).working
  unfolding try_transaction
  try_transaction-Applies tx r (rs, h) =
      elim (Result-cases (apply_transaction env.lib tx ctx r.working)) [
        | inl (o, e) ↦
            let k = apply_all-snoc env.lib ctx s r.accepted tx [] h e in (rs ++ o.1, ground arith)
        | inr (x, e) ↦ (rs, ground arith)
      ]

  try_all-Applies :
      (txs : List Transaction) (r : Trial)
      → Applies env.lib ctx s r.accepted r.working
      → Applies env.lib ctx s (try_all env ctx txs r).accepted (try_all env ctx txs r).working
  unfolding try_all
  try_all-Applies [] r h = h
  try_all-Applies (tx ∷ txs) r h = try_all-Applies txs _ (try_transaction-Applies tx r h)

-- The transactions of a candidate apply one after the other to the state of the chain, in the
-- candidate's own context, and come to the working state.
pub assemble-applies :
    (env : Env) (ctx : Context) (chain : Blockchain)
    → (rs : List Receipt) × (apply_all env.lib (assemble env ctx chain).accepted ctx chain.state []
        ≡ ok ((assemble env ctx chain).working, rs))
unfolding assemble apply_all
assemble-applies env ctx chain =
    try_all-Applies env ctx chain.state
      (select_for_block (sender_text env.lib) chain.state (max_txs_per_block - 1) chain.mempool.txs)
      (record { accepted = []; working = chain.state; pool = chain.mempool }) ([], refl)
