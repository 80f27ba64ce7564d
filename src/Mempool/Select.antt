-- ===== src/Mempool/Select.antt =====
-- `selectForBlock` of src/core/mempool.js.
use mineverse.Prelude.{
  ℕ, zero, suc, ◌+◌, String, Option, none, some, List, [], ◌∷◌, ◌++◌, ltb, leb, ◌==◌, length,
  str_eq, if◌then◌else◌,
}
use mineverse.Dict
use mineverse.Dict.{Dict}
use mineverse.Records.{State}
use mineverse.Ledger.{get_account}
use mineverse.Transaction.{Transaction}

-- `bySender`: a transaction joins the group of its sender, or starts one at the end.
unfoldable pub join_group :
    String → Transaction → List (String × List Transaction) → List (String × List Transaction)
join_group from tx [] = (from, tx ∷ []) ∷ []
join_group from tx ((sender, txs) ∷ groups) =
    if str_eq sender from
    then (sender, txs ++ tx ∷ []) ∷ groups
    else (sender, txs) ∷ join_group from tx groups

module _ (sender : Transaction → String) where
  unfoldable pub group_from :
      List (String × List Transaction) → List Transaction → List (String × List Transaction)
  unfolding join_group
  group_from groups [] = groups
  group_from groups (tx ∷ txs) = group_from (join_group (sender tx) tx groups) txs

-- `!incumbent || tx.fee > incumbent.fee`
unfoldable pub better : Option Transaction → Transaction → Transaction
better none tx = tx
better (some old) tx = if ltb old.fee tx.fee then tx else old

-- `best.get(nonce)`: of the transactions with a nonce, the first of those with the highest fee.
unfoldable pub best_at : ℕ → Option Transaction → List Transaction → Option Transaction
unfolding better
best_at nonce best [] = best
best_at nonce best (tx ∷ txs) =
    best_at nonce (if tx.nonce == nonce then some (better best tx) else best) txs

-- The run of consecutive nonces. Each round takes a transaction with a nonce of its own, so the
-- number of transactions is fuel enough.
unfoldable pub run_from : ℕ → ℕ → List Transaction → List Transaction
unfolding best_at
run_from zero expected txs = []
run_from (suc fuel) expected txs = elim (best_at expected none txs) [
  | none ↦ []
  | some tx ↦ tx ∷ run_from fuel (expected + 1) txs
]

-- The runs of all senders, the empty ones left out.
unfoldable pub runs_of : State → List (String × List Transaction) → List (List Transaction)
unfolding run_from
runs_of s [] = []
runs_of s ((from, txs) ∷ groups) =
    let rest = runs_of s groups in
    elim (run_from (length txs) (get_account s from).nonce txs) [
      | [] ↦ rest
      | tx ∷ run ↦ (tx ∷ run) ∷ rest
    ]

abbrev first_fee : List Transaction → ℕ
first_fee [] = 0
first_fee (tx ∷ txs) = tx.fee

-- `runs.sort((a, b) => b[0].fee - a[0].fee)`, which is stable.
unfoldable pub insert_run : List Transaction → List (List Transaction) → List (List Transaction)
insert_run run [] = run ∷ []
insert_run run (other ∷ runs) =
    if leb (first_fee other) (first_fee run)
    then run ∷ other ∷ runs
    else other ∷ insert_run run runs

unfoldable pub sort_runs : List (List Transaction) → List (List Transaction)
unfolding insert_run
sort_runs [] = []
sort_runs (run ∷ runs) = insert_run run (sort_runs runs)

-- The first `limit` transactions of the runs.
unfoldable pub take_upto : ℕ → List Transaction → List Transaction
take_upto zero txs = []
take_upto (suc n) [] = []
take_upto (suc n) (tx ∷ txs) = tx ∷ take_upto n txs

abbrev pub concat : List (List Transaction) → List Transaction
concat [] = []
concat (run ∷ runs) = run ++ concat runs

unfoldable pub select_for_block :
    (Transaction → String) → State → ℕ → Dict Transaction → List Transaction
unfolding group_from runs_of sort_runs take_upto
select_for_block sender s limit txs =
    take_upto limit (concat (sort_runs (runs_of s (group_from sender [] (Dict.values txs)))))
