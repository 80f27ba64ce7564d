-- ===== src/Blockchain/Index.antt =====
-- The index of transactions points where it says.
use mineverse.Prelude.{
  ℕ, zero, suc, ◌+◌, String, some, List, [], ◌∷◌, ◌++◌, ◌≡◌, refl, sym, ap, ◌∙◌, arith, length,
  length-append, get_elem?, ok, >>=-eq-ok, inl, inr, str_eq, eq_iff, Bool-cases,
}
use mathlib.Core.Path.{subst}
use mineverse.Dict
use mineverse.Dict.{Dict}
use mineverse.Transaction.{Transaction}
use mineverse.Block.{Block}
use mineverse.Env.{Env}
use mineverse.Genesis.{Genesis}
use mineverse.Blockchain.{
  Blockchain, Located, Replay, new_blockchain, index_transactions, replay_block, replay_from,
  validate_chain, add_block, replace_chain, submit_transaction,
}
use mineverse.Blockchain.Rules.{check_context}

-- A transaction with the hash stands at the place.
pub record Stands (blocks : List Block) (hash : String) (at : Located) : Type 0 where
  pub block : Block
  pub tx : Transaction
  pub block_eq : get_elem? blocks at.0 ≡ some block
  pub tx_eq : get_elem? block.transactions at.1 ≡ some tx
  pub hash_eq : tx.hash ≡ hash

-- Every entry of an index points to a transaction with its hash.
abbrev pub PointsInto : List Block → Dict Located → Type 0
PointsInto blocks index =
    (hash : String) (at : Located) → Dict.get index hash ≡ some at → Stands blocks hash at

get_elem-append {ℓ} :
    {A : Type ℓ} (xs ys : List A) (i : ℕ) {a : A}
    → get_elem? xs i ≡ some a
    → get_elem? (xs ++ ys) i ≡ some a
get_elem-append [] ys i h = cc
get_elem-append (x ∷ xs) ys zero h = h
get_elem-append (x ∷ xs) ys (suc i) h = get_elem-append xs ys i h

get_elem-length {ℓ} :
    {A : Type ℓ} (xs ys : List A) (a : A) → get_elem? (xs ++ a ∷ ys) (length xs) ≡ some a
get_elem-length [] ys a = refl
get_elem-length (x ∷ xs) ys a = get_elem-length xs ys a

Stands-append :
    (blocks more : List Block) (hash : String) (at : Located)
    → Stands blocks hash at
    → Stands (blocks ++ more) hash at
Stands-append blocks more hash at s = record {
  block = s.block;
  tx = s.tx;
  block_eq = get_elem-append blocks more at.0 s.block_eq;
  tx_eq = s.tx_eq;
  hash_eq = s.hash_eq;
}

append_snoc {ℓ} :
    {A : Type ℓ} (xs : List A) (y : A) (ys : List A) → xs ++ y ∷ ys ≡ (xs ++ y ∷ []) ++ ys
append_snoc [] y ys = refl
append_snoc (x ∷ xs) y ys = ap (λ l. x ∷ l) (append_snoc xs y ys)

put-PointsInto :
    (blocks : List Block) (index : Dict Located) (hash : String) (at : Located)
    → Stands blocks hash at
    → PointsInto blocks index
    → PointsInto blocks (Dict.put index hash at)
put-PointsInto blocks index hash at s w other place h =
    let put = sym (Dict.get-put index hash other at) ∙ h in
    elim (Bool-cases (str_eq hash other)) [
      | inl same ↦
          let e : at ≡ place = ground arith in
          subst (λ k. Stands blocks k place) ((eq_iff _ _).0 same)
            (subst (λ p. Stands blocks hash p) e s)
      | inr differs ↦ w other place (ground arith)
    ]

-- Indexing the rest of a block's transactions, from a position on.
index_transactions-PointsInto :
    (blocks : List Block) (block : Block) (i : ℕ) (before txs : List Transaction)
    (index : Dict Located)
    → get_elem? blocks i ≡ some block
    → block.transactions ≡ before ++ txs
    → PointsInto blocks index
    → PointsInto blocks (index_transactions i (length before) txs index)
unfolding index_transactions
index_transactions-PointsInto blocks block i before [] index e k w = w
index_transactions-PointsInto blocks block i before (tx ∷ txs) index e k w =
    let at : Located = (i, length before) in
    let s : Stands blocks tx.hash at = record {
      block = block;
      tx = tx;
      block_eq = e;
      tx_eq = rw k (get_elem-length before txs tx);
      hash_eq = refl;
    } in
    subst (λ n. PointsInto blocks (index_transactions i n txs (Dict.put index tx.hash at)))
      (length-append before (tx ∷ []))
      (index_transactions-PointsInto blocks block i (before ++ tx ∷ []) txs _ e
        (k ∙ append_snoc before tx txs) (put-PointsInto blocks index tx.hash at s w))

empty-PointsInto : (blocks : List Block) → PointsInto blocks Dict.empty
empty-PointsInto blocks hash at h =
    let e = sym (Dict.get-empty {V = Located} hash) ∙ h in ground arith

PointsInto-eq :
    (blocks more : List Block) (index other : Dict Located)
    → blocks ≡ more
    → index ≡ other
    → PointsInto blocks index
    → PointsInto more other
PointsInto-eq blocks more index other e k w =
    subst (λ i. PointsInto more i) k (subst (λ b. PointsInto b index) e w)

module _ (env : Env) (now difficulty : ℕ) where
  replay_block-tx_index :
      (blocks : List Block) (i : ℕ) (b : Block) (r : Replay) {r' : Replay}
      → replay_block env now difficulty blocks i b r ≡ ok r'
      → r'.tx_index ≡ index_transactions i 0 b.transactions r.tx_index
  unfolding replay_block
  replay_block-tx_index blocks i b r h =
      let (u1, g1, h1) = >>=-eq-ok _ _ h in
      let (u2, g2, h2) = >>=-eq-ok _ _ h1 in
      let (seen, g3, h3) = >>=-eq-ok _ _ h2 in let (o, e, h4) = >>=-eq-ok _ _ h3 in ground arith

  -- The loop of a replay indexes the blocks that it comes past.
  replay_from-PointsInto :
      (blocks : List Block) (i : ℕ) (rest : List Block) (r : Replay) {r' : Replay}
      → replay_from env now difficulty blocks i rest r ≡ ok r'
      → ((j : ℕ) → get_elem? blocks (i + j) ≡ get_elem? rest j)
      → PointsInto blocks r.tx_index
      → PointsInto blocks r'.tx_index
  unfolding replay_from
  replay_from-PointsInto blocks i [] r {r'} h places w =
      PointsInto-eq blocks blocks r.tx_index r'.tx_index refl (ground arith) w
  replay_from-PointsInto blocks i (b ∷ bs) r h places w =
      let (r1, g1, h1) = >>=-eq-ok _ _ h in
      replay_from-PointsInto blocks (i + 1) bs r1 h1
        (λ j. let e : i + 1 + j ≡ i + suc j = omega arith in rw e (places (suc j)))
        (PointsInto-eq blocks blocks (index_transactions i 0 b.transactions r.tx_index) r1.tx_index
          refl (sym (replay_block-tx_index blocks i b r g1))
          (index_transactions-PointsInto blocks b i [] b.transactions r.tx_index
            (subst (λ n. get_elem? blocks n ≡ some b) (let e : i + 0 ≡ i = omega arith in e)
              (places 0))
            refl w))

check_context-index :
    (genesis_difficulty : ℕ) (b : Block) (blocks : List Block) (i now : ℕ) {u : Unit {0}}
    → check_context genesis_difficulty b blocks i now ≡ ok u
    → b.index ≡ i
unfolding check_context
check_context-index genesis_difficulty b blocks i now h =
    let (u1, g1, h1) = >>=-eq-ok _ _ h in
    let (prev, g2, h2) = >>=-eq-ok _ _ h1 in let (u3, g3, h3) = >>=-eq-ok _ _ h2 in ground arith

-- What `txIndex` of a chain must satisfy.
abbrev pub IsIndexed : Blockchain → Type 0
IsIndexed chain = PointsInto chain.blocks chain.tx_index

pub new_blockchain-IsIndexed :
    (genesis : Genesis) (b : Block) → IsIndexed (new_blockchain genesis b)
unfolding new_blockchain
new_blockchain-IsIndexed genesis b = empty-PointsInto (b ∷ [])

module _ (env : Env) (now : ℕ) where
  pub add_block-IsIndexed :
      (chain : Blockchain) (b : Block) {next : Blockchain}
      → IsIndexed chain
      → add_block env now chain b ≡ ok next
      → IsIndexed next
  unfolding add_block
  add_block-IsIndexed chain b {next} w h =
      let (u1, g1, h1) = >>=-eq-ok _ _ h in
      let (u2, g2, h2) = >>=-eq-ok _ _ h1 in
      let (u3, g3, h3) = >>=-eq-ok _ _ h2 in
      let (u4, g4, h4) = >>=-eq-ok _ _ h3 in
      let (o, e, h5) = >>=-eq-ok _ _ h4 in
      let k =
        check_context-index chain.genesis.difficulty b chain.blocks (length chain.blocks) now g3 in
      let at : get_elem? (chain.blocks ++ b ∷ []) b.index ≡ some b =
        subst (λ n. get_elem? (chain.blocks ++ b ∷ []) n ≡ some b) (sym k)
          (get_elem-length chain.blocks [] b) in
      PointsInto-eq (chain.blocks ++ b ∷ []) next.blocks
        (index_transactions b.index 0 b.transactions chain.tx_index) next.tx_index (ground arith)
        (ground arith)
        (index_transactions-PointsInto (chain.blocks ++ b ∷ []) b b.index [] b.transactions
          chain.tx_index at refl
          (λ hash place t. Stands-append chain.blocks (b ∷ []) hash place (w hash place t)))

  validate_chain-PointsInto :
      (chain : Blockchain) (blocks : List Block) {r : Replay}
      → validate_chain env now chain blocks ≡ ok r
      → PointsInto blocks r.tx_index
  unfolding validate_chain
  validate_chain-PointsInto chain [] h = cc
  validate_chain-PointsInto chain (first ∷ rest) h =
      let (u1, g1, h1) = >>=-eq-ok _ _ h in
      replay_from-PointsInto env now chain.genesis.difficulty (first ∷ rest) 1 rest _ h1
        (λ j. let e : 1 + j ≡ suc j = omega arith in rw e refl) (empty-PointsInto (first ∷ rest))

  pub replace_chain-IsIndexed :
      (chain : Blockchain) (candidate : List Block) {next : Blockchain}
      → replace_chain env now chain candidate ≡ ok next
      → IsIndexed next
  unfolding replace_chain
  replace_chain-IsIndexed chain candidate {next} h =
      let (u1, g1, h1) = >>=-eq-ok _ _ h in
      let (r, g2, h2) = >>=-eq-ok _ _ h1 in
      PointsInto-eq candidate next.blocks r.tx_index next.tx_index (ground arith) (ground arith)
        (validate_chain-PointsInto chain candidate g2)

  pub submit_transaction-IsIndexed :
      (chain : Blockchain) (tx : Transaction) {next : Blockchain}
      → IsIndexed chain
      → submit_transaction env now chain tx ≡ ok next
      → IsIndexed next
  unfolding submit_transaction
  submit_transaction-IsIndexed chain tx {next} w h =
      let (pool, g1, h1) = >>=-eq-ok _ _ h in
      PointsInto-eq chain.blocks next.blocks chain.tx_index next.tx_index (ground arith)
        (ground arith) w
