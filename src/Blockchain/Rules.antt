-- ===== src/Blockchain/Rules.antt =====
-- The consensus rules of src/core/blockchain.js: difficulty, median time, a block in its chain.
use mineverse.Prelude.{
  ℕ, zero, suc, ◌+◌, ◌-◌, ◌*◌, ◌/◌, ◌%◌, max, min, Option, none, some, List, [], ◌∷◌, map, ltb, leb,
  ◌==◌, not, length, get_elem?, str_eq, if◌then◌else◌, Result, ◌>>=◌, ◌>>◌, fail_if, require,
}
use mineverse.Config.{
  min_difficulty, max_difficulty, difficulty_adjust_interval, target_block_time_ms,
  median_time_blocks, max_future_drift_ms,
}
use mineverse.Records.{StateError}
use mineverse.Block.{Block}
use mineverse.Block.Validate.{BlockError}
use mineverse.Hash.{meets_difficulty}

pub data ChainError : Type 0 where
  no_parent index_mismatch prev_hash_mismatch unexpected_difficulty insufficient_work : ChainError
  not_after_median_time too_far_in_the_future tx_replayed empty_chain different_genesis : ChainError
  already_known no_more_work unreadable : ChainError
  bad_block : BlockError → ChainError
  bad_state : StateError → ChainError

-- One bit up, down or none, by the time that the last window took.
unfoldable pub retarget : Block → Block → ℕ
retarget window_start prev =
    let expected = difficulty_adjust_interval * target_block_time_ms in
    let actual = prev.timestamp - window_start.timestamp in
    let next =
      if leb prev.timestamp window_start.timestamp
      then prev.difficulty + 1
      else if ltb (2 * actual) expected
      then prev.difficulty + 1
      else if ltb (expected * 2) actual
      then prev.difficulty - 1
      else prev.difficulty in
    min max_difficulty (max min_difficulty next)

-- `expectedDifficulty`; none where the block before `index` is missing, which throws.
unfoldable pub expected_difficulty : List Block → ℕ → ℕ → Option ℕ
unfolding retarget
expected_difficulty blocks index genesis_difficulty =
    if index == 0 then some genesis_difficulty else elim (get_elem? blocks (index - 1)) [
      | none ↦ none
      | some prev ↦ some (
          if not (index % difficulty_adjust_interval == 0)
          then prev.difficulty
          else if index == difficulty_adjust_interval
          then prev.difficulty
          else elim (get_elem? blocks (index - difficulty_adjust_interval)) [
            | none ↦ prev.difficulty
            | some window_start ↦ retarget window_start prev
          ])
    ]

unfoldable pub insert_number : ℕ → List ℕ → List ℕ
insert_number n [] = n ∷ []
insert_number n (m ∷ ms) = if leb n m then n ∷ m ∷ ms else m ∷ insert_number n ms

unfoldable pub sort_numbers : List ℕ → List ℕ
unfolding insert_number
sort_numbers [] = []
sort_numbers (n ∷ ns) = insert_number n (sort_numbers ns)

-- `blocks.slice(start, start + count)`
unfoldable pub slice : ℕ → ℕ → List Block → List Block
slice start zero blocks = []
slice start (suc count) [] = []
slice zero (suc count) (b ∷ blocks) = b ∷ slice zero count blocks
slice (suc start) (suc count) (b ∷ blocks) = slice start (suc count) blocks

abbrev or_zero : Option ℕ → ℕ
or_zero none = 0
or_zero (some n) = n

-- The middle of a sorted window; an empty window has none, and counts as 0.
unfoldable pub median : List ℕ → ℕ
unfolding sort_numbers
median window = or_zero (get_elem? (sort_numbers window) (length window / 2))

unfoldable pub median_time_past : List Block → ℕ → ℕ
unfolding slice median
median_time_past blocks index =
    let start = index - median_time_blocks in
    median (map (λ (b : Block). b.timestamp) (slice start (index - start) blocks))

-- `checkContext`
unfoldable pub check_context : ℕ → Block → List Block → ℕ → ℕ → Result ChainError (Unit {0})
unfolding expected_difficulty median_time_past
check_context genesis_difficulty block blocks index now = do
  fail_if (index == 0) no_parent
  prev ← require (get_elem? blocks (index - 1)) no_parent
  fail_if (not (block.index == index)) index_mismatch
  fail_if (not (str_eq block.prev_hash prev.hash)) prev_hash_mismatch
  expected ← require (expected_difficulty blocks index genesis_difficulty) no_parent
  fail_if (not (block.difficulty == expected)) unexpected_difficulty
  fail_if (not (meets_difficulty block.hash expected)) insufficient_work
  fail_if (leb block.timestamp (median_time_past blocks index)) not_after_median_time
  fail_if (ltb (now + max_future_drift_ms) block.timestamp) too_far_in_the_future
