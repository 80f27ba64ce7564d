-- ===== src/Blockchain/Retarget.antt =====
-- The bounds of the difficulty.
use mineverse.Prelude.{ℕ, ◌+◌, ◌-◌, ◌≤◌, some, List, ◌≡◌, arith, get_elem?, Option-cases, inl, inr}
use mineverse.Config.{min_difficulty, max_difficulty, difficulty_adjust_interval}
use mineverse.Block.{Block}
use mineverse.Blockchain.Rules.{retarget, expected_difficulty}

-- The difficulty is in the range of the configuration.
abbrev pub IsAllowed : ℕ → Type 0
IsAllowed d = (min_difficulty ≤ d) × (d ≤ max_difficulty)

retarget-near :
    (window_start prev : Block)
    → IsAllowed prev.difficulty
    → IsAllowed (retarget window_start prev)
      × (retarget window_start prev ≤ prev.difficulty + 1)
      × (prev.difficulty ≤ retarget window_start prev + 1)
unfolding retarget
retarget-near window_start prev h = ground arith

-- Where the difficulty of the block before is allowed, the one expected next is allowed too, and
-- at most one bit away, whatever the timestamps.
pub expected_difficulty-near :
    (blocks : List Block) (index genesis_difficulty : ℕ) (prev : Block) {next : ℕ}
    → get_elem? blocks index ≡ some prev
    → IsAllowed prev.difficulty
    → expected_difficulty blocks (index + 1) genesis_difficulty ≡ some next
    → IsAllowed next × (next ≤ prev.difficulty + 1) × (prev.difficulty ≤ next + 1)
unfolding expected_difficulty
expected_difficulty-near blocks index genesis_difficulty prev e h k =
    let same : index + 1 - 1 ≡ index = omega arith in
    let here : get_elem? blocks (index + 1 - 1) ≡ some prev = rw same e in
    elim (Option-cases (get_elem? blocks (index + 1 - difficulty_adjust_interval))) [
      | inl none_there ↦ ground arith
      | inr (start, there) ↦ ground (arith, retarget-near start prev h)
    ]
