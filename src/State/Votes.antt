-- ===== src/State/Votes.antt =====
-- Who has voted in a vote (`CREATE_VOTE` and `CAST_VOTE` of src/core/state.js).
use mineverse.Prelude.{
  ℕ, ◌+◌, ◌≤◌, String, Option, none, some, ◌≡◌, refl, arith, not, ◌&&◌, str_eq, eq_iff, fail_if,
  require, ok, >>=-eq-ok, if◌then◌else◌,
}
use mineverse.Dict
use mineverse.Dict.{Dict}
use mineverse.Records.{
  State, Vote, Choice, Context, already_voted, unknown_vote, vote_has_closed, vote_already_exists,
}
use mineverse.Bank.Contracts.{is_some}
use mineverse.Transaction.{Payload}
use mineverse.State.Core.{create_vote, cast_vote, count_vote}

-- 1 if the voter has voted in a vote.
abbrev pub voted_in : String → Vote → ℕ
voted_in voter v = if is_some (Dict.get v.voters voter) then 1 else 0

-- 1 if the voter has voted in the vote with an id.
pub voted : (voter id : String) → Dict Vote → ℕ
voted voter id votes = elim (Dict.get votes id) [ none ↦ 0 | some v ↦ voted_in voter v ]

-- 1 if a payload of a sender casts the vote of the voter in the vote with an id.
abbrev pub ballot : (voter id from : String) → Payload → ℕ
ballot voter id from (Payload.cast_vote vote_id choice) =
    if str_eq vote_id id && str_eq from voter then 1 else 0
ballot voter id from _ = 0

-- The tally does not touch the voters.
count_vote-voters : (choice : Choice) (v : Vote) → (count_vote choice v).voters ≡ v.voters
count_vote-voters Choice.yes_vote v = refl
count_vote-voters Choice.no_vote v = refl

module _ (voter id : String) where
  pub voted-le : (votes : Dict Vote) → voted voter id votes ≤ 1
  unfolding voted
  voted-le votes = ground arith

  pub voted-get :
      (votes : Dict Vote) (v : Vote)
      → Dict.get votes id ≡ some v
      → voted voter id votes ≡ voted_in voter v
  unfolding voted
  voted-get votes v e = ground arith

  pub voted-put :
      (votes : Dict Vote) (k : String) (v : Vote)
      → voted voter id (Dict.put votes k v)
        ≡ (if str_eq k id then voted_in voter v else voted voter id votes)
  unfolding voted
  voted-put votes k v = ground (arith, Dict.get-put votes k id v)

  module _ (from : String) (s : State) {t : State} where
    pub cast_vote-voted :
        (vote_id : String) (choice : Choice)
        → cast_vote vote_id choice from s ≡ ok t
        → voted voter id s.votes + ballot voter id from (Payload.cast_vote vote_id choice)
          ≤ voted voter id t.votes
    unfolding cast_vote voted
    cast_vote-voted vote_id choice h =
        let (v, e1, h1) = >>=-eq-ok (require (Dict.get s.votes vote_id) unknown_vote) _ h in
        let (u2, g2, h2) = >>=-eq-ok (fail_if (not v.running) vote_has_closed) _ h1 in
        let (u3, g3, h3) =
          >>=-eq-ok (fail_if (is_some (Dict.get v.voters from)) already_voted) _ h2 in
        let cast : Vote = record v { voters = Dict.put v.voters from choice } in
        ground (
          arith,
          Dict.get-put s.votes vote_id id (count_vote choice cast),
          Dict.get-put v.voters from voter choice,
          count_vote-voters choice cast,
          eq_iff vote_id id,
          eq_iff from voter,
        )

    pub create_vote-voted :
        (statement : String) (duration_ms : ℕ) (server_id : Option String) (hash : String)
        (ctx : Context)
        → create_vote statement duration_ms server_id hash ctx from s ≡ ok t
        → voted voter id s.votes ≤ voted voter id t.votes
    unfolding create_vote voted
    create_vote-voted statement duration_ms server_id hash ctx h =
        let (u1, g1, h1) =
          >>=-eq-ok (fail_if (is_some (Dict.get s.votes hash)) vote_already_exists) _ h in
        let (u2, g2, h2) = >>=-eq-ok _ _ h1 in grind (arith, Dict.get-put, eq_iff hash id)
