-- ===== src/Vote.antt =====
-- domain/src/vote.ts: votes and their validation.
pub mod Validation
use approvio.Base.{ℕ, String, Option, List}
use approvio.Entity.{EntityRef}

-- The `type` of a vote with what only that type carries: the three interfaces `ApproveVote`,
-- `VetoVote` and `WithdrawVote`.
pub data Ballot : Type 0 where
  approve : List String → Ballot
  veto : Ballot
  withdraw : Ballot

-- `Vote`; an instant is a number of milliseconds
pub record Vote : Type 0 where
  pub id : String
  pub workflow_id : String
  pub voter : EntityRef
  pub reason : Option String
  pub casted_at : ℕ
  pub ballot : Ballot
