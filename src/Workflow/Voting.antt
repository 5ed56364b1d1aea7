-- ===== src/Workflow/Voting.antt =====
-- domain/src/workflows.ts, `canVoteOnWorkflow`: who may vote on a workflow, and when.
use approvio.Base.{
  ℕ, ◌≤◌, String, Option, Bool, true, false, List, ◌≡◌, arith, ltb, if◌then◌else◌, ◌↔◌, ap, ◌≢◌,
}
use approvio.Base.Result.{Result, left, right, map_left}
use approvio.Role.{BoundRole}
use approvio.Template.{Template, GroupMembership, CantVote, can_vote}
use approvio.Template.Voting.{MayVote, can_vote_iff}
use approvio.Workflow.{
  Workflow, Status, approved, canceled, expired, rejected, evaluation_in_progress, is_terminal,
}

-- `CantVoteReason | "inconsistent_memberships"`
pub data WorkflowCantVote : Type 0 where
  workflow_already_approved workflow_cancelled workflow_expired invalid_terminal_status :
      WorkflowCantVote
  by_template : CantVote → WorkflowCantVote

-- `generateCantVoteReasonForTerminalStatus`; for a status that is not terminal the source throws
unfoldable pub reason_for_terminal_status : Status → WorkflowCantVote
reason_for_terminal_status approved = workflow_already_approved
reason_for_terminal_status canceled = workflow_cancelled
reason_for_terminal_status expired = workflow_expired
reason_for_terminal_status _ = invalid_terminal_status

-- `canVoteOnWorkflow`, at the instant `now`
unfoldable pub can_vote_on_workflow :
    ℕ
    → Workflow
    → Template
    → List GroupMembership
    → List BoundRole
    → Option (List String)
    → Result WorkflowCantVote Bool
unfolding reason_for_terminal_status is_terminal
can_vote_on_workflow now w t memberships roles groups =
    if is_terminal w.status
    then left (reason_for_terminal_status w.status)
    else if ltb w.expires_at now
    then left workflow_expired
    else map_left by_template (can_vote t memberships roles groups)

passes_on : (r : Result CantVote Bool) (b : Bool) → map_left by_template r ≡ right b → r ≡ right b
passes_on (left e) b h = cc
passes_on (right c) b h = ap right (right_inj h)
  where
    right_inj : map_left by_template (right c) ≡ right b → c ≡ b
    right_inj h = cc

never_invalid :
    (s : Status) → is_terminal s ≡ true → reason_for_terminal_status s ≢ invalid_terminal_status
unfolding is_terminal reason_for_terminal_status
never_invalid approved e h = cc
never_invalid canceled e h = cc
never_invalid expired e h = cc
never_invalid rejected e h = cc
never_invalid evaluation_in_progress e h = cc

template_never_invalid :
    (r : Result CantVote Bool) → map_left by_template r ≢ left invalid_terminal_status
template_never_invalid (left e) h = cc
template_never_invalid (right c) h = cc

-- An entity may vote on a workflow exactly when it is neither approved, canceled nor expired, its
-- time has not run out, and its template lets the entity vote; in particular a rejected workflow
-- still takes votes. The exception for other terminal statuses is never reached.
pub can_vote_on_workflow_iff :
    (now : ℕ) (w : Workflow) (t : Template) (ms : List GroupMembership) (roles : List BoundRole)
    (groups : Option (List String))
    → (((b : Bool) × (can_vote_on_workflow now w t ms roles groups ≡ right b))
        ↔ ((is_terminal w.status ≡ false) × (now ≤ w.expires_at) × MayVote t ms roles))
      × (can_vote_on_workflow now w t ms roles groups ≢ left invalid_terminal_status)
unfolding can_vote_on_workflow
can_vote_on_workflow_iff now w t ms roles groups = (
  (
    (λ h.
        let (b, e) = h in
        let active : is_terminal w.status ≡ false = ground (arith, e) in
        let in_time : now ≤ w.expires_at = ground (arith, e) in
        let passed : map_left by_template (can_vote t ms roles groups) ≡ right b =
          ground (arith, e) in
        (
          active,
          in_time,
          (can_vote_iff t ms roles groups).0 (b, passes_on (can_vote t ms roles groups) b passed),
        )),
    λ h.
        let (active, in_time, may) = h in
        let (b, e) = (can_vote_iff t ms roles groups).1 may in (b, ground (arith, e)),
  ),
  λ h. ground (arith, never_invalid w.status, template_never_invalid (can_vote t ms roles groups)),
)
