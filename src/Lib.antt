-- ===== src/Lib.antt =====
-- Verification library of approvio, a service in which workflows are approved by votes: the domain
-- layer of the TypeScript program under app/domain/src, the services, tables and handlers that its
-- core goes through (app/services/src, app/external/src/database, app/worker/src), and what they use
-- of app/utils/src.
--
-- How the parts interact: a workflow template carries an approval rule over groups and says who may
-- vote (Template); a vote (Vote) is cast by a user or an agent (Entity) on a workflow (Workflow);
-- the evaluation plays all votes of a workflow in the order of their instants (Workflow.Timeline),
-- keeps a tally (Workflow.Tally), and stops at the first moment at which nobody vetoes and the votes
-- cover the rule (Workflow.Evaluation). Roles (Role) decide who may do what, groups have members
-- (Membership), refresh tokens keep sessions alive (RefreshToken), and quotas (Quota) are set on the
-- kinds of resources and what is above them (Hierarchy). A vote is cast through a service
-- (VoteService) that checks all this, and is stored together with a mark on its workflow (Store); a
-- background worker evaluates marked workflows (Recalculation), while votes, cancellations
-- (Cancellation) and sweeps go on. Workers carry out the actions of a workflow as tasks (Task),
-- under a lock.
--
-- Which file models which part:
--   Base          fp-ts Either with do blocks (Base.Result), Map and Set in insertion order
--                 (Base.Dict, Base.Sets), text as code points (Base.Text), tests, lists, integers
--   Uuid, Json    app/utils/src/validation.ts: isUUIDv7, and raw values as the factories get them
--   Entity        app/domain/src/authenticated-entity.ts: EntityReference, getNormalizedEntityId;
--                 Entity.Authenticated has who makes a request
--   Vote          app/domain/src/vote.ts: Vote.Validation has VoteFactory
--   Rule          app/domain/src/approval-rules.ts: covers is doesVotesCoverApprovalRules;
--                 Rule.Validation is ApprovalRuleFactory, Rule.Privilege isHighPrivilegeRequired
--   Workflow      app/domain/src/workflows.ts: Validation is WorkflowFactory; Timeline, Tally and
--                 Evaluation are the three steps of evaluateWorkflowStatus; Voting is
--                 canVoteOnWorkflow
--   Role          app/domain/src/role.ts, and app/domain/src/permission-checker.ts in
--                 Role.Permission; Role.Assigned has two tests of app/domain/src/user.ts
--   Template      app/domain/src/workflow-templates.ts: canVote; Template.Validation is
--                 WorkflowTemplateFactory, Template.Lifecycle the deprecation, Template.Version
--                 getMostRecentVersionFromTuples; Template.Actions has
--                 app/domain/src/workflow-actions.ts
--   Membership    app/domain/src/group-membership.ts: GroupManager, which is passed and returned
--                 explicitly, together with what a call returns
--   RefreshToken  app/domain/src/refresh-token.ts: validation, markAsUsed, canTokenBeRefreshed;
--                 RefreshToken.Family has validateTokenRefreshEligibilityOrRevoke of
--                 app/services/src/auth/auth.service.ts over the rows of
--                 app/external/src/database/refresh-token.repository.ts; RefreshToken.Rotation has
--                 createForUser, the transaction of a refresh, and concurrent callers of
--                 refreshTokenForUser and refreshTokenForAgent
--   Hierarchy     app/domain/src/hierarchy.ts: getParentsOfType
--   Quota         app/domain/src/quota.ts: QuotaIdentifierFactory,
--                 and Quota.Service for app/services/src/quota/quota.service.ts and
--                 app/services/src/hierarchy/hierarchy.service.ts over given repositories
--   Store         app/external/src/database/workflow.repository.ts and vote.repository.ts: the rows and
--                 the statements on them; Store.VoteRows maps votes, Store.Listing filters workflows
--   Recalculation app/services/src/workflow/workflow-recalculation.service.ts: the worker and the
--                 sweep; Recalculation.Interleaving has the steps of concurrent callers on the tables
--   Cancellation  app/services/src/workflow-template/workflow-template.service.ts: cancelWorkflows,
--                 its loop, and cancelWorkflowsAndDeprecateTemplate
--   VoteService   app/services/src/vote/vote.service.ts: canVote and castVote, with
--                 useHighPrivilegeToken of app/services/src/auth/auth.service.ts
--   Task          app/domain/src/workflow-tasks/base.ts and email-task.ts; Task.Rows is
--                 app/external/src/database/task.repository.ts for one e-mail task, Task.Processing
--                 app/worker/src/processor/workflow-action-email.processor.ts
--   Group         app/domain/src/group.ts: GroupFactory
--   Space         app/domain/src/space.ts: SpaceFactory
--   OrganizationAdmin
--                 app/domain/src/organization-admin.ts: OrganizationAdminFactory
--   Email         app/utils/src/validation.ts: isEmail
--   Tests         runs on concrete inputs and instances of the theorems
--
-- Conventions: an instant is a natural number of milliseconds. Where the source reads the clock, the
-- reading is an argument; two readings in one function are two arguments. A new id is an argument
-- too. Text lengths are counted in UTF-16 code units, as JavaScript does. An error is the `left` of
-- a result, with the source's name for it. A mutable object is passed in and returned.
--
-- Concurrency: the tables of one workflow, its row and its votes, are changed by callers in steps,
-- each of which reads or changes them once, as a statement or a transaction of the database does;
-- any number of callers, in any order. So are the table of refresh tokens and the row of a task. The
-- database runs at READ COMMITTED, so the statement that revokes a family of refresh tokens takes
-- two steps: it sees the rows of the table when it starts, and writes the latest versions of these
-- when it ends. What Postgres holds of a text in a column is a parameter with what it documents as a
-- hypothesis (Store.VoteRows.Columns). Services are given the repositories as parameters; what a
-- call changes outside is returned as a list of effects.
--
-- Fuel: only the loop of getParentsOfType takes fuel (Hierarchy.parents_from). Five rounds are
-- chosen where a number is needed, since no node type has more than three types above it. The loop
-- of the cancellation counts down the attempts that are left, two as in the source. All other loops
-- are structural recursion over the list or the rule they traverse; the levels that Rule.Validation
-- counts down are the source's own limit MAX_NESTING_DEPTH.
--
-- Not modelled: the other factories of the domain (users, agents, tasks other than the e-mail task),
-- the other services, the controllers and the other adapters of the database, queues and identity
-- providers; failures of the database, and locks below the level of a statement; what columns other
-- than those of votes do to a text; the object properties that validation passes on unread;
-- exceptions of the runtime. The order of an Array.prototype.sort is modelled by a stable insertion
-- sort, as the language asks for.
pub mod Base
pub mod Cancellation
pub mod Email
pub mod Entity
pub mod Group
pub mod Hierarchy
pub mod Json
pub mod Membership
pub mod OrganizationAdmin
pub mod Quota
pub mod Recalculation
pub mod RefreshToken
pub mod Role
pub mod Rule
pub mod Space
pub mod Store
pub mod Task
pub mod Template
pub mod Tests
pub mod Uuid
pub mod Vote
pub mod VoteService
pub mod Workflow
