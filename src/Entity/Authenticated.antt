-- ===== src/Entity/Authenticated.antt =====
-- domain/src/authenticated-entity.ts: who makes a request.
use approvio.Base.{String, Option, List, Bool, true, false}
use approvio.Entity.{EntityRef}
use approvio.Membership.{Agent}
use approvio.Role.{BoundRole}
use approvio.Role.Permission.{User}

-- `StepUpOperation`
pub data StepUpOperation : Type 0 where
  vote admin_action : StepUpOperation

abbrev pub is_same_operation : StepUpOperation → StepUpOperation → Bool
is_same_operation vote vote = true
is_same_operation admin_action admin_action = true
is_same_operation _ _ = false

-- `StepUpContext`
pub record StepUpContext : Type 0 where
  pub jti : String
  pub operation : StepUpOperation
  pub resource : Option String

-- `AuthenticatedEntity`: a user with the context of a step-up, or an agent
pub data AuthenticatedEntity : Type 0 where
  user : User → Option StepUpContext → AuthenticatedEntity
  agent : Agent → AuthenticatedEntity

-- `getEntityId`
unfoldable pub get_entity_id : AuthenticatedEntity → String
get_entity_id (user u context) = u.id
get_entity_id (agent a) = a.id

-- `getEntityType`
unfoldable pub get_entity_type : AuthenticatedEntity → String
get_entity_type (user u context) = "user"
get_entity_type (agent a) = "agent"

-- `getEntityRoles`
unfoldable pub get_entity_roles : AuthenticatedEntity → List BoundRole
get_entity_roles (user u context) = u.roles
get_entity_roles (agent a) = a.roles

-- `createEntityReference`
unfoldable pub create_entity_reference : AuthenticatedEntity → EntityRef
unfolding get_entity_id get_entity_type
create_entity_reference e = record { entity_id = get_entity_id e; entity_type = get_entity_type e }
