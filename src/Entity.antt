-- ===== src/Entity.antt =====
-- domain/src/authenticated-entity.ts: references to the entities (users and agents) that vote, and
-- the keys by which the domain tells them apart.
pub mod Keys
pub mod Authenticated
use Prim.Native.String
use approvio.Base.{String}

-- `EntityReference`. The type is a text: `VoteFactory` tests it at run time.
pub record EntityRef : Type 0 where
  pub entity_id : String
  pub entity_type : String

-- `getNormalizedEntityId` of a reference: `${entityType}:${entityId}`
unfoldable pub normalized_entity_id : EntityRef → String
normalized_entity_id e = String.◌++◌ e.entity_type (String.◌++◌ ":" e.entity_id)
