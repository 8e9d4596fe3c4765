-- ===== src/Domain/Relationships/Matrix.antt =====
-- What a relationship that passes the validation looks like.
use culturago_stellar.Base.{◌≡◌, ◌≢◌, ◌⊎◌, some, ok, arith, eq_iff, text_eq, option_beq_iff}
use culturago_stellar.Domain.Relationships.{
  person, organization, event, participant_of, member_of, teacher_at, director_of, founder_of,
  RelationshipInput, validate_relationship,
}

-- The shape of a valid relationship.
pub record IsShaped (i : RelationshipInput) : Type 0 where
  pub irreflexive : i.from_entity_id ≢ i.to_entity_id
  pub source : i.from_kind ≢ event
  pub target : (i.to_kind ≡ event) ⊎ (i.to_kind ≡ organization)
  pub hierarchy :
      (i.type ≡ member_of) ⊎ (i.type ≡ teacher_at) ⊎ (i.type ≡ director_of) ⊎ (i.type ≡ founder_of)
      → (i.from_kind ≡ person) × (i.to_kind ≡ organization)
  pub participation :
      i.type ≡ participant_of → (i.to_kind ≡ event) × (i.context_event_id ≡ some i.to_entity_id)

-- A relationship that passes the validation joins two different entities, starts at no event and ends
-- at an event or an organization. One of the four hierarchical types goes from a person to an
-- organization. A participation goes to an event, which is its context.
pub validate_relationship_shape :
    (i : RelationshipInput) → validate_relationship i ≡ ok tt → IsShaped i
unfolding validate_relationship
validate_relationship_shape i h = ground (
  arith,
  eq_iff i.from_entity_id i.to_entity_id,
  option_beq_iff i.context_event_id (some i.to_entity_id),
)
