-- ===== src/Domain/Tests/Relationships.antt =====
-- The theorems on relationships at concrete inputs.
use culturago_stellar.Base.{
  ◌≡◌, ◌↔◌, ◌⊎◌, refl, Bool, true, false, some, String, List, [], ◌∷◌, get, set,
}
use culturago_stellar.Domain.Relationships.{
  person, event, member_of, teacher_at, director_of, founder_of, participant_of, RelationshipInput,
  creates_cycle,
}
use culturago_stellar.Domain.Relationships.Cycles.{Leads, creates_cycle_decides}

abbrev attendance : RelationshipInput
attendance = record {
  type = participant_of;
  from_entity_id = "dancer";
  from_kind = person;
  to_entity_id = "fest";
  to_kind = event;
  context_event_id = some "fest";
}

abbrev edges : List (String × String)
edges = ("b", "c") ∷ ("a", "b") ∷ ("c", "c") ∷ []

closing_edge : creates_cycle member_of "c" "a" edges ≡ some true
unfolding creates_cycle get set
closing_edge = refl

harmless_edge : creates_cycle member_of "a" "c" edges ≡ some false
unfolding creates_cycle get set
harmless_edge = refl

creates_cycle_decides_example :
    (answer : Bool) × (creates_cycle member_of "c" "a" edges ≡ some answer)
    × ((answer ≡ true) ↔ (
        ((member_of ≡ member_of)
          ⊎ (member_of ≡ teacher_at)
          ⊎ (member_of ≡ director_of)
          ⊎ (member_of ≡ founder_of))
        × Leads edges "a" "c"))
creates_cycle_decides_example = creates_cycle_decides member_of "c" "a" edges
