-- ===== src/Domain/Relationships.antt =====
-- Relationships between entities: the validation matrix and the cycle check
-- (src/domain/participation/relationships.ts).
pub mod Matrix
pub mod Search
pub mod Cycles
use culturago_stellar.Base.{
  ℕ, zero, suc, ◌+◌, Bool, true, false, ◌&&◌, ◌||◌, not, Option, none, some, String, List, [], ◌∷◌,
  ◌++◌, Eq, enum_eq, ◌==◌, text_eq, includes, if◌then◌else◌, Result, ok, err, ◌>>=◌, ◌>>◌, require,
  JsMap, get, set, length, option_beq, invalid_relationship,
}

pub data EntityKind : Type 0 where
  person organization provider event : EntityKind

unfoldable pub EntityKind-discrete : Discrete EntityKind
EntityKind-discrete = hlevel

instance abbrev pub entity_kind_eq : Eq EntityKind
entity_kind_eq = enum_eq EntityKind-discrete

pub data RelationshipType : Type 0 where
  organizer_of producer_of participant_of member_of teacher_at : RelationshipType
  director_of founder_of provider_of venue_of sponsor_of : RelationshipType
  official_photographer_of official_videographer_of : RelationshipType
  technical_partner_of food_partner_of media_partner_of : RelationshipType

unfoldable pub RelationshipType-discrete : Discrete RelationshipType
RelationshipType-discrete = hlevel

instance abbrev pub relationship_type_eq : Eq RelationshipType
relationship_type_eq = enum_eq RelationshipType-discrete

pub record RelationshipRule : Type 0 where
  pub from : List EntityKind
  pub to : List EntityKind
  pub requires_event_context : Bool

abbrev rule : List EntityKind → List EntityKind → Bool → RelationshipRule
rule from to context = record { from = from; to = to; requires_event_context = context }

unfoldable pub relationship_rules : RelationshipType → RelationshipRule
relationship_rules organizer_of = rule (organization ∷ person ∷ []) (event ∷ []) false
relationship_rules producer_of = rule (organization ∷ person ∷ []) (event ∷ []) false
relationship_rules participant_of = rule (person ∷ organization ∷ []) (event ∷ []) true
relationship_rules member_of = rule (person ∷ []) (organization ∷ []) false
relationship_rules teacher_at = rule (person ∷ []) (organization ∷ []) false
relationship_rules director_of = rule (person ∷ []) (organization ∷ []) false
relationship_rules founder_of = rule (person ∷ []) (organization ∷ []) false
relationship_rules provider_of =
    rule (provider ∷ organization ∷ []) (event ∷ organization ∷ []) false
relationship_rules venue_of = rule (provider ∷ []) (event ∷ []) false
relationship_rules sponsor_of = rule (provider ∷ organization ∷ []) (event ∷ []) false
relationship_rules official_photographer_of = rule (provider ∷ person ∷ []) (event ∷ []) false
relationship_rules official_videographer_of = rule (provider ∷ person ∷ []) (event ∷ []) false
relationship_rules technical_partner_of = rule (provider ∷ organization ∷ []) (event ∷ []) false
relationship_rules food_partner_of = rule (provider ∷ []) (event ∷ []) false
relationship_rules media_partner_of = rule (provider ∷ organization ∷ []) (event ∷ []) false

-- `PERSON_TO_ORG`, which is also `CYCLICAL_TYPES`.
unfoldable pub cyclical_types : List RelationshipType
cyclical_types = member_of ∷ teacher_at ∷ director_of ∷ founder_of ∷ []

pub record RelationshipInput : Type 0 where
  pub type : RelationshipType
  pub from_entity_id : String
  pub from_kind : EntityKind
  pub to_entity_id : String
  pub to_kind : EntityKind
  pub context_event_id : Option String

-- A context that is `null` or the empty text counts as absent.
abbrev pub has_context : Option String → Bool
has_context none = false
has_context (some c) = not (c == "")

abbrev is_context : Option String → String → Bool
is_context c e = option_beq c (some e)

unfoldable pub validate_relationship : RelationshipInput → Result (Unit {0})
unfolding relationship_rules EntityKind-discrete RelationshipType-discrete
validate_relationship input = do
  let rule = relationship_rules input.type
  require (not (input.from_entity_id == input.to_entity_id)) invalid_relationship
  require (includes rule.from input.from_kind) invalid_relationship
  require (includes rule.to input.to_kind) invalid_relationship
  require (not (rule.requires_event_context && not (has_context input.context_event_id)))
      invalid_relationship
  require
      (not (
        input.type == participant_of
        && has_context input.context_event_id
        && input.to_kind == event
        && not (is_context input.context_event_id input.to_entity_id)))
      invalid_relationship

-- `adjacency.get(x) ?? []`
abbrev pub targets : String → JsMap (List String) → List String
targets x m = elim (get x m) [ none ↦ [] | some list ↦ list ]

-- The loop that fills `adjacency`.
unfoldable pub adjacency_of : JsMap (List String) → List (String × String) → JsMap (List String)
adjacency_of m [] = m
adjacency_of m ((from, to) ∷ edges) = adjacency_of (set from (targets from m ++ to ∷ []) m) edges

-- The stack with its top first: pushing the targets one by one.
unfoldable pub push_all : List String → List String → List String
push_all [] stack = stack
push_all (x ∷ xs) stack = push_all xs (x ∷ stack)

-- The `while` loop on fuel; `none` means that the fuel ran out.
unfoldable pub search_loop :
    ℕ → JsMap (List String) → String → List String → List String → Option Bool
unfolding push_all
search_loop zero adjacency goal visited stack = none
search_loop (suc fuel) adjacency goal visited [] = some false
search_loop (suc fuel) adjacency goal visited (current ∷ stack) =
    let skip = search_loop fuel adjacency goal visited stack in
    let expand =
      search_loop fuel adjacency goal (current ∷ visited)
        (push_all (targets current adjacency) stack) in
    if current == goal then some true else if includes visited current then skip else expand

-- Each round takes one entry of the stack, and an edge is pushed at most once: one round for each
-- edge, one for the start, and one to see the empty stack are enough.
abbrev pub search_fuel : List (String × String) → ℕ
search_fuel edges = suc (suc (length edges))

unfoldable pub creates_cycle :
    RelationshipType → String → String → List (String × String) → Option Bool
unfolding cyclical_types RelationshipType-discrete adjacency_of search_loop
creates_cycle type from_entity_id to_entity_id edges =
    if not (includes cyclical_types type)
    then some false
    else search_loop (search_fuel edges) (adjacency_of [] edges) from_entity_id []
        (to_entity_id ∷ [])
