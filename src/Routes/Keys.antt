-- ===== src/Routes/Keys.antt =====
-- The idempotency key that src/app/api/sign/submit/route.ts takes apart, and the gateway's key of a command
-- (src/infrastructure/stellar/SorobanStellarGateway.ts).
pub mod Uuids
pub mod RoundTrip
use Prim.Native.Char.{Char, code}
use text.Mathlib.TextLemmas.{nil-append, cons-append, append_assoc}
use text.Mathlib.TextEquality.{Char-path}
use Prim.Native.String.{◌++◌}
use culturago_stellar.Base.{
  ℕ, ◌≡◌, refl, ap, sym, ◌∙◌, Bool, true, false, Option, none, some, String, List, [], ◌∷◌, Result,
  ok, if◌then◌else◌, ◌==◌, text_eq, nat_beq, codes, Bool-cases, arith, eq_iff, Class, fits, uuid_of,
  repeat, is_small_hex, nat_beq_iff, ◌||◌,
}
use culturago_stellar.Stellar.Commands.{
  Command, register, issue, revoke, or_empty, canonical_idempotency_key,
}
use culturago_stellar.Routes.Actor.{given_text}

pub data ParsedKey : Type 0 where
  register_key : String → ParsedKey
  issue_key : String → ParsedKey
  revoke_key : String → Option String → ParsedKey

-- `s.split(':')`: the part before the first colon, and the others.
unfoldable pub split_colons : String → String × List String
split_colons String.[] = (String.[], [])
split_colons (String.◌∷◌ c s) =
    let (first, others) = split_colons s in
    if nat_beq (code c) 58 then (String.[], first ∷ others) else (String.◌∷◌ c first, others)

-- `parts.join(':')`
unfoldable pub join_colons : List String → String
join_colons [] = String.[]
join_colons (s ∷ []) = s
join_colons (s ∷ t ∷ ts) = s ++ ":" ++ join_colons (t ∷ ts)

abbrev pub parse_single : (String → ParsedKey) → List String → Option ParsedKey
parse_single make [] = none
parse_single make (id ∷ []) = some (make id)
parse_single make (id ∷ other ∷ others) = none

abbrev pub parse_revoke : List String → Option ParsedKey
parse_revoke [] = none
parse_revoke (id ∷ others) = some (revoke_key id (given_text (some (join_colons others))))

abbrev pub parse_parts : String × List String → Option ParsedKey
parse_parts (prefix, rest) =
    if prefix == "register"
    then parse_single register_key rest
    else if prefix == "issue"
    then parse_single issue_key rest
    else if prefix == "revoke"
    then parse_revoke rest
    else none

unfoldable pub parse_idempotency_key : String → Option ParsedKey
unfolding split_colons join_colons
parse_idempotency_key key = parse_parts (split_colons key)

unfoldable pub has_colon : String → Bool
has_colon String.[] = false
has_colon (String.◌∷◌ c s) = nat_beq (code c) 58 || has_colon s

abbrev pub all_parts : String × List String → List String
all_parts (first, others) = first ∷ others

abbrev pub parsed_of : Command → ParsedKey
parsed_of (register c) = register_key c.entity_id
parsed_of (issue c) = issue_key c.credential_id
parsed_of (revoke c) = revoke_key c.credential_id (given_text c.reason_hash)

abbrev pub subject_of : Command → String
subject_of (register c) = c.entity_id
subject_of (issue c) = c.credential_id
subject_of (revoke c) = c.credential_id
