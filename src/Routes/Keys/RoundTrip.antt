-- ===== src/Routes/Keys/RoundTrip.antt =====
-- The key of a command, taken apart again.
use Prim.Native.Char.{Char, code}
use text.Mathlib.TextLemmas.{nil-append, cons-append, append_assoc}
use text.Mathlib.TextEquality.{Char-path}
use Prim.Native.String.{◌++◌}
use culturago_stellar.Base.{
  ◌≡◌, refl, ap, sym, ◌∙◌, Bool, true, false, Option, none, some, String, List, [], ◌∷◌, ok,
  if◌then◌else◌, text_eq, nat_beq, nat_beq_iff, ◌||◌,
}
use culturago_stellar.Stellar.Commands.{
  Command, register, issue, revoke, or_empty, canonical_idempotency_key,
}
use culturago_stellar.Routes.Actor.{given_text}
use culturago_stellar.Base.Values.{Value}
use culturago_stellar.Perimeter.Body.{validate_prepare_command}
use culturago_stellar.Perimeter.Body.Commands.{Canonical, validate_prepare_command-Made}
use culturago_stellar.Routes.Keys.Uuids.{small_uuid-has_colon}
use culturago_stellar.Routes.Keys.{
  revoke_key, split_colons, join_colons, parse_parts, parse_idempotency_key, has_colon, all_parts,
  parsed_of, subject_of,
}

or_false : (a b : Bool) → (a || b) ≡ false → (a ≡ false) × (b ≡ false)
or_false true b h = cc
or_false false b h = (refl, h)

pub split_colons-all : (s : String) → has_colon s ≡ false → split_colons s ≡ (s, [])
unfolding split_colons has_colon
split_colons-all String.[] h = refl
split_colons-all (String.◌∷◌ c s) h =
    let (here, later) = or_false (nat_beq (code c) 58) (has_colon s) h in
    rw (split_colons-all s later, here) refl

pub split_colons-append :
    (s t : String)
    → has_colon s ≡ false
    → split_colons (s ++ ":" ++ t) ≡ (s, all_parts (split_colons t))
unfolding split_colons has_colon
split_colons-append String.[] t h =
    rw (nil-append, cons-append) (ap (λ u. split_colons (String.◌∷◌ ":" u)) (nil-append t))
split_colons-append (String.◌∷◌ c s) t h =
    let (here, later) = or_false (nat_beq (code c) 58) (has_colon s) h in
    rw (cons-append) (rw (split_colons-append s t later, here) refl)

pub join_colons-cons :
    (c : Char) (first : String) (others : List String)
    → join_colons (String.◌∷◌ c first ∷ others) ≡ String.◌∷◌ c (join_colons (first ∷ others))
unfolding join_colons
join_colons-cons c first [] = refl
join_colons-cons c first (o ∷ os) = cons-append c first (":" ++ join_colons (o ∷ os))

joined :
    (c : Char) (s : String) (b : Bool) (r : String × List String)
    → nat_beq (code c) 58 ≡ b
    → join_colons (all_parts r) ≡ s
    → join_colons (all_parts (if b then (String.[], r.0 ∷ r.1) else (String.◌∷◌ c r.0, r.1)))
      ≡ String.◌∷◌ c s
unfolding join_colons
joined c s true r e h =
    nil-append _
    ∙ cons-append ":" "" _
    ∙ ap (String.◌∷◌ ":") (nil-append _ ∙ h)
    ∙ ap (λ d. String.◌∷◌ d s) (sym (Char-path c ":" ((nat_beq_iff _ _).0 e)))
joined c s false r e h = join_colons-cons c r.0 r.1 ∙ ap (String.◌∷◌ c) h

pub join_colons-split_colons : (s : String) → join_colons (all_parts (split_colons s)) ≡ s
unfolding split_colons join_colons
join_colons-split_colons String.[] = refl
join_colons-split_colons (String.◌∷◌ c s) =
    joined c s _ (split_colons s) refl (join_colons-split_colons s)

prefixed :
    (prefix id : String)
    → has_colon prefix ≡ false
    → has_colon id ≡ false
    → split_colons ((prefix ++ ":") ++ id) ≡ (prefix, id ∷ [])
prefixed prefix id h k =
    ap split_colons (append_assoc prefix ":" id)
    ∙ split_colons-append prefix id h
    ∙ ap (λ p. (prefix, all_parts p)) (split_colons-all id k)

reasoned :
    (id reason : String)
    → has_colon id ≡ false
    → split_colons ("revoke:" ++ id ++ ":" ++ reason)
      ≡ ("revoke", id ∷ all_parts (split_colons reason))
unfolding has_colon
reasoned id reason h =
    ap split_colons (append_assoc "revoke" ":" (id ++ ":" ++ reason))
    ∙ split_colons-append "revoke" (id ++ ":" ++ reason) refl
    ∙ ap (λ p. ("revoke", all_parts p)) (split_colons-append id reason h)

-- Without a reason the key ends in an empty text, which is no reason.
reason_given : (reason : Option String) → given_text (some (or_empty reason)) ≡ given_text reason
reason_given none = refl
reason_given (some reason) = refl

pub parse_idempotency_key-canonical_idempotency_key :
    (c : Command)
    → has_colon (subject_of c) ≡ false
    → parse_idempotency_key (canonical_idempotency_key c) ≡ some (parsed_of c)
unfolding parse_idempotency_key canonical_idempotency_key has_colon
parse_idempotency_key-canonical_idempotency_key (register c) h =
    ap parse_parts (prefixed "register" c.entity_id refl h)
parse_idempotency_key-canonical_idempotency_key (issue c) h =
    ap parse_parts (prefixed "issue" c.credential_id refl h)
parse_idempotency_key-canonical_idempotency_key (revoke c) h =
    ap parse_parts (reasoned c.credential_id (or_empty c.reason_hash) h)
    ∙ ap (λ reason. some (revoke_key c.credential_id (given_text (some reason))))
        (join_colons-split_colons (or_empty c.reason_hash))
    ∙ ap (λ reason. some (revoke_key c.credential_id reason)) (reason_given c.reason_hash)

subject-has_colon : (c : Command) → Canonical c → has_colon (subject_of c) ≡ false
subject-has_colon (register c) h = small_uuid-has_colon c.entity_id h.1
subject-has_colon (issue c) h = small_uuid-has_colon c.credential_id h.1
subject-has_colon (revoke c) h = small_uuid-has_colon c.credential_id h.1

-- Of a command that the perimeter lets through, the key is taken apart to the kind, the identifier of the
-- subject and, where the body gave one, the reason.
pub parse_idempotency_key-prepared :
    (raw : Value) (actor : String) (c : Command)
    → validate_prepare_command raw actor ≡ ok c
    → parse_idempotency_key (canonical_idempotency_key c) ≡ some (parsed_of c)
parse_idempotency_key-prepared raw actor c h =
    let (obj, found, free, made) = validate_prepare_command-Made raw actor c h in
    parse_idempotency_key-canonical_idempotency_key c (subject-has_colon c made.0)
