-- ===== src/Hashing/Tests.antt =====
-- Runs of the canonical form (src/infrastructure/hashing), and a document written in two orders.
use culturago_stellar.Base.{◌≡◌, ◌≢◌, refl, arith, ok, err, invalid_input, true}
use culturago_stellar.Base.Values.{
  Value, boolean, natural, string, undefined, array, object, nil, cons, end, field,
}
use culturago_stellar.Hashing.{canonicalize_json, canonicalize, hash_document, units_of}
use culturago_stellar.Hashing.Reordering.{
  SameValue, objects, kept, swapped, chained, no_fields, alike, hash_document-same,
}

abbrev inner : Value
inner = object (field "y" (natural 10) (field "x" (string "a\"b") end))

abbrev inner_sorted : Value
inner_sorted = object (field "x" (string "a\"b") (field "y" (natural 10) end))

abbrev document : Value
document = object (field "b" inner (field "a" (array (cons (boolean true) nil)) end))

abbrev document_sorted : Value
document_sorted = object (field "a" (array (cons (boolean true) nil)) (field "b" inner_sorted end))

document_runs : canonicalize_json document ≡ ok "{\"a\":[true],\"b\":{\"x\":\"a\\\"b\",\"y\":10}}"
unfolding canonicalize_json units_of
document_runs = refl

undefined_runs :
    canonicalize "culturago.entity.v1" (object (field "a" undefined end)) ≡ err invalid_input
unfolding canonicalize
undefined_runs = refl

schema_runs : canonicalize "culturago.entity.v2" document ≡ err invalid_input
unfolding canonicalize
schema_runs = refl

x_apart : units_of "y" ≢ units_of "x"
unfolding units_of
x_apart = ground arith

a_apart : units_of "b" ≢ units_of "a"
unfolding units_of
a_apart = ground arith

reordered : SameValue document document_sorted
reordered =
    objects (chained (kept (objects (swapped x_apart)) (kept alike no_fields)) (swapped a_apart))

hash_document-same_example :
    (canonicalize "culturago.entity.v1" document
      ≡ canonicalize "culturago.entity.v1" document_sorted)
    × (hash_document (λ text. text) "culturago.entity.v1" document
        ≡ hash_document (λ text. text) "culturago.entity.v1" document_sorted)
hash_document-same_example = hash_document-same (λ text. text) "culturago.entity.v1" reordered
