-- ===== src/Hashing/Reordering.antt =====
-- The canonical form does not tell the order of the fields of an object, at any depth (canonicalize.ts).
use culturago_stellar.Base.{
  String, List, Result, ok, err, ◌>>=◌, invalid_input, ◌≡◌, ◌≢◌, refl, sym, ap, ◌∙◌,
}
use culturago_stellar.Base.Values.{
  Value, Items, Fields, null, undefined, not_a_number, infinite, opaque, boolean, natural, number,
  string, array, object, nil, cons, end, field,
}
use culturago_stellar.Hashing.{
  canonicalize_json, canonical_items, sorted_entries, insert_entry, Entry, units_of, canonicalize,
  hash_document,
}
use culturago_stellar.Hashing.Order.{insert_entry-insert_entry}

-- Values that differ in the order of fields at most; the keys of one object are told apart.
mutual
  pub data SameValue : Value → Value → Type 0 where
    alike : {v : Value} → SameValue v v
    arrays : {xs ys : Items} → SameItems xs ys → SameValue (array xs) (array ys)
    objects : {fs gs : Fields} → SameFields fs gs → SameValue (object fs) (object gs)

  pub data SameItems : Items → Items → Type 0 where
    none_left : SameItems nil nil
    both :
        {v w : Value} {xs ys : Items}
        → SameValue v w
        → SameItems xs ys
        → SameItems (cons v xs) (cons w ys)

  pub data SameFields : Fields → Fields → Type 0 where
    no_fields : SameFields end end
    kept :
        {k : String} {v w : Value} {fs gs : Fields}
        → SameValue v w
        → SameFields fs gs
        → SameFields (field k v fs) (field k w gs)
    swapped :
        {k j : String} {v w : Value} {fs : Fields}
        → units_of k ≢ units_of j
        → SameFields (field k v (field j w fs)) (field j w (field k v fs))
    chained : {fs gs hs : Fields} → SameFields fs gs → SameFields gs hs → SameFields fs hs

-- A result that fails with one code only.
FailsAlike : {A : Type 0} → Result A → Type 0
FailsAlike r = elim r [ ok a ↦ ok a ≡ ok a | err e ↦ e ≡ invalid_input ]

bind-FailsAlike :
    {A B : Type 0} (r : Result A)
    → (f : A → Result B) → FailsAlike r
    → ((a : A) → FailsAlike (f a))
    → FailsAlike (r >>= f)
unfolding FailsAlike
bind-FailsAlike (ok a) f h t = t a
bind-FailsAlike (err e) f h t = h

mutual
  unfolding canonicalize_json FailsAlike

  canonicalize_json-FailsAlike : (v : Value) → FailsAlike (canonicalize_json v)
  canonicalize_json-FailsAlike null = refl
  canonicalize_json-FailsAlike undefined = refl
  canonicalize_json-FailsAlike not_a_number = refl
  canonicalize_json-FailsAlike infinite = refl
  canonicalize_json-FailsAlike opaque = refl
  canonicalize_json-FailsAlike (boolean b) = refl
  canonicalize_json-FailsAlike (natural n) = refl
  canonicalize_json-FailsAlike (number s) = refl
  canonicalize_json-FailsAlike (string s) = refl
  canonicalize_json-FailsAlike (array xs) =
      bind-FailsAlike (canonical_items xs) _ (canonical_items-FailsAlike xs) (λ parts. refl)
  canonicalize_json-FailsAlike (object fs) =
      bind-FailsAlike (sorted_entries fs) _ (sorted_entries-FailsAlike fs) (λ entries. refl)

  canonical_items-FailsAlike : (xs : Items) → FailsAlike (canonical_items xs)
  canonical_items-FailsAlike nil = refl
  canonical_items-FailsAlike (cons x xs) =
      bind-FailsAlike (canonicalize_json x) _ (canonicalize_json-FailsAlike x) (λ part.
        bind-FailsAlike (canonical_items xs) _ (canonical_items-FailsAlike xs) (λ parts. refl))

  sorted_entries-FailsAlike : (fs : Fields) → FailsAlike (sorted_entries fs)
  sorted_entries-FailsAlike end = refl
  sorted_entries-FailsAlike (field k v fs) =
      bind-FailsAlike (canonicalize_json v) _ (canonicalize_json-FailsAlike v) (λ text.
        bind-FailsAlike (sorted_entries fs) _ (sorted_entries-FailsAlike fs) (λ entries. refl))

-- Two fields written one after the other, from the results for their values and for the rest.
two_fields :
    String → String → Result String → Result String → Result (List Entry) → Result (List Entry)
two_fields k j r s rest = do
  text ← r
  entries ← do other ← s; others ← rest; ok (insert_entry (record { key = j; text = other }) others)
  ok (insert_entry (record { key = k; text = text }) entries)

two_fields-swapped :
    (k j : String)
    → (r s : Result String) → (rest : Result (List Entry)) → FailsAlike r
    → FailsAlike s
    → FailsAlike rest
    → units_of k ≢ units_of j
    → two_fields k j r s rest ≡ two_fields j k s r rest
unfolding two_fields FailsAlike
two_fields-swapped k j (ok a) (ok b) (ok es) p q t d =
    ap ok
      (insert_entry-insert_entry (record { key = k; text = a }) (record { key = j; text = b }) es d)
two_fields-swapped k j (ok a) (ok b) (err e) p q t d = refl
two_fields-swapped k j (ok a) (err e) rest p q t d = refl
two_fields-swapped k j (err e) (ok b) (ok es) p q t d = refl
two_fields-swapped k j (err e) (ok b) (err g) p q t d = refl
two_fields-swapped k j (err e) (err g) rest p q t d = ap err (p ∙ sym q)

sorted_entries-swapped :
    (k j : String)
    → (v w : Value) → (fs : Fields) → units_of k ≢ units_of j
    → sorted_entries (field k v (field j w fs)) ≡ sorted_entries (field j w (field k v fs))
unfolding canonicalize_json two_fields
sorted_entries-swapped k j v w fs d =
    two_fields-swapped k j (canonicalize_json v) (canonicalize_json w) (sorted_entries fs)
      (canonicalize_json-FailsAlike v) (canonicalize_json-FailsAlike w)
      (sorted_entries-FailsAlike fs) d

mutual
  unfolding canonicalize_json

  canonicalize_json-same : {v w : Value} → SameValue v w → canonicalize_json v ≡ canonicalize_json w
  canonicalize_json-same alike = refl
  canonicalize_json-same (arrays s) = rw (canonical_items-same s)
  canonicalize_json-same (objects s) = rw (sorted_entries-same s)

  canonical_items-same : {xs ys : Items} → SameItems xs ys → canonical_items xs ≡ canonical_items ys
  canonical_items-same none_left = refl
  canonical_items-same (both s rest) = rw (canonicalize_json-same s, canonical_items-same rest)

  sorted_entries-same : {fs gs : Fields} → SameFields fs gs → sorted_entries fs ≡ sorted_entries gs
  sorted_entries-same no_fields = refl
  sorted_entries-same (kept s rest) = rw (canonicalize_json-same s, sorted_entries-same rest)
  sorted_entries-same (swapped {k} {j} {v} {w} {fs} d) = sorted_entries-swapped k j v w fs d
  sorted_entries-same (chained s rest) = sorted_entries-same s ∙ sorted_entries-same rest

-- Values that differ only in the order of the fields of their objects, at whatever depth, have one
-- canonical form and one digest under every schema, or both are refused with the same code, where the
-- keys of two fields that change places have different code units.
pub hash_document-same :
    (sha256 : String → String)
    → (schema : String) → {v w : Value} → SameValue v w
    → (canonicalize schema v ≡ canonicalize schema w)
      × (hash_document sha256 schema v ≡ hash_document sha256 schema w)
unfolding canonicalize hash_document
hash_document-same sha256 schema s = (rw (canonicalize_json-same s), rw (canonicalize_json-same s))
