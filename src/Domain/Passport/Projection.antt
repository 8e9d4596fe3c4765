-- ===== src/Domain/Passport/Projection.antt =====
-- The projection loses and invents no entry, is in the order of issuance, and groups by event.
use mathlib.Core.List.{append-nil, append_assoc, Perm}
use mathlib.Core.List.Perm
use culturago_stellar.Base.{
  ◌≡◌, refl, sym, ap, ◌∙◌, inl, inr, ◌↔◌, true, false, none, String, List, [], ◌∷◌, ◌++◌, ◌==◌,
  text_eq, select, if◌then◌else◌, Result, ok, err, JsMap, get, set, get-set, Bool-cases, arith,
  eq_of_beq, All,
}
use culturago_stellar.Domain.Catalog.{credential_type_name}
use culturago_stellar.Domain.Credentials.{CredentialRecord, issued, revoked}
use culturago_stellar.Domain.Passport.{
  PassportEntry, PassportProjection, entry_revoked, entry_pending_confirmation, passport_entry,
  passport_entries, credentials_of, Collation, goes_before, insert_entry, sort_entries,
  project_passport, group_at, group_entries, group_by_event,
}

-- What an entry shows of its credential.
pub record Shows (c : CredentialRecord) (e : PassportEntry) : Type 0 where
  pub id : e.credential_id ≡ c.credential_id
  pub event : e.event_id ≡ c.event_id
  pub named : credential_type_name c.credential_type ≡ ok e.credential_type
  pub at : e.issued_intent_at ≡ c.issued_intent_at
  pub revoked_iff : (e.status ≡ entry_revoked) ↔ (c.status ≡ revoked)
  pub pending_iff :
      (e.status ≡ entry_pending_confirmation) ↔ ((c.status ≡ issued) × (c.issued_ledger ≡ none))

passport_entry-Shows :
    (c : CredentialRecord) (e : PassportEntry) → passport_entry c ≡ ok e → Shows c e
unfolding passport_entry
passport_entry-Shows c e h = ground arith

-- One entry for each credential, in order.
abbrev pub ShowAll : List CredentialRecord → List PassportEntry → Type 0
ShowAll [] [] = Unit {0}
ShowAll [] (e ∷ es) = ⊥
ShowAll (c ∷ cs) [] = ⊥
ShowAll (c ∷ cs) (e ∷ es) = Shows c e × ShowAll cs es

passport_entries-ShowAll :
    (cs : List CredentialRecord) (es : List PassportEntry)
    → passport_entries cs ≡ ok es
    → ShowAll cs es
unfolding passport_entries
passport_entries-ShowAll [] [] h = tt
passport_entries-ShowAll [] (e ∷ es) h = cc
passport_entries-ShowAll (c ∷ cs) [] h = ground arith
passport_entries-ShowAll (c ∷ cs) (e ∷ es) h =
    let parts : (passport_entry c ≡ ok e) × (passport_entries cs ≡ ok es) = ground arith in
    (passport_entry-Shows c e parts.0, passport_entries-ShowAll cs es parts.1)

module _ (collation : Collation) where
  -- Each entry goes before all that follow it.
  abbrev pub Sorted : List PassportEntry → Type 0
  Sorted [] = Unit
  Sorted (x ∷ xs) = All (λ y. goes_before collation x y ≡ true) xs × Sorted xs

  insert_entry-perm :
      (x : PassportEntry) (xs : List PassportEntry) → Perm (insert_entry collation x xs) (x ∷ xs)
  unfolding insert_entry
  insert_entry-perm x [] = Perm.refl (x ∷ [])
  insert_entry-perm x (y ∷ ys) = elim (Bool-cases (goes_before collation x y)) [
    | inl h ↦ rw h (Perm.refl (x ∷ y ∷ ys))
    | inr h ↦ rw h (Perm.trans (Perm.cons y (insert_entry-perm x ys)) (Perm.swap x y ys))
  ]

  sort_entries-perm : (xs : List PassportEntry) → Perm (sort_entries collation xs) xs
  unfolding sort_entries
  sort_entries-perm [] = Perm.refl []
  sort_entries-perm (x ∷ xs) =
      Perm.trans (insert_entry-perm x (sort_entries collation xs))
        (Perm.cons x (sort_entries-perm xs))

  before_trans :
      (x y z : PassportEntry)
      → goes_before collation x y ≡ true
      → goes_before collation y z ≡ true
      → goes_before collation x z ≡ true
  before_trans x y z h k = collation.trans _ _ _ h k

  after-before :
      (x y : PassportEntry) → goes_before collation x y ≡ false → goes_before collation y x ≡ true
  after-before x y h = collation.total _ _ h

  All-before :
      (x y : PassportEntry) (ys : List PassportEntry)
      → goes_before collation x y ≡ true
      → All (λ z. goes_before collation y z ≡ true) ys
      → All (λ z. goes_before collation x z ≡ true) ys
  All-before x y [] h a = tt
  All-before x y (z ∷ zs) h a = (before_trans x y z h a.0, All-before x y zs h a.1)

  All-insert :
      (x y : PassportEntry) (ys : List PassportEntry)
      → goes_before collation y x ≡ true
      → All (λ z. goes_before collation y z ≡ true) ys
      → All (λ z. goes_before collation y z ≡ true) (insert_entry collation x ys)
  unfolding insert_entry
  All-insert x y [] h a = (h, tt)
  All-insert x y (z ∷ zs) h a = elim (Bool-cases (goes_before collation x z)) [
    | inl e ↦ rw e (h, a)
    | inr e ↦ rw e (a.0, All-insert x y zs h a.1)
  ]

  insert_entry-Sorted :
      (x : PassportEntry) (xs : List PassportEntry)
      → Sorted xs
      → Sorted (insert_entry collation x xs)
  unfolding insert_entry
  insert_entry-Sorted x [] s = (tt, tt)
  insert_entry-Sorted x (y ∷ ys) s = elim (Bool-cases (goes_before collation x y)) [
    | inl e ↦ rw e ((e, All-before x y ys e s.0), s)
    | inr e ↦ rw e (All-insert x y ys (after-before x y e) s.0, insert_entry-Sorted x ys s.1)
  ]

  sort_entries-Sorted : (xs : List PassportEntry) → Sorted (sort_entries collation xs)
  unfolding sort_entries
  sort_entries-Sorted [] = tt
  sort_entries-Sorted (x ∷ xs) =
      insert_entry-Sorted x (sort_entries collation xs) (sort_entries-Sorted xs)

  -- The projection shows every credential of the subject, and nothing else: its entries are those of
  -- the subject's credentials, one for each, in some order; this order is that of the intended time of
  -- issuance. An entry is `revoked` exactly for a revoked credential, and `pending_confirmation`
  -- exactly for an issued one that no ledger has confirmed.
  pub project_passport_lem :
      (subject : String) (cs : List CredentialRecord) {p : PassportProjection}
      → project_passport collation subject cs ≡ ok p
      → (es : List PassportEntry) × ShowAll (credentials_of subject cs) es
        × Perm p.entries es
        × Sorted p.entries
        × (p.subject_id ≡ subject)
  unfolding project_passport
  project_passport_lem subject cs {p} h = shown (passport_entries (credentials_of subject cs)) refl
    where
      shown :
          (r : Result (List PassportEntry))
          → passport_entries (credentials_of subject cs) ≡ r
          → (es : List PassportEntry) × ShowAll (credentials_of subject cs) es
            × Perm p.entries es
            × Sorted p.entries
            × (p.subject_id ≡ subject)
      shown (ok es) e =
          let built : p ≡ record { subject_id = subject; entries = sort_entries collation es } =
            ground (arith, e) in
          (
            es,
            passport_entries-ShowAll (credentials_of subject cs) es e,
            rw built (sort_entries-perm es),
            rw built (sort_entries-Sorted es),
            rw built,
          )
      shown (err c) e = absurd (ground (arith, e))

group_at-set :
    (event at : String) (list : List PassportEntry) (m : JsMap (List PassportEntry))
    → group_at event (set at list m) ≡ (if at == event then list else group_at event m)
group_at-set event at list m = ground (arith, get-set at event list m)

one_more :
    (event : String) (x : PassportEntry) (m : JsMap (List PassportEntry))
    (rest : List PassportEntry)
    → (if x.event_id == event then group_at x.event_id m ++ x ∷ [] else group_at event m) ++ rest
      ≡ group_at event m ++ (if x.event_id == event then x ∷ rest else rest)
one_more event x m rest = elim (Bool-cases (x.event_id == event)) [
  | inl e ↦ rw e (
      append_assoc (group_at x.event_id m) (x ∷ []) rest
      ∙ ap (λ k. group_at k m ++ x ∷ rest) (eq_of_beq e))
  | inr e ↦ rw e
]

group_at-entries :
    (event : String) (m : JsMap (List PassportEntry)) (es : List PassportEntry)
    → group_at event (group_entries m es) ≡ group_at event m ++ select (λ x. x.event_id == event) es
unfolding group_entries
group_at-entries event m [] = sym (append-nil (group_at event m))
group_at-entries event m (x ∷ xs) =
    group_at-entries event (set x.event_id (group_at x.event_id m ++ x ∷ []) m) xs
    ∙ ap (λ l. l ++ select (λ y. y.event_id == event) xs)
        (group_at-set event x.event_id (group_at x.event_id m ++ x ∷ []) m)
    ∙ one_more event x m (select (λ y. y.event_id == event) xs)

-- Grouping by event partitions the entries: the group of an event holds the entries of that event, all
-- of them, in the order of the passport.
pub group_by_event_lem :
    (p : PassportProjection) (event : String)
    → group_at event (group_by_event p) ≡ select (λ x. x.event_id == event) p.entries
unfolding group_by_event get
group_by_event_lem p event = group_at-entries event [] p.entries
