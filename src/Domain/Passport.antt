-- ===== src/Domain/Passport.antt =====
-- The passport: a subject's credentials over all events (src/domain/passport/passport.ts).
pub mod Projection
use Prim.Native.Nat.{Ordering}
use culturago_stellar.Base.{
  ℕ, Bool, true, false, Option, none, some, String, List, [], ◌∷◌, ◌++◌, ◌==◌, text_eq, select,
  if◌then◌else◌, Result, ok, err, ◌>>=◌, JsMap, get, set, ◌≡◌, ◌⊎◌,
}
use culturago_stellar.Domain.Catalog.{credential_type_name}
use culturago_stellar.Domain.Credentials.{
  CredentialRecord, CredentialStatus-discrete, revoked, credential_status_eq,
}

pub data PassportEntryStatus : Type 0 where
  entry_issued entry_revoked entry_pending_confirmation : PassportEntryStatus

pub record PassportEntry : Type 0 where
  pub credential_id : String
  pub credential_code : String
  pub event_id : String
  pub credential_type : String
  pub status : PassportEntryStatus
  pub issued_intent_at : String
  pub issued_ledger : Option ℕ
  pub revoked_at : Option String

pub record PassportProjection : Type 0 where
  pub subject_id : String
  pub entries : List PassportEntry

abbrev unless_confirmed : Option ℕ → PassportEntryStatus
unless_confirmed none = entry_pending_confirmation
unless_confirmed (some ledger) = entry_issued

unfoldable pub entry_status : CredentialRecord → PassportEntryStatus
unfolding CredentialStatus-discrete
entry_status c = if c.status == revoked then entry_revoked else unless_confirmed c.issued_ledger

-- The function under `.map`; it throws where the type code is unknown.
unfoldable pub passport_entry : CredentialRecord → Result PassportEntry
unfolding entry_status
passport_entry c = do
  name ← credential_type_name c.credential_type
  ok (record {
    credential_id = c.credential_id;
    credential_code = c.credential_code;
    event_id = c.event_id;
    credential_type = name;
    status = entry_status c;
    issued_intent_at = c.issued_intent_at;
    issued_ledger = c.issued_ledger;
    revoked_at = c.revoked_at;
  })

unfoldable pub passport_entries : List CredentialRecord → Result (List PassportEntry)
passport_entries [] = ok []
passport_entries (c ∷ cs) = do
  entry ← passport_entry c
  entries ← passport_entries cs
  ok (entry ∷ entries)

unfoldable pub credentials_of : String → List CredentialRecord → List CredentialRecord
credentials_of subject_id = select (λ c. c.subject_id == subject_id)

-- A comparator's answer that is not positive.
abbrev pub not_after : Ordering → Bool
not_after Ordering.gt = false
not_after _ = true

-- `String.prototype.localeCompare` depends on the host's collation: a parameter, with the order laws
-- that a comparator of `sort` has to obey.
pub record Collation : Type 0 where
  pub locale_compare : String → String → Ordering
  pub total :
      (a b : String)
      → not_after (locale_compare a b) ≡ false
      → not_after (locale_compare b a) ≡ true
  pub trans :
      (a b c : String)
      → not_after (locale_compare a b) ≡ true
      → not_after (locale_compare b c) ≡ true
      → not_after (locale_compare a c) ≡ true

module _ (collation : Collation) where
  open collation use {locale_compare}

  abbrev pub goes_before : PassportEntry → PassportEntry → Bool
  goes_before a b = not_after (locale_compare a.issued_intent_at b.issued_intent_at)

  -- `Array.prototype.sort` is stable: insertion from the right keeps the order of equal entries.
  unfoldable pub insert_entry : PassportEntry → List PassportEntry → List PassportEntry
  insert_entry x [] = x ∷ []
  insert_entry x (y ∷ ys) = if goes_before x y then x ∷ y ∷ ys else y ∷ insert_entry x ys

  unfoldable pub sort_entries : List PassportEntry → List PassportEntry
  unfolding insert_entry
  sort_entries [] = []
  sort_entries (x ∷ xs) = insert_entry x (sort_entries xs)

  unfoldable pub project_passport : String → List CredentialRecord → Result PassportProjection
  unfolding credentials_of passport_entries sort_entries
  project_passport subject_id credentials = do
    entries ← passport_entries (credentials_of subject_id credentials)
    ok (record { subject_id = subject_id; entries = sort_entries entries })

-- `groups.get(event) ?? []`
abbrev pub group_at : String → JsMap (List PassportEntry) → List PassportEntry
group_at event m = elim (get event m) [ none ↦ [] | some list ↦ list ]

unfoldable pub group_entries :
    JsMap (List PassportEntry) → List PassportEntry → JsMap (List PassportEntry)
group_entries groups [] = groups
group_entries groups (entry ∷ entries) =
    group_entries (set entry.event_id (group_at entry.event_id groups ++ entry ∷ []) groups) entries

unfoldable pub group_by_event : PassportProjection → JsMap (List PassportEntry)
unfolding group_entries
group_by_event passport = group_entries [] passport.entries
