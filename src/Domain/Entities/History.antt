-- ===== src/Domain/Entities/History.antt =====
-- The version history of an entity: numbered without gaps, extended and never rewritten.
use culturago_stellar.Base.{
  ℕ, zero, suc, ◌+◌, ◌-◌, ◌≤◌, ◌<◌, ◌≡◌, refl, none, some, String, List, [], ◌∷◌, ◌++◌, ok, arith,
  length, length-append, get_elem?, find, ◌==◌, number_eq, ◌∙◌, get_elem?-beyond,
}
use culturago_stellar.Domain.Entities.{
  EntityVersion, EntityRecord, EntityContentInput, register_entity, version_entity,
  deactivate_entity, new_version, get_entity_version,
}

-- The versions are numbered from `n` upwards.
abbrev pub Numbered : ℕ → List EntityVersion → Type 0
Numbered n [] = Unit {0}
Numbered n (v ∷ vs) = (v.version ≡ n) × Numbered (suc n) vs

pub record IsHistory (r : EntityRecord) : Type 0 where
  pub numbered : Numbered 1 r.versions
  pub counted : r.latest_version ≡ length r.versions
  pub started : 1 ≤ r.latest_version

Numbered-append :
    (n : ℕ) (vs : List EntityVersion) (v : EntityVersion)
    → Numbered n vs
    → v.version ≡ n + length vs
    → Numbered n (vs ++ v ∷ [])
Numbered-append n [] v h e = (omega (arith, e), tt)
Numbered-append n (w ∷ vs) v h e = (h.0, Numbered-append (suc n) vs v h.1 (omega (arith, e)))

pub register-IsHistory :
    (id : String) (input : EntityContentInput) {r : EntityRecord}
    → register_entity none id input ≡ ok r
    → IsHistory r
unfolding register_entity
register-IsHistory id input h = ground arith

pub version-IsHistory :
    (r : EntityRecord) (n : ℕ) (input : EntityContentInput) {q : EntityRecord}
    → IsHistory r
    → version_entity r n input ≡ ok q
    → IsHistory q
unfolding version_entity
version-IsHistory r n input v h = ground (
  arith,
  length-append r.versions (new_version (r.latest_version + 1) input ∷ []),
  Numbered-append 1 r.versions (new_version (r.latest_version + 1) input) v.numbered,
)

pub deactivate-IsHistory :
    (r : EntityRecord) (n : ℕ) {q : EntityRecord}
    → IsHistory r
    → deactivate_entity r n ≡ ok q
    → IsHistory q
unfolding deactivate_entity
deactivate-IsHistory r n v h = ground arith

pub find_version :
    (n k : ℕ) (vs : List EntityVersion) (i : ℕ)
    → Numbered n vs
    → k ≡ n + i
    → find (λ v. v.version == k) vs ≡ get_elem? vs i
find_version n k [] i h e = refl
find_version n k (v ∷ vs) zero h e = ground arith
find_version n k (v ∷ vs) (suc i) h e =
    ground (arith, find_version (suc n) k vs i h.1 (omega (arith, e)))

version-get_elem? :
    (n : ℕ) (vs : List EntityVersion) (i : ℕ)
    → Numbered n vs
    → i < length vs
    → (v : EntityVersion) × (get_elem? vs i ≡ some v) × (v.version ≡ n + i)
version-get_elem? n [] i h k = elim k [ ]
version-get_elem? n (v ∷ vs) zero h k = (v, refl, omega (arith, h.0))
version-get_elem? n (v ∷ vs) (suc i) h k =
    let (w, e, f) = version-get_elem? (suc n) vs i h.1 (omega arith) in (w, e, omega (arith, f))

-- What a well-formed record answers to a version number: the versions from 1 to the latest are all
-- there, each under its own number, and there is no other.
pub get_entity_version-total :
    (r : EntityRecord) (k : ℕ)
    → IsHistory r
    → (1 ≤ k
        → k ≤ r.latest_version
        → (v : EntityVersion) × (get_entity_version r k ≡ some v) × (v.version ≡ k))
      × (r.latest_version < k → get_entity_version r k ≡ none)
unfolding get_entity_version
get_entity_version-total r k h = (inside, outside)
  where
    inside :
        1 ≤ k
        → k ≤ r.latest_version
        → (v : EntityVersion) × (get_entity_version r k ≡ some v) × (v.version ≡ k)
    inside l u =
        let (v, e, f) =
          version-get_elem? 1 r.versions (k - 1) h.numbered (omega (arith, h.counted)) in
        (v, find_version 1 k r.versions (k - 1) h.numbered (omega arith) ∙ e, omega (arith, f))

    outside : r.latest_version < k → get_entity_version r k ≡ none
    outside u =
        find_version 1 k r.versions (k - 1) h.numbered (omega arith)
        ∙ get_elem?-beyond r.versions (k - 1) (omega (arith, h.counted))
