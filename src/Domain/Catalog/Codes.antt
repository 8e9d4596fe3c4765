-- ===== src/Domain/Catalog/Codes.antt =====
-- Codes and names of credential types are inverse to one another.
use culturago_stellar.Base.{ℕ, zero, suc, ◌≤◌, ◌≡◌, refl, ◌↔◌, String, ok, ok_inj, arith, eq_iff}
use culturago_stellar.Domain.Catalog.{credential_type_code, credential_type_name}

code→name :
    (name : String) (code : ℕ)
    → credential_type_code name ≡ ok code
    → credential_type_name code ≡ ok name
unfolding credential_type_code credential_type_name
code→name name code h = ground (
  arith,
  eq_iff "dancer_participant" name,
  eq_iff "school_participant" name,
  eq_iff "teacher_director" name,
  eq_iff "official_photographer" name,
  eq_iff "official_videographer" name,
  eq_iff "venue_sponsor" name,
)

name→code :
    (code : ℕ) (name : String)
    → credential_type_name code ≡ ok name
    → credential_type_code name ≡ ok code
unfolding credential_type_code credential_type_name
name→code zero name h = cc
name→code (suc zero) name h = rw (← ok_inj h) refl
name→code (suc (suc zero)) name h = rw (← ok_inj h) refl
name→code (suc (suc (suc zero))) name h = rw (← ok_inj h) refl
name→code (suc (suc (suc (suc zero)))) name h = rw (← ok_inj h) refl
name→code (suc (suc (suc (suc (suc zero))))) name h = rw (← ok_inj h) refl
name→code (suc (suc (suc (suc (suc (suc zero)))))) name h = rw (← ok_inj h) refl
name→code (suc (suc (suc (suc (suc (suc (suc code))))))) name h = ground arith

-- The two lookups are inverse: a name has a code exactly when that code has the name.
pub credential_type_round_trip :
    (name : String) (code : ℕ)
    → (credential_type_code name ≡ ok code) ↔ (credential_type_name code ≡ ok name)
credential_type_round_trip name code = (code→name name code, name→code code name)

code_bounds :
    (name : String) (code : ℕ) → credential_type_code name ≡ ok code → (1 ≤ code) × (code ≤ 6)
unfolding credential_type_code
code_bounds name code h = ground arith

named : (code : ℕ) → 1 ≤ code → code ≤ 6 → (name : String) × (credential_type_name code ≡ ok name)
unfolding credential_type_name
named zero h k = absurd (omega arith)
named (suc zero) h k = ("dancer_participant", refl)
named (suc (suc zero)) h k = ("school_participant", refl)
named (suc (suc (suc zero))) h k = ("teacher_director", refl)
named (suc (suc (suc (suc zero)))) h k = ("official_photographer", refl)
named (suc (suc (suc (suc (suc zero))))) h k = ("official_videographer", refl)
named (suc (suc (suc (suc (suc (suc zero)))))) h k = ("venue_sponsor", refl)
named (suc (suc (suc (suc (suc (suc (suc code))))))) h k = absurd (omega arith)

-- The codes in use are 1 to 6: a name's code lies in this range, and each code of the range has a
-- name.
pub credential_type_codes :
    ((name : String) (code : ℕ) → credential_type_code name ≡ ok code → (1 ≤ code) × (code ≤ 6))
    × ((code : ℕ) → 1 ≤ code → code ≤ 6 → (name : String) × (credential_type_name code ≡ ok name))
credential_type_codes = (code_bounds, named)
