-- ===== src/Domain/Tests.antt =====
-- Sample data for the concrete inputs of the domain layer.
pub mod Phases
pub mod Entities
pub mod Credentials
pub mod Relationships
use culturago_stellar.Base.{◌≡◌, refl, String, true}
use culturago_stellar.Domain.Entities.{is_hex64}

abbrev pub digest : String
digest = "e3b0c44298fc1c149afbf4c8996fb92427ae41e4649b934ca495991b7852b855"

abbrev pub other_digest : String
other_digest = "00b0c44298fc1c149afbf4c8996fb92427ae41e4649b934ca495991b7852b855"

pub digest_is_hex64 : is_hex64 digest ≡ true
unfolding is_hex64
digest_is_hex64 = refl
