-- ===== src/Routes/Confirmations.antt =====
-- What a confirmed operation leaves in the database.
use culturago_stellar.Domain.Credentials.{CredentialRecord}
use culturago_stellar.Stellar.Commands.{Command, register, issue, revoke}
use culturago_stellar.Stellar.Operation.{OperationState}
use culturago_stellar.Stellar.Operation as Kind
use culturago_stellar.Routes.Actor.{given_text}
use culturago_stellar.Routes.Server.{Server}
use culturago_stellar.Routes.Submit.{issued_on_chain, revoked_on_chain}

-- The credential of a command, with what its confirmation makes of it.
abbrev pub changed : Command → OperationState → CredentialRecord → CredentialRecord
changed (register c) st r = r
changed (issue c) st r = issued_on_chain st r
changed (revoke c) st r = revoked_on_chain st (given_text c.reason_hash) r
