-- ===== src/Stellar/Tests/Admin.antt =====
-- The theorems on the admin's provisioning at concrete inputs.
use culturago_stellar.Base.{◌≡◌, ◌≢◌, refl, true, false, none, some, String, arith, eq_iff, get}
use culturago_stellar.Domain.Operations.{failed_retryable}
use culturago_stellar.Stellar.Operation.{StoredOperation}
use culturago_stellar.Stellar.Transport.{
  success, threw, done, thrown_value, raw_leaf, js_boolean, World,
}
use culturago_stellar.Stellar.Admin.{
  LocalSigner, link_issuer_operator, grant_issuer, build_specs, allowed_operation,
}
use culturago_stellar.Stellar.Admin.Service.{execute, recover}
use culturago_stellar.Stellar.Admin.Recovery.{Final, execute-Final, recover-known_hash}
use culturago_stellar.Stellar.Tests.{Script, scripted, config, host, operation_in, empty_store}

abbrev admin : LocalSigner
admin = record { public_key = "GADMIN"; secret = "SADMIN" }

abbrev provisioning : World Script
provisioning = record {
  store = empty_store;
  chain = record {
    simulation = record {
      needs_restore = false;
      prepared_xdr = "AAAA";
      latest_ledger = 7;
      contract_error = none;
    };
    submission = done "hash";
    status = success (some 8);
    back = raw_leaf (js_boolean true);
  };
}

abbrev fresh_id : String
fresh_id = "op7"

id_given : fresh_id ≢ ""
id_given = ground (arith, eq_iff fresh_id "")

execute-Final_example :
    Final config host admin scripted "op8" link_issuer_operator "COPERATOR" "issuer" (
      execute config host admin scripted fresh_id link_issuer_operator "COPERATOR" "issuer"
        provisioning)
unfolding get
execute-Final_example =
    execute-Final config host admin scripted fresh_id "op8" link_issuer_operator "COPERATOR"
      "issuer" provisioning id_given refl

abbrev sent_operation : StoredOperation
sent_operation = operation_in failed_retryable (some "hash")

recover-known_hash_example :
    recover config host admin scripted
      (build_specs config admin grant_issuer "COPERATOR" "issuer")
      sent_operation
      provisioning
    ≡ recover config host admin
        (record scripted {
          simulate = λ spec c. (c, threw thrown_value);
          submit = λ xdr c. (c, threw thrown_value);
        })
        (build_specs config admin grant_issuer "COPERATOR" "issuer")
        sent_operation
        provisioning
recover-known_hash_example =
    recover-known_hash config host admin scripted
      (build_specs config admin grant_issuer "COPERATOR" "issuer") sent_operation "hash"
      (λ spec c. (c, threw thrown_value)) (λ xdr c. (c, threw thrown_value)) provisioning refl

allowed : allowed_operation "link_issuer_operator" ≡ some link_issuer_operator
unfolding allowed_operation
allowed = refl

refused : allowed_operation "upgrade" ≡ none
unfolding allowed_operation
refused = refl
