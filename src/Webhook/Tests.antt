-- ===== src/Webhook/Tests.antt =====
-- Tests and instances for core/webhook.py, with a signature that is one letter.
use mock_sim.Base.{◌≡◌, refl, true, false, some, Text, codes, dict_get, arith}
use mock_sim.Models.{per_event}
use mock_sim.Webhook.{webhook_headers, verify_signature, outcome, status}
use mock_sim.Webhook.Signed.{verify_signature-sign}

abbrev one_letter : Text → Text → Text
one_letter k m = codes "a"

-- A consumer's error is a failure, with a text that says it is not to be retried.
client_error : (outcome (status 410)).0 ≡ false
unfolding outcome
client_error = refl

verify_signature-sign_example :
    (header : Text) × (dict_get (codes "MockSim-Signature") (
        webhook_headers one_letter per_event
          (codes "secret")
          7_500_000
          (codes "{}")
          (codes "E")
          (codes "bank.payment")
          (codes "P"))
      ≡ some header)
    × (verify_signature one_letter 9_000_000 (codes "secret") header (codes "{}") 300 ≡ true)
verify_signature-sign_example =
    verify_signature-sign one_letter (λ k m. (refl, tt)) (λ k m e. cc e) (codes "secret")
      (codes "{}") (codes "E") (codes "bank.payment") (codes "P") 7_500_000 9_000_000 300
      (omega arith) (omega arith)
