-- ===== src/Idempotency/Tests.antt =====
-- Tests and instances for core/idempotency.py.
use mock_sim.Base.{◌≡◌, refl, some, codes}
use mock_sim.Errors.{bad_request, idempotency_key_required}
use mock_sim.Session.{ok, err}
use mock_sim.Idempotency.{require_idempotency_key, check_key, strip, is_space}

a_blank_key :
    require_idempotency_key (some (codes "  ")) ≡ err (bad_request idempotency_key_required)
unfolding require_idempotency_key check_key strip is_space
a_blank_key = refl

a_key : require_idempotency_key (some (codes " k1 ")) ≡ ok (codes "k1")
unfolding require_idempotency_key check_key strip is_space
a_key = refl
