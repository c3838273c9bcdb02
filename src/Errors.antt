-- ===== src/Errors.antt =====
-- core/errors.py: the error codes and the exception that every domain error is. The message, the
-- details and the trace id of an error are not modelled. `python_error` is any other exception that
-- the code lets through, such as the `ValueError` of `int`.
use mock_sim.Base.{ℕ}

pub data ErrorCode : Type 0 where
  idempotency_key_required idempotency_conflict invalid_iban invalid_currency : ErrorCode
  currency_mismatch sharia_violation invalid_target_url validation_error : ErrorCode
  account_not_found account_dormant account_closed insufficient_funds : ErrorCode
  mandate_not_found mandate_expired mandate_not_active amount_exceeds_limit : ErrorCode
  payment_not_found merchant_not_found insufficient_scope internal_error : ErrorCode
  forbidden_code invalid_api_key not_implemented : ErrorCode

pub data Error : Type 0 where
  mock_sim_error : ℕ → ErrorCode → Error
  python_error : Error

abbrev pub bad_request : ErrorCode → Error
bad_request = mock_sim_error 400

abbrev pub not_found : ErrorCode → Error
not_found = mock_sim_error 404

abbrev pub conflict : ErrorCode → Error
conflict = mock_sim_error 409

abbrev pub unprocessable : ErrorCode → Error
unprocessable = mock_sim_error 422

abbrev pub forbidden : Error
forbidden = mock_sim_error 403 forbidden_code

abbrev pub internal : Error
internal = mock_sim_error 500 internal_error
