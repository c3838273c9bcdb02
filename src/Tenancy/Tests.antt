-- ===== src/Tenancy/Tests.antt =====
-- Tests and instances for core/tenancy.py: two keys of one tenant, of which one is revoked.
use mock_sim.Base.{
  ◌≡◌, refl, false, none, some, [], ◌∷◌, ◌++◌, Text, codes, text_eq, is_member, starts_with,
  starts_with_any, remove_prefix,
}
use mock_sim.Errors.{forbidden}
use mock_sim.Models.{ApiKey, KeyStatus}
use mock_sim.Session.{err}
use mock_sim.Idempotency.{strip, is_space}
use mock_sim.Tenancy.{
  Request, Gate, granted, auth_error, open_path, handle_admin, handle_tenant, has_active_session,
  with_key, resolved, resolve_tenant, admin_state, key_state, dispatch, require_scope,
}
use mock_sim.Tenancy.Grants.{Justified, bank, dispatch-Justified}

abbrev key : Text → KeyStatus → ApiKey
key hash status = record {
  key_hash = hash;
  mock_tenant_id = 5;
  name = codes "dev";
  scopes = codes "pos.*" ∷ [];
  rate_limit_profile = none;
  status = status;
  created_at = 0;
  rotated_from = none;
}

abbrev gate : Gate
gate = record {
  admin_token = codes "root";
  sha256 = λ t. codes "h" ++ t;
  uuid_of = λ t. some 9;
  api_keys = key (codes "hold") KeyStatus.revoked ∷ key (codes "hnew") KeyStatus.active ∷ [];
}

abbrev asks : Text → Text → Request
asks path authorization = record {
  path = path;
  authorization = authorization;
  act_as_tenant = [];
  trazmo_tenant_id = none;
  user_id = none;
}

abbrev with_new_key : Request
with_new_key = asks (codes "/api/v1/bank/accounts") (codes "Bearer new")

revoked_key :
    dispatch gate (asks (codes "/api/v1/bank/accounts") (codes "Bearer old")) ≡ auth_error 401
unfolding dispatch handle_tenant has_active_session with_key resolved resolve_tenant is_member
    starts_with starts_with_any remove_prefix strip is_space text_eq
revoked_key = refl

health : dispatch gate (asks (codes "/health") []) ≡ open_path
unfolding dispatch is_member text_eq
health = refl

admin_by_token :
    dispatch gate (asks (codes "/api/v1/admin/clock") (codes "Bearer root"))
    ≡ granted (admin_state false)
unfolding dispatch handle_admin has_active_session is_member starts_with starts_with_any
    remove_prefix strip is_space text_eq
admin_by_token = refl

missing_scope :
    require_scope (codes "bank.*") (key_state with_new_key (key (codes "hnew") KeyStatus.active))
    ≡ err forbidden
unfolding require_scope is_member text_eq
missing_scope = refl

dispatch-Justified_example : Justified gate with_new_key (dispatch gate with_new_key)
dispatch-Justified_example = dispatch-Justified gate with_new_key (bank (codes "/accounts") refl)
