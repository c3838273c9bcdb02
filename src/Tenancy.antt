-- ===== src/Tenancy.antt =====
-- core/tenancy.py: how a request gets its tenant. The middleware answers by itself, or lets the
-- request pass with a state and with the tenant of the context, which it resets afterwards. A request
-- is its path, the headers that are read, with an absent one empty, and the user of its session. The
-- number that a text names as a UUID is a parameter.
pub mod Grants
mod Tests
use mock_sim.Base.{
  ℕ, ◌≡◌, Bool, true, false, not, ◌&&◌, ◌||◌, Option, none, some, List, [], ◌∷◌, Text, text_eq,
  codes, is_member, starts_with, starts_with_any, remove_prefix, first, if◌then◌else◌,
}
use mock_sim.Errors.{Error, forbidden}
use mock_sim.Models.{ApiKey, KeyStatus}
use mock_sim.Session.{Result, ok, err}
use mock_sim.Idempotency.{strip}

abbrev pub public_paths : List Text
public_paths = codes "/health" ∷ codes "/docs" ∷ codes "/openapi.json" ∷ codes "/redoc" ∷ []

abbrev pub public_prefixes : List Text
public_prefixes = codes "/ui" ∷ codes "/api/v1/auth/login" ∷ codes "/api/v1/auth/logout" ∷ []

abbrev pub admin_prefix : Text
admin_prefix = codes "/api/v1/admin"

abbrev pub auth_me_path : Text
auth_me_path = codes "/api/v1/auth/me"

abbrev pub bearer : Text
bearer = codes "Bearer "

pub record Request : Type 0 where
  pub path : Text
  pub authorization : Text
  pub act_as_tenant : Text
  pub trazmo_tenant_id : Option Text
  pub user_id : Option Text

-- What is read from outside: `settings.mocksim_admin_token`, SHA-256 in hex, `uuid.UUID` of a text,
-- and the table of keys.
pub record Gate : Type 0 where
  pub admin_token : Text
  pub sha256 : Text → Text
  pub uuid_of : Text → Option ℕ
  pub api_keys : List ApiKey

-- `request.state` behind the middleware
pub record RequestState : Type 0 where
  pub mock_tenant_id : Option ℕ
  pub scopes : List Text
  pub trazmo_tenant_id : Option Text
  pub admin_session : Bool

-- The answer of the middleware: an error with its status, or the request passes, with no state or
-- with one.
pub data Access : Type 0 where
  auth_error : ℕ → Access
  open_path : Access
  granted : RequestState → Access

abbrev pub is_empty_text : Text → Bool
is_empty_text [] = true
is_empty_text (c ∷ s) = false

-- `_has_active_session`: an empty user id counts as none.
unfoldable pub has_active_session : Request → Bool
has_active_session r = elim r.user_id [ none ↦ false | some u ↦ not (is_empty_text u) ]

abbrev pub is_active_key : KeyStatus → Bool
is_active_key KeyStatus.active = true
is_active_key KeyStatus.rotated = false
is_active_key KeyStatus.revoked = false

abbrev pub is_key : Text → ApiKey → Bool
is_key key_hash k = text_eq k.key_hash key_hash && is_active_key k.status

-- `_resolve_tenant`
unfoldable pub resolve_tenant : Gate → Text → Option ApiKey
resolve_tenant g key_hash = first (is_key key_hash) g.api_keys

-- What the middleware puts into `request.state`, in the three ways that it does.
abbrev pub admin_state : Bool → RequestState
admin_state by_session = record {
  mock_tenant_id = none;
  scopes = [];
  trazmo_tenant_id = none;
  admin_session = by_session;
}

abbrev pub acting_state : Request → ℕ → RequestState
acting_state r tenant = record {
  mock_tenant_id = some tenant;
  scopes = codes "admin.*" ∷ [];
  trazmo_tenant_id = r.trazmo_tenant_id;
  admin_session = true;
}

abbrev pub key_state : Request → ApiKey → RequestState
key_state r k = record {
  mock_tenant_id = some k.mock_tenant_id;
  scopes = k.scopes;
  trazmo_tenant_id = r.trazmo_tenant_id;
  admin_session = false;
}

abbrev pub bearer_token : Request → Text
bearer_token r = strip (remove_prefix bearer r.authorization)

-- `_handle_admin`
unfoldable pub handle_admin : Gate → Request → Access
handle_admin g r =
    let token = bearer_token r in
    if has_active_session r
    then granted (admin_state true)
    else if not (is_empty_text token) && text_eq token g.admin_token
    then granted (admin_state false)
    else auth_error 401

-- The two ways of `_handle_tenant`.
unfoldable pub acting : Request → Option ℕ → Access
acting r none = auth_error 400
acting r (some tenant) = granted (acting_state r tenant)

unfoldable pub act_as : Gate → Request → Text → Access
unfolding acting
act_as g r [] = auth_error 400
act_as g r (c ∷ text) = acting r (g.uuid_of (c ∷ text))

unfoldable pub resolved : Request → Option ApiKey → Access
resolved r none = auth_error 401
resolved r (some k) = granted (key_state r k)

unfoldable pub with_key : Gate → Request → Text → Access
unfolding resolved
with_key g r [] = auth_error 401
with_key g r (c ∷ raw_key) = resolved r (resolve_tenant g (g.sha256 (c ∷ raw_key)))

-- `_handle_tenant`
unfoldable pub handle_tenant : Gate → Request → Access
handle_tenant g r =
    if has_active_session r
    then act_as g r (strip r.act_as_tenant)
    else if starts_with bearer r.authorization
    then with_key g r (bearer_token r)
    else auth_error 401

-- `TenancyMiddleware.dispatch`
unfoldable pub dispatch : Gate → Request → Access
dispatch g r =
    if is_member r.path public_paths
    then open_path
    else if starts_with_any public_prefixes r.path
    then open_path
    else if text_eq r.path auth_me_path
    then open_path
    else if starts_with admin_prefix r.path
    then handle_admin g r
    else handle_tenant g r

-- The tenant of the context in which the request runs.
abbrev pub context_tenant : Access → Option ℕ
context_tenant (auth_error status) = none
context_tenant open_path = none
context_tenant (granted s) = s.mock_tenant_id

-- `require_scope`
unfoldable pub require_scope : Text → RequestState → Result (Unit {0})
require_scope scope s =
    if is_member scope s.scopes || is_member (codes "admin.*") s.scopes
    then ok tt
    else err forbidden
