-- ===== src/Tenancy/Grants.antt =====
-- The ways past the middleware (core/tenancy.py, `TenancyMiddleware`).
use mock_sim.Base.{
  ℕ, ◌≡◌, refl, subst, ◌⊎◌, inl, inr, true, false, not, ◌&&◌, Option, none, some, List, [], ◌∷◌,
  Text, text_eq, text_eq_iff, is_member, starts_with, starts_with_any, first, codes, ◌++◌, Bool,
  if◌then◌else◌, Bool-cases, &&_split, arith,
}
use mock_sim.Models.{ApiKey, KeyStatus}
use mock_sim.Idempotency.{strip}
use mock_sim.Tenancy.{
  Request, Gate, RequestState, granted, public_paths, public_prefixes, auth_me_path, admin_prefix,
  bearer, bearer_token, is_empty_text, has_active_session, is_key, is_active_key, resolve_tenant,
  admin_state, auth_error, open_path, Access, acting_state, key_state, handle_admin, acting, act_as,
  resolved, with_key, handle_tenant, dispatch,
}

-- None of the paths that need no authentication.
pub record IsProtected (r : Request) : Type 0 where
  pub no_path : is_member r.path public_paths ≡ false
  pub no_prefix : starts_with_any public_prefixes r.path ≡ false
  pub not_me : text_eq r.path auth_me_path ≡ false

abbrev pub Stands : ApiKey → List ApiKey → Type 0
Stands k [] = ⊥
Stands k (j ∷ rest) = (j ≡ k) ⊎ Stands k rest

-- The tenant and the scopes of a state, and whether an operator's session gave it.
abbrev pub IsState : RequestState → Option ℕ → List Text → Bool → Type 0
IsState s tenant scopes by_session =
    (s.mock_tenant_id ≡ tenant) × (s.scopes ≡ scopes) × (s.admin_session ≡ by_session)

same-IsState : (s t : RequestState) → s ≡ t → IsState s t.mock_tenant_id t.scopes t.admin_session
same-IsState s t e = rw e (refl, refl, refl)

-- Who may pass, and with which state.
pub data Grant (g : Gate) (r : Request) (s : RequestState) : Type 0 where
  -- an operator, on a path of the administration
  operator :
      starts_with admin_prefix r.path ≡ true
      → has_active_session r ≡ true
      → IsState s none [] true
      → Grant g r s
  -- the bearer of the administration's token, which is not empty
  admin_token :
      starts_with admin_prefix r.path ≡ true
      → has_active_session r ≡ false
      → is_empty_text g.admin_token ≡ false
      → bearer_token r ≡ g.admin_token
      → IsState s none [] false
      → Grant g r s
  -- an operator who names a tenant
  acting_as :
      (tenant : ℕ)
      → starts_with admin_prefix r.path ≡ false
      → has_active_session r ≡ true
      → is_empty_text (strip r.act_as_tenant) ≡ false
      → g.uuid_of (strip r.act_as_tenant) ≡ some tenant
      → IsState s (some tenant) (codes "admin.*" ∷ []) true
      → Grant g r s
  -- the bearer of a key whose hash is that of an active row
  api_key :
      (k : ApiKey)
      → starts_with admin_prefix r.path ≡ false
      → has_active_session r ≡ false
      → starts_with bearer r.authorization ≡ true
      → is_empty_text (bearer_token r) ≡ false
      → Stands k g.api_keys
      → k.key_hash ≡ g.sha256 (bearer_token r)
      → k.status ≡ KeyStatus.active
      → IsState s (some k.mock_tenant_id) k.scopes false
      → Grant g r s

is_active_key-eq : (st : KeyStatus) → is_active_key st ≡ true → st ≡ KeyStatus.active
is_active_key-eq KeyStatus.active h = refl
is_active_key-eq KeyStatus.rotated h = cc
is_active_key-eq KeyStatus.revoked h = cc

first_key :
    (hash : Text) (keys : List ApiKey) (k : ApiKey)
    → first (is_key hash) keys ≡ some k
    → Stands k keys × (k.key_hash ≡ hash) × (k.status ≡ KeyStatus.active)
first_key hash [] k e = cc
first_key hash (j ∷ rest) k e = elim (Bool-cases (is_key hash j)) [
  | inr miss ↦
      let (stands, same, active) = first_key hash rest k (rw miss at e) in
      (inr stands, same, active)
  | inl hit ↦
      let found : some j ≡ some k = rw hit at e in
      let j≡k : j ≡ k = cc in
      let (same, active) = &&_split (text_eq j.key_hash hash) (is_active_key j.status) hit in
      subst (λ x. (Stands x (j ∷ rest)) × (x.key_hash ≡ hash) × (x.status ≡ KeyStatus.active)) j≡k
        (inl refl, (text_eq_iff j.key_hash hash).0 same, is_active_key-eq j.status active)
]

granted-eq : (s t : RequestState) → granted s ≡ granted t → t ≡ s
granted-eq s t e = cc

module _ (g : Gate) (r : Request) (s : RequestState) where
  handle_admin-Grant :
      starts_with admin_prefix r.path ≡ true → handle_admin g r ≡ granted s → Grant g r s
  unfolding handle_admin
  handle_admin-Grant on_admin e = elim (Bool-cases (has_active_session r)) [
    | inl user ↦
        operator on_admin user
          (same-IsState s (admin_state true) (granted-eq (admin_state true) s (rw user at e)))
    | inr no_user ↦
        let token = bearer_token r in
        elim (Bool-cases (not (is_empty_text token) && text_eq token g.admin_token)) [
          | inr wrong ↦ cc (rw (no_user, wrong) at e)
          | inl right ↦
              let (full, same) =
                &&_split (not (is_empty_text token)) (text_eq token g.admin_token) right in
              let token≡ : token ≡ g.admin_token = (text_eq_iff token g.admin_token).0 same in
              admin_token on_admin no_user (not_empty (rw token≡ at full)) token≡ (
                same-IsState s (admin_state false)
                  (granted-eq (admin_state false) s (rw (no_user, right) at e)))
        ]
  ]
    where
      not_empty : not (is_empty_text g.admin_token) ≡ true → is_empty_text g.admin_token ≡ false
      not_empty h = ground arith

  acting-ok :
      (o : Option ℕ)
      → acting r o ≡ granted s
      → (tenant : ℕ) × (o ≡ some tenant) × (s ≡ acting_state r tenant)
  unfolding acting
  acting-ok none e = cc
  acting-ok (some tenant) e = (tenant, refl, granted-eq _ s e)

  act_as-Grant :
      (text : Text)
      → strip r.act_as_tenant ≡ text
      → starts_with admin_prefix r.path ≡ false
      → has_active_session r ≡ true
      → act_as g r text ≡ granted s
      → Grant g r s
  unfolding act_as
  act_as-Grant [] is_text off_admin user e = cc
  act_as-Grant (c ∷ text) is_text off_admin user e =
      let (tenant, named, state) = acting-ok (g.uuid_of (c ∷ text)) e in
      acting_as tenant off_admin user (rw is_text) (rw is_text named)
        (same-IsState s (acting_state r tenant) state)

  resolved-ok :
      (o : Option ApiKey)
      → resolved r o ≡ granted s
      → (k : ApiKey) × (o ≡ some k) × (s ≡ key_state r k)
  unfolding resolved
  resolved-ok none e = cc
  resolved-ok (some k) e = (k, refl, granted-eq _ s e)

  with_key-Grant :
      (token : Text)
      → bearer_token r ≡ token
      → starts_with admin_prefix r.path ≡ false
      → has_active_session r ≡ false
      → starts_with bearer r.authorization ≡ true
      → with_key g r token ≡ granted s
      → Grant g r s
  unfolding with_key resolve_tenant
  with_key-Grant [] is_token off_admin no_user has_bearer e = cc
  with_key-Grant (c ∷ raw_key) is_token off_admin no_user has_bearer e =
      let hash = g.sha256 (c ∷ raw_key) in
      let (k, found, state) = resolved-ok (first (is_key hash) g.api_keys) e in
      let (stands, same, active) = first_key hash g.api_keys k found in
      api_key k off_admin no_user has_bearer (rw is_token) stands (rw is_token same) active
        (same-IsState s (key_state r k) state)

  handle_tenant-Grant :
      starts_with admin_prefix r.path ≡ false → handle_tenant g r ≡ granted s → Grant g r s
  unfolding handle_tenant
  handle_tenant-Grant off_admin e = elim (Bool-cases (has_active_session r)) [
    | inl user ↦ act_as-Grant (strip r.act_as_tenant) refl off_admin user (rw user at e)
    | inr no_user ↦ elim (Bool-cases (starts_with bearer r.authorization)) [
      | inl has_bearer ↦
          with_key-Grant (bearer_token r) refl off_admin no_user has_bearer
            (rw (no_user, has_bearer) at e)
      | inr no_bearer ↦ cc (rw (no_user, no_bearer) at e)
    ]
  ]

dispatch-granted :
    (g : Gate) (r : Request) (s : RequestState)
    → dispatch g r ≡ granted s
    → IsProtected r × Grant g r s
unfolding dispatch
dispatch-granted g r s e = elim (Bool-cases (is_member r.path public_paths)) [
  | inl public ↦ cc (rw public at e)
  | inr private ↦ elim (Bool-cases (starts_with_any public_prefixes r.path)) [
    | inl public ↦ cc (rw (private, public) at e)
    | inr closed ↦ elim (Bool-cases (text_eq r.path auth_me_path)) [
      | inl me ↦ cc (rw (private, closed, me) at e)
      | inr other ↦
          let checked : IsProtected r = record {
            no_path = private;
            no_prefix = closed;
            not_me = other;
          } in
          elim (Bool-cases (starts_with admin_prefix r.path)) [
            | inl on_admin ↦ (
              checked,
              handle_admin-Grant g r s on_admin (rw (private, closed, other, on_admin) at e),
            )
            | inr off_admin ↦ (
              checked,
              handle_tenant-Grant g r s off_admin (rw (private, closed, other, off_admin) at e),
            )
          ]
    ]
  ]
]

-- The paths of the program's routers for the two surfaces and for the administration.
pub data IsGuarded (path : Text) : Type 0 where
  pos : (rest : Text) → path ≡ codes "/api/v1/pos" ++ rest → IsGuarded path
  bank : (rest : Text) → path ≡ codes "/api/v1/bank" ++ rest → IsGuarded path
  admin : (rest : Text) → path ≡ codes "/api/v1/admin" ++ rest → IsGuarded path

IsGuarded-IsProtected : (r : Request) → IsGuarded r.path → IsProtected r
unfolding text_eq is_member starts_with starts_with_any
IsGuarded-IsProtected r (pos rest e) = record { no_path = rw e; no_prefix = rw e; not_me = rw e }
IsGuarded-IsProtected r (bank rest e) = record { no_path = rw e; no_prefix = rw e; not_me = rw e }
IsGuarded-IsProtected r (admin rest e) = record { no_path = rw e; no_prefix = rw e; not_me = rw e }

-- An answer that lets nobody pass without a grant: no path is open, and a refusal is of one of the
-- two statuses.
abbrev pub Justified : Gate → Request → Access → Type 0
Justified g r (auth_error status) = (status ≡ 400) ⊎ (status ≡ 401)
Justified g r open_path = ⊥
Justified g r (granted s) = Grant g r s

-- The part of it that names no grant.
abbrev IsClosed : Access → Type 0
IsClosed (auth_error status) = (status ≡ 400) ⊎ (status ≡ 401)
IsClosed open_path = ⊥
IsClosed (granted s) = Unit

module _ (g : Gate) (r : Request) where
  acting-IsClosed : (o : Option ℕ) → IsClosed (acting r o)
  unfolding acting
  acting-IsClosed none = inl refl
  acting-IsClosed (some tenant) = tt

  act_as-IsClosed : (text : Text) → IsClosed (act_as g r text)
  unfolding act_as
  act_as-IsClosed [] = inl refl
  act_as-IsClosed (c ∷ text) = acting-IsClosed (g.uuid_of (c ∷ text))

  resolved-IsClosed : (o : Option ApiKey) → IsClosed (resolved r o)
  unfolding resolved
  resolved-IsClosed none = inr refl
  resolved-IsClosed (some k) = tt

  with_key-IsClosed : (token : Text) → IsClosed (with_key g r token)
  unfolding with_key
  with_key-IsClosed [] = inr refl
  with_key-IsClosed (c ∷ raw_key) = resolved-IsClosed (resolve_tenant g (g.sha256 (c ∷ raw_key)))

  IsClosed-if : (b : Bool) (x y : Access) → IsClosed x → IsClosed y → IsClosed (if b then x else y)
  IsClosed-if true x y h k = h
  IsClosed-if false x y h k = k

  handle_tenant-IsClosed : IsClosed (handle_tenant g r)
  unfolding handle_tenant
  handle_tenant-IsClosed =
      IsClosed-if (has_active_session r) (act_as g r (strip r.act_as_tenant)) _
        (act_as-IsClosed (strip r.act_as_tenant))
        (IsClosed-if (starts_with bearer r.authorization) (with_key g r (bearer_token r))
          (auth_error 401) (with_key-IsClosed (bearer_token r)) (inr refl))

  handle_admin-IsClosed : IsClosed (handle_admin g r)
  unfolding handle_admin
  handle_admin-IsClosed =
      let token = bearer_token r in
      IsClosed-if (has_active_session r) (granted (admin_state true)) _ tt (
        IsClosed-if (not (is_empty_text token) && text_eq token g.admin_token)
          (granted (admin_state false)) (auth_error 401) tt (inr refl))

  dispatch-IsClosed : IsProtected r → IsClosed (dispatch g r)
  unfolding dispatch
  dispatch-IsClosed p =
      rw (p.no_path, p.no_prefix, p.not_me)
        (IsClosed-if (starts_with admin_prefix r.path) (handle_admin g r) (handle_tenant g r)
          handle_admin-IsClosed handle_tenant-IsClosed)

  justified : (a : Access) → dispatch g r ≡ a → IsClosed a → Justified g r a
  justified (auth_error status) e c = c
  justified open_path e c = c
  justified (granted s) e c = (dispatch-granted g r s e).1

  -- Whatever a request on a path of the two surfaces or of the administration is, it is refused with
  -- 400 or 401 or has been granted its state in one of four ways, and it never passes without: an
  -- operator or the administration's token on the paths of the administration, and elsewhere an
  -- operator who names a tenant or the bearer of an active key, who gets that key's tenant and scopes.
  pub dispatch-Justified : IsGuarded r.path → Justified g r (dispatch g r)
  dispatch-Justified guarded =
      justified (dispatch g r) refl (dispatch-IsClosed (IsGuarded-IsProtected r guarded))
