-- ===== src/Session/Rules.antt =====
-- Reasoning about sessions: what a session keeps, which sessions only read, and the inversion of a
-- chain that has succeeded.
use mock_sim.Base.{◌≡◌, refl, sym, [], ◌++◌, ◌∙◌, subst, Bool, Option, none, some, ap}
use mathlib.Core.List.{append-nil}
use mock_sim.Errors.{Error}
use mock_sim.Session.{
  Db, Session, Result, ok, err, pure, raise, gets, or_raise, lift, raise_if, ◌>>=◌, transaction,
  close_session, flush, continue_with,
}

-- A property of the state that a session keeps, also where it raises.
pub record Keeps {A : Type 0} (P : Db → Type 0) (m : Session A) : Type 0 where
  pub at : (d : Db) → P d → P (m d).1

-- A session that leaves the state as it is.
pub record ReadsOnly {A : Type 0} (m : Session A) : Type 0 where
  pub same : (d : Db) → (m d).1 ≡ d

module _ {A : Type 0} where
  pub ReadsOnly-pure : (a : A) → ReadsOnly (pure a)
  ReadsOnly-pure a = record { same = λ d. refl }

  pub ReadsOnly-raise : (e : Error) → ReadsOnly (raise {A = A} e)
  ReadsOnly-raise e = record { same = λ d. refl }

  pub ReadsOnly-gets : (f : Db → A) → ReadsOnly (gets f)
  ReadsOnly-gets f = record { same = λ d. refl }

  pub ReadsOnly-lift : (r : Result A) → ReadsOnly (lift r)
  ReadsOnly-lift r = record { same = λ d. refl }

  pub ReadsOnly-or_raise : (o : Option A) (e : Error) → ReadsOnly (or_raise o e)
  ReadsOnly-or_raise none e = record { same = λ d. refl }
  ReadsOnly-or_raise (some a) e = record { same = λ d. refl }

  pub ReadsOnly-Keeps : (P : Db → Type 0) (m : Session A) → ReadsOnly m → Keeps P m
  ReadsOnly-Keeps P m r = record { at = λ d h. subst P (sym (r.same d)) h }

pub ReadsOnly-raise_if : (c : Bool) (e : Error) → ReadsOnly (raise_if c e)
ReadsOnly-raise_if c e = record { same = λ d. refl }

module _ {A B : Type 0} where
  bind_same :
      (f : A → Session B) (r : Result A) (d d' : Db)
      → d' ≡ d
      → ((a : A) → ReadsOnly (f a))
      → (continue_with r f d').1 ≡ d
  bind_same f (ok a) d d' e h = (h a).same d' ∙ e
  bind_same f (err x) d d' e h = e

  pub ReadsOnly-bind :
      (m : Session A) (f : A → Session B)
      → ReadsOnly m
      → ((a : A) → ReadsOnly (f a))
      → ReadsOnly (m >>= f)
  ReadsOnly-bind m f r h = record { same = λ d. bind_same f (m d).0 d (m d).1 (r.same d) h }

  bind_keeps :
      (P : Db → Type 0) (f : A → Session B) (r : Result A) (d : Db)
      → P d
      → ((a : A) → Keeps P (f a))
      → P (continue_with r f d).1
  bind_keeps P f (ok a) d p h = (h a).at d p
  bind_keeps P f (err e) d p h = p

  pub Keeps-bind :
      (P : Db → Type 0) (m : Session A) (f : A → Session B)
      → Keeps P m
      → ((a : A) → Keeps P (f a))
      → Keeps P (m >>= f)
  Keeps-bind P m f k h = record { at = λ d p. bind_keeps P f (m d).0 (m d).1 (k.at d p) h }

  pub Keeps-lift :
      (P : Db → Type 0) (r : Result A) (f : A → Session B)
      → ((a : A) → r ≡ ok a → Keeps P (f a))
      → Keeps P (lift r >>= f)
  Keeps-lift P (ok a) f h = record { at = λ d p. (h a refl).at d p }
  Keeps-lift P (err e) f h = record { at = λ d p. p }

  -- A chain has succeeded: so has its head, and the rest from where that ended.
  pub record BindOk (m : Session A) (f : A → Session B) (d : Db) (b : B) (d' : Db) : Type 0 where
    pub value : A
    pub state : Db
    pub head : m d ≡ (ok value, state)
    pub rest : f value state ≡ (ok b, d')

  bind_ok :
      (m : Session A) (f : A → Session B) (d : Db) (b : B) (d' : Db) (r : Result A) (s : Db)
      → m d ≡ (r, s)
      → continue_with r f s ≡ (ok b, d')
      → BindOk m f d b d'
  bind_ok m f d b d' (ok a) s h k = record { value = a; state = s; head = h; rest = k }
  bind_ok m f d b d' (err e) s h k = cc

  pub >>=-eq-ok :
      (m : Session A) (f : A → Session B) (d : Db) (b : B) (d' : Db)
      → (m >>= f) d ≡ (ok b, d')
      → BindOk m f d b d'
  >>=-eq-ok m f d b d' h = bind_ok m f d b d' (m d).0 (m d).1 refl h

-- The same for a session that only reads: the rest starts from the state at hand.
pub >>=-eq-ok_reads :
    {A B : Type 0} (m : Session A) (f : A → Session B) (d : Db) (b : B) (d' : Db)
    → ReadsOnly m
    → (m >>= f) d ≡ (ok b, d')
    → (a : A) × (m d ≡ (ok a, d)) × (f a d ≡ (ok b, d'))
>>=-eq-ok_reads m f d b d' r h =
    let inverted = >>=-eq-ok m f d b d' h in
    let same : inverted.state ≡ d = sym (ap (λ p. p.1) inverted.head) ∙ r.same d in
    (inverted.value, rw same at inverted.head, rw same at inverted.rest)

-- A transaction that raises has changed nothing, and one that returns has what the session wrote.
pub transaction-err :
    {A : Type 0} (m : Session A) (d : Db) (e : Error)
    → (transaction m d).0 ≡ err e
    → (transaction m d).1 ≡ d
transaction-err {A} m d e h = closed (m d).0 (m d).1 h
  where
    closed : (r : Result A) (s : Db) → (close_session r d s).0 ≡ err e → (close_session r d s).1 ≡ d
    closed (ok a) s q = cc
    closed (err x) s q = refl

pub transaction-ok :
    {A : Type 0} (m : Session A) (d : Db) (a : A)
    → (transaction m d).0 ≡ ok a
    → (s : Db) × (m d ≡ (ok a, s)) × (transaction m d ≡ (ok a, flush s))
transaction-ok {A} m d a h = closed (m d).0 (m d).1 refl h
  where
    closed :
        (r : Result A) (s : Db)
        → m d ≡ (r, s)
        → (close_session r d s).0 ≡ ok a
        → (t : Db) × (m d ≡ (ok a, t)) × (close_session r d s ≡ (ok a, flush t))
    closed (ok b) s e q =
        let b≡a : b ≡ a = cc in (s, (rw (sym b≡a) e), ap (λ (v : A). (ok v, flush s)) b≡a)
    closed (err x) s e q = cc

-- Nothing is left to flush after a flush.
pub flush-flush : (d : Db) → flush (flush d) ≡ flush d
flush-flush d =
    ap (λ rows. record d { idempotency = rows; unflushed = [] })
      (append-nil (d.idempotency ++ d.unflushed))

pub ruleset reads_rules = (
  ReadsOnly-pure, ReadsOnly-raise, ReadsOnly-gets, ReadsOnly-lift, ReadsOnly-or_raise,
  ReadsOnly-raise_if, ReadsOnly-bind,
)
