-- ===== src/Handlers/Rules.antt =====
-- Sessions that lose no job of the scheduler and make none pending again, also where they raise.
use mock_sim.Base.{◌≡◌, subst, sym, ℕ, Text, Option, none, some, Bool, true, false, if◌then◌else◌}
use mock_sim.Errors.{Error}
use mock_sim.Models.{JobPayload}
use mock_sim.Session.{
  Env, Db, Session, Result, ok, err, pure, gets, or_raise, lift, raise_if, modify, draw_id, ◌>>=◌,
  continue_with, transaction, close_session,
}
use mock_sim.Session.Rules.{ReadsOnly}
use mock_sim.Session.Quiet.{Quiet}
use mock_sim.Scheduler.{schedule_at}
use mock_sim.Scheduler.Extends.{Extends, Extends-refl, Extends-append, Extends-trans}

pub record ExtendsJobs {A : Type 0} (m : Session A) : Type 0 where
  pub at : (d : Db) → Extends d.jobs (m d).1.jobs

-- A change of other tables.
pub ExtendsJobs-modify : (f : Db → Db) → ((d : Db) → (f d).jobs ≡ d.jobs) → ExtendsJobs (modify f)
ExtendsJobs-modify f h = record { at = λ d. rw (h d) (Extends-refl d.jobs) }

pub ExtendsJobs-draw_id : (env : Env) → ExtendsJobs (draw_id env)
ExtendsJobs-draw_id env = record { at = λ d. Extends-refl d.jobs }

pub ExtendsJobs-schedule_at :
    (env : Env) (tenant : Option ℕ) (fire_at : ℕ) (job_type : Text) (payload : JobPayload)
    → ExtendsJobs (schedule_at env tenant fire_at job_type payload)
unfolding schedule_at
ExtendsJobs-schedule_at env tenant fire_at job_type payload = record {
  at = λ d. Extends-append d.jobs _;
}

module _ {A : Type 0} where
  pub ExtendsJobs-pure : (a : A) → ExtendsJobs (pure a)
  ExtendsJobs-pure a = record { at = λ d. Extends-refl d.jobs }

  pub ExtendsJobs-gets : (f : Db → A) → ExtendsJobs (gets f)
  ExtendsJobs-gets f = record { at = λ d. Extends-refl d.jobs }

  pub ExtendsJobs-lift : (r : Result A) → ExtendsJobs (lift r)
  ExtendsJobs-lift r = record { at = λ d. Extends-refl d.jobs }

  pub Quiet-ExtendsJobs : (m : Session A) → Quiet m → ExtendsJobs m
  Quiet-ExtendsJobs m q = record {
    at = λ d. subst (Extends d.jobs) (sym (q.jobs d)) (Extends-refl d.jobs);
  }

  pub ReadsOnly-ExtendsJobs : (m : Session A) → ReadsOnly m → ExtendsJobs m
  ReadsOnly-ExtendsJobs m r = record {
    at = λ d. subst (λ s. Extends d.jobs s.jobs) (sym (r.same d)) (Extends-refl d.jobs);
  }

  pub ExtendsJobs-or_raise : (o : Option A) (e : Error) → ExtendsJobs (or_raise o e)
  ExtendsJobs-or_raise none e = record { at = λ d. Extends-refl d.jobs }
  ExtendsJobs-or_raise (some a) e = record { at = λ d. Extends-refl d.jobs }

  pub ExtendsJobs-if :
      (c : Bool) (m k : Session A)
      → ExtendsJobs m
      → ExtendsJobs k
      → ExtendsJobs (if c then m else k)
  ExtendsJobs-if true m k x y = x
  ExtendsJobs-if false m k x y = y

  pub ExtendsJobs-transaction : (m : Session A) → ExtendsJobs m → ExtendsJobs (transaction m)
  ExtendsJobs-transaction m x = record { at = λ d. closed (m d).0 (m d).1 d (x.at d) }
    where
      closed :
          (r : Result A) (s d : Db)
          → Extends d.jobs s.jobs
          → Extends d.jobs (close_session r d s).1.jobs
      closed (ok a) s d x = x
      closed (err e) s d x = Extends-refl d.jobs

pub ExtendsJobs-raise_if : (c : Bool) (e : Error) → ExtendsJobs (raise_if c e)
ExtendsJobs-raise_if c e = record { at = λ d. Extends-refl d.jobs }

pub ExtendsJobs-bind :
    {A B : Type 0} (m : Session A) (f : A → Session B)
    → ExtendsJobs m
    → ((a : A) → ExtendsJobs (f a))
    → ExtendsJobs (m >>= f)
ExtendsJobs-bind {A} {B} m f x h = record { at = λ d. rest (m d).0 (m d).1 d (x.at d) }
  where
    rest :
        (r : Result A) (s d : Db)
        → Extends d.jobs s.jobs
        → Extends d.jobs (continue_with r f s).1.jobs
    rest (ok a) s d x = Extends-trans d.jobs s.jobs _ x ((h a).at s)
    rest (err e) s d x = x

pub ruleset jobs_rules = (
  ExtendsJobs-draw_id, ExtendsJobs-schedule_at, ExtendsJobs-pure, ExtendsJobs-gets,
  ExtendsJobs-lift, ExtendsJobs-or_raise, ExtendsJobs-if, ExtendsJobs-transaction,
  ExtendsJobs-raise_if, ExtendsJobs-bind, ExtendsJobs-modify,
)
