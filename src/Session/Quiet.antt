-- ===== src/Session/Quiet.antt =====
-- Sessions that move no money and touch no job: the accounts, the entries and the jobs stay.
use mock_sim.Base.{◌≡◌, refl, ◌∙◌, Bool, true, false, if◌then◌else◌}
use mock_sim.Session.{Db, Session, Result, ok, err, ◌>>=◌, continue_with, pure, gets}

pub record Quiet {A : Type 0} (m : Session A) : Type 0 where
  pub accounts : (d : Db) → (m d).1.accounts ≡ d.accounts
  pub entries : (d : Db) → (m d).1.entries ≡ d.entries
  pub jobs : (d : Db) → (m d).1.jobs ≡ d.jobs

pub Quiet-pure : {A : Type 0} (a : A) → Quiet (pure a)
Quiet-pure a = record { accounts = λ d. refl; entries = λ d. refl; jobs = λ d. refl }

pub Quiet-gets : {A : Type 0} (f : Db → A) → Quiet (gets f)
Quiet-gets f = record { accounts = λ d. refl; entries = λ d. refl; jobs = λ d. refl }

pub Quiet-if :
    {A : Type 0} (c : Bool) (m k : Session A) → Quiet m → Quiet k → Quiet (if c then m else k)
Quiet-if true m k q r = q
Quiet-if false m k q r = r

module _ {A B : Type 0} where
  bind_table :
      {T : Type 0} (table : Db → T) (f : A → Session B) (r : Result A) (d : Db) (rows : T)
      → table d ≡ rows
      → ((a : A) (d : Db) → table (f a d).1 ≡ table d)
      → table (continue_with r f d).1 ≡ rows
  bind_table table f (ok a) d rows e h = h a d ∙ e
  bind_table table f (err x) d rows e h = e

  pub Quiet-bind :
      (m : Session A) (f : A → Session B) → Quiet m → ((a : A) → Quiet (f a)) → Quiet (m >>= f)
  Quiet-bind m f q h = record {
    accounts = λ d.
        bind_table (λ s. s.accounts) f (m d).0 (m d).1 d.accounts (q.accounts d)
          (λ a. (h a).accounts);
    entries = λ d.
        bind_table (λ s. s.entries) f (m d).0 (m d).1 d.entries (q.entries d) (λ a. (h a).entries);
    jobs = λ d. bind_table (λ s. s.jobs) f (m d).0 (m d).1 d.jobs (q.jobs d) (λ a. (h a).jobs);
  }

pub ruleset quiet_rules = (Quiet-pure, Quiet-gets, Quiet-if, Quiet-bind)
