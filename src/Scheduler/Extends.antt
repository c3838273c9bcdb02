-- ===== src/Scheduler/Extends.antt =====
-- Later states of the table of jobs (core/sim_scheduler.py), and handlers that lose none.
use mock_sim.Base.{
  ℕ, ◌≡◌, refl, ◌∙◌, inl, inr, Bool, true, false, not, ◌&&◌, some, List, [], ◌∷◌, ◌++◌, Text,
  text_eq, Bool-cases, arith,
}
use mock_sim.Base.Along.{Along, Along-append, Along-refl, Along-join, All-any}
use mock_sim.Models.{JobPayload, SimSchedulerJob}
use mock_sim.Session.{Env, Db}
use mock_sim.Scheduler.{Handler, Registry, is_pending, handler_of}

-- A later state of a row: the same job, and not pending again once it is not.
abbrev pub Follows : SimSchedulerJob → SimSchedulerJob → Type 0
Follows r r' =
    (r'.id ≡ r.id)
    × (r'.fire_at ≡ r.fire_at)
    × (r'.mock_tenant_id ≡ r.mock_tenant_id)
    × ((is_pending r'.status && not (is_pending r.status)) ≡ false)

pub Follows-refl : (r : SimSchedulerJob) → Follows r r
Follows-refl r = (refl, refl, refl, not_both (is_pending r.status))
  where
    not_both : (b : Bool) → (b && not b) ≡ false
    not_both true = refl
    not_both false = refl

pub Follows-trans : (r s t : SimSchedulerJob) → Follows r s → Follows s t → Follows r t
Follows-trans r s t f g = (
  g.0 ∙ f.0,
  g.1 ∙ f.1,
  g.2 ∙ f.2,
  chained (is_pending r.status) (is_pending s.status) (is_pending t.status) f.3 g.3,
)
  where
    chained : (a b c : Bool) → (b && not a) ≡ false → (c && not b) ≡ false → (c && not a) ≡ false
    chained a b c h k = ground arith

abbrev pub Extends : List SimSchedulerJob → List SimSchedulerJob → Type 0
Extends = Along Follows

pub Extends-refl : (rows : List SimSchedulerJob) → Extends rows rows
Extends-refl = Along-refl Follows Follows-refl

pub Extends-append : (rows more : List SimSchedulerJob) → Extends rows (rows ++ more)
Extends-append = Along-append Follows Follows-refl

pub Extends-trans :
    (rows later last : List SimSchedulerJob)
    → Extends rows later
    → Extends later last
    → Extends rows last
Extends-trans rows later last =
    Along-join (λ _. Unit) Follows Follows Follows (λ r s t _. Follows-trans r s t) rows later last
      (All-any (λ _. Unit) (λ _. tt) rows)

-- A handler loses no job and makes none of them pending again, also where it raises.
pub record KeepsJobs (h : Handler) : Type 0 where
  pub at :
      (env : Env) (fire_at : ℕ) (payload : JobPayload) (d : Db)
      → Extends d.jobs (h env fire_at payload d).1.jobs

abbrev pub KeepJobs : Registry → Type 0
KeepJobs [] = Unit
KeepJobs ((t, h) ∷ rest) = KeepsJobs h × KeepJobs rest

pub handler_of-KeepsJobs :
    (t : Text) (registry : Registry) (h : Handler)
    → KeepJobs registry
    → handler_of t registry ≡ some h
    → KeepsJobs h
unfolding handler_of
handler_of-KeepsJobs t [] h k e = cc
handler_of-KeepsJobs t ((u, g) ∷ rest) h k e = elim (Bool-cases (text_eq u t)) [
  | inl hit ↦ let same : some g ≡ some h = rw hit at e in let g≡h : g ≡ h = cc in rw (← g≡h) k.0
  | inr miss ↦ handler_of-KeepsJobs t rest h k.1 (rw miss at e)
]
