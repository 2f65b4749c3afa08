-- ===== src/Events/Processing/Sound.antt =====
-- app/services/events.py: each write of the event worker, and the invariant of the jobs.
use linkplease_tech_assignme.Config.{Settings}
use linkplease_tech_assignme.Jobs.Sound.{
  HasBudgets, IsSound, IsSound-frame, create_job-IsSound, cancel_jobs-IsSound,
}
use linkplease_tech_assignme.Events.Processing.Keeps.{Closed, JobsClosed, closed_of_jobs}

module _ (s : Settings) (b : HasBudgets s) where
  IsSound-JobsClosed : JobsClosed (IsSound s)
  IsSound-JobsClosed = record {
    framed = IsSound-frame s;
    created = λ rule user comment now db v. create_job-IsSound s rule user comment now db b v;
    cancelled = cancel_jobs-IsSound s;
  }

  -- What the writes of the event worker keep.
  pub IsSound-Closed : Closed (IsSound s)
  IsSound-Closed = closed_of_jobs (IsSound s) IsSound-JobsClosed
