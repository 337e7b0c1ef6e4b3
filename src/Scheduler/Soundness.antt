-- ===== src/Scheduler/Soundness.antt =====
-- The invariant holds of every state that submissions and the worker can reach.
use sbnb.ApplyResults.Record.{Text}
use sbnb.Scheduler.{Scheduler}
use sbnb.Scheduler.Invariant.{IsSound, Step, submit, begin, finish, next}
use sbnb.Scheduler.Worker.{IsSound-next_job, IsSound-begin_job, IsSound-finish_job}
use sbnb.Scheduler.Submit.{IsSound-submit_locked}

-- Every step keeps the invariant.
pub Step-IsSound :
    (clean redact : Text → Text) {s t : Scheduler} → Step clean redact s t → IsSound s → IsSound t
Step-IsSound clean redact (submit env starts wait_for_idle job s) h =
    IsSound-submit_locked clean env starts wait_for_idle job s h
Step-IsSound clean redact (begin env job s r p) h = IsSound-begin_job clean redact env job s r p h
Step-IsSound clean redact (finish env job o s r p) h =
    IsSound-finish_job clean redact env job o s r p h
Step-IsSound clean redact (next s p) h = IsSound-next_job s h

pub data Reach (clean redact : Text → Text) (s : Scheduler) : Scheduler → Type 0 where
  here : Reach clean redact s s
  step : {t u : Scheduler} → Reach clean redact s t → Step clean redact t u → Reach clean redact s u

-- However submissions and the worker interleave from a sound state, the state stays sound: a worker
-- exists exactly while a job runs, a job waits only behind a running one, the pending job is
-- queued, and the running job is queued or running as its phase says.
pub Reach-IsSound :
    (clean redact : Text → Text) {s t : Scheduler} → IsSound s → Reach clean redact s t → IsSound t
Reach-IsSound clean redact h here = h
Reach-IsSound clean redact h (step r st) =
    Step-IsSound clean redact st (Reach-IsSound clean redact h r)
