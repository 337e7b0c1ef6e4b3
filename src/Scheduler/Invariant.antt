-- ===== src/Scheduler/Invariant.antt =====
-- What holds of the scheduler between any two of its steps, however submissions interleave with
-- the worker.
use sbnb.Prelude.{◌≡◌, ◌≢◌, Bool, none, some}
use sbnb.ApplyResults.Record.{Text, queued, running}
use sbnb.ApplyResults.Lookup.{IsConsistent}
use sbnb.ApplyResults.Statuses.{status_at}
use sbnb.ApplyResults.{Env}
use sbnb.Scheduler.{
  Job, idle, taken, applying, stored, Scheduler, Outcome, submit_locked, begin_job, finish_job,
  next_job,
}

-- A step of the system. Any thread may submit at any time; the worker goes from phase to phase.
pub data Step (clean redact : Text → Text) : Scheduler → Scheduler → Type 0 where
  submit :
      (env : Env) (starts wait_for_idle : Bool) (job : Job) (s : Scheduler)
      → Step clean redact s (submit_locked clean env starts wait_for_idle job s).0
  begin :
      (env : Env) (job : Job) (s : Scheduler)
      → s.running_job ≡ some job
      → s.phase ≡ taken
      → Step clean redact s (begin_job clean env job s)
  finish :
      (env : Env) (job : Job) (o : Outcome) (s : Scheduler)
      → s.running_job ≡ some job
      → s.phase ≡ applying
      → Step clean redact s (finish_job clean redact env job o s)
  next : (s : Scheduler) → s.phase ≡ stored → Step clean redact s (next_job s)

pub record IsSound (s : Scheduler) : Type 0 where
  pub consistent : IsConsistent s.apply_results.results
  -- a worker exists exactly while a job is running, and a job waits only behind a running one
  pub idle_free : s.running_job ≡ none → s.phase ≡ idle
  pub free_idle : s.phase ≡ idle → s.running_job ≡ none
  pub pending_behind : s.running_job ≡ none → s.pending_job ≡ none
  -- the stored status of each job
  pub pending_queued :
      (j : Job) → s.pending_job ≡ some j → status_at j.request_id s.apply_results ≡ some queued
  pub taken_queued :
      (j : Job)
      → s.running_job ≡ some j
      → s.phase ≡ taken
      → status_at j.request_id s.apply_results ≡ some queued
  pub applying_running :
      (j : Job)
      → s.running_job ≡ some j
      → s.phase ≡ applying
      → status_at j.request_id s.apply_results ≡ some running
  pub apart :
      (j k : Job)
      → s.running_job ≡ some j
      → s.pending_job ≡ some k
      → s.phase ≢ stored
      → j.request_id ≢ k.request_id

pub same_id : (a b : Job) → some a ≡ some b → a.request_id ≡ b.request_id
same_id a b h = cc
