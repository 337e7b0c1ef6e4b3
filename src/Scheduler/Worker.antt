-- ===== src/Scheduler/Worker.antt =====
-- The worker's steps keep the scheduler's invariant.
use sbnb.Prelude.{
  List, [], ◌∙◌, String, ◌≡◌, refl, sym, subst, ◌∙◌, Bool, false, Option, none, some, arith, inl,
  inr, Bool-cases,
}
use sbnb.ApplyResults.Record.{Text, Status, queued, running, RawWarning}
use sbnb.ApplyResults.Sanitize.{status_name}
use sbnb.ApplyResults.Statuses.{status_at, status_at-update_ne, status_at-update_live}
use sbnb.ApplyResults.Update.{IsConsistent-update}
use sbnb.ApplyResults.{Env}
use sbnb.Scheduler.{
  is_empty, Job, taken, applying, stored, Scheduler, Outcome, update_status, begin_job, finish_job,
  next_job, remember_runtime_error, take_next, applied_of, verdict,
}
use sbnb.Scheduler.Invariant.{IsSound, same_id}

IsSound-take_next :
    (o : Option Job) (s : Scheduler) → s.pending_job ≡ o → IsSound s → IsSound (take_next o s)
unfolding take_next
IsSound-take_next none s e h = record {
  consistent = h.consistent;
  idle_free = λ _. refl;
  free_idle = λ _. refl;
  pending_behind = λ _. e;
  pending_queued = h.pending_queued;
  taken_queued = λ j q t. cc;
  applying_running = λ j q t. cc;
  apart = λ j k q r n. cc;
}
IsSound-take_next (some job) s e h = record {
  consistent = h.consistent;
  idle_free = λ q. cc;
  free_idle = λ q. cc;
  pending_behind = λ _. refl;
  pending_queued = λ j q. cc;
  taken_queued = λ j q t. h.pending_queued j (e ∙ q);
  applying_running = λ j q t. cc;
  apart = λ j k q r n. cc;
}

pub IsSound-next_job : (s : Scheduler) → IsSound s → IsSound (next_job s)
unfolding next_job
IsSound-next_job s h = IsSound-take_next s.pending_job s refl h

module _ (clean redact : Text → Text) (env : Env) where
  pub IsSound-begin_job :
      (job : Job) (s : Scheduler)
      → s.running_job ≡ some job
      → s.phase ≡ taken
      → IsSound s
      → IsSound (begin_job clean env job s)
  unfolding begin_job update_status
  IsSound-begin_job job s r t h = record {
    consistent =
        IsConsistent-update clean env job.request_id (status_name running) [] [] false
          s.apply_results h.consistent;
    idle_free = λ q. cc;
    free_idle = λ q. cc;
    pending_behind = h.pending_behind;
    pending_queued = λ k q.
        status_at-update_ne clean env job.request_id running [] [] false s.apply_results
          k.request_id queued h.consistent (h.apart job k r q (λ n. cc)) (h.pending_queued k q)
          refl;
    taken_queued = λ j q n. cc;
    applying_running = λ j q n.
        subst (λ id. status_at id (begin_job clean env job s).apply_results ≡ some running)
          (same_id job j (sym r ∙ q))
          (status_at-update_live clean env job.request_id running [] [] false s.apply_results queued
            (h.taken_queued job r t) refl);
    apart = λ j k q p n. h.apart j k q p (λ w. cc);
  }

  IsSound-store :
      (job : Job) (t : Status) (error : Text) (warnings : List RawWarning) (applied : Bool)
      (s : Scheduler)
      → s.running_job ≡ some job
      → s.phase ≡ applying
      → IsSound s
      → IsSound (record (update_status clean env job.request_id t error warnings applied s) {
        phase = stored;
      })
  unfolding update_status
  IsSound-store job t error warnings applied s r a h = record {
    consistent =
        IsConsistent-update clean env job.request_id (status_name t) error warnings applied
          s.apply_results h.consistent;
    idle_free = λ q. cc;
    free_idle = λ q. cc;
    pending_behind = h.pending_behind;
    pending_queued = λ k q.
        status_at-update_ne clean env job.request_id t error warnings applied s.apply_results
          k.request_id queued h.consistent (h.apart job k r q (λ n. cc)) (h.pending_queued k q)
          refl;
    taken_queued = λ j q n. cc;
    applying_running = λ j q n. cc;
    apart = λ j k q p n. absurd (n refl);
  }

  IsSound-remember :
      (id : String) (error : Text) (s : Scheduler)
      → IsSound s
      → IsSound (remember_runtime_error id error s)
  unfolding remember_runtime_error
  IsSound-remember id error s h = elim (Bool-cases (is_empty error)) [
    | inl e ↦ rw e h
    | inr e ↦ rw e (record {
      consistent = h.consistent;
      idle_free = h.idle_free;
      free_idle = h.free_idle;
      pending_behind = h.pending_behind;
      pending_queued = h.pending_queued;
      taken_queued = h.taken_queued;
      applying_running = h.applying_running;
      apart = h.apart;
    })
  ]

  job-remember :
      (id : String) (error : Text) (s : Scheduler)
      → ((remember_runtime_error id error s).running_job ≡ s.running_job)
        × ((remember_runtime_error id error s).phase ≡ s.phase)
  unfolding remember_runtime_error
  job-remember id error s = ground arith

  pub IsSound-finish_job :
      (job : Job) (o : Outcome) (s : Scheduler)
      → s.running_job ≡ some job
      → s.phase ≡ applying
      → IsSound s
      → IsSound (finish_job clean redact env job o s)
  unfolding finish_job
  IsSound-finish_job job o s r a h =
      let (status, error, persistent_error) = verdict redact o.ending o.warnings in
      let (same_job, same_phase) = job-remember job.request_id error s in
      IsSound-store job status persistent_error o.warnings (applied_of job o)
        (remember_runtime_error job.request_id error s) (same_job ∙ r) (same_phase ∙ a)
        (IsSound-remember job.request_id error s h)
