-- ===== src/Scheduler/Progress.antt =====
-- The worker comes to an end, and a newer submission replaces the pending one.
use sbnb.Prelude.{
  ◌∙◌, subst, ◌≤◌, ◌-◌, ℕ, zero, suc, ◌≡◌, refl, true, false, Bool, Option, none, some, arith, [],
  Option-cases,
}
use sbnb.ApplyResults.Record.{Text, Status, superseded}
use sbnb.ApplyResults.Statuses.{status_at, status_at-update_terminal}
use sbnb.ApplyResults.{Store, Env, create}
use sbnb.Scheduler.{
  Job, Phase, idle, taken, applying, stored, Scheduler, Outcome, answered, begin_job, finish_job,
  take_next, next_job, submit_locked, after_create, enqueue, supersede, update_status,
}
use sbnb.Scheduler.Invariant.{IsSound, begin, finish, next}
use sbnb.Scheduler.Soundness.{Step-IsSound}

-- `_apply_job_worker`, one phase at a time; the environment gives what each job's apply does.
worker_step_at :
    (Text → Text)
    → (Text → Text)
    → Env
    → (Job → Outcome)
    → Phase
    → Option Job
    → Scheduler
    → Scheduler
unfolding begin_job finish_job next_job
worker_step_at clean redact env does taken (some job) s = begin_job clean env job s
worker_step_at clean redact env does applying (some job) s =
    finish_job clean redact env job (does job) s
worker_step_at clean redact env does stored running s = next_job s
worker_step_at clean redact env does _ _ s = s

unfoldable pub worker_step :
    (Text → Text) → (Text → Text) → Env → (Job → Outcome) → Scheduler → Scheduler
unfolding worker_step_at
worker_step clean redact env does s = worker_step_at clean redact env does s.phase s.running_job s

unfoldable pub work :
    (Text → Text) → (Text → Text) → Env → (Job → Outcome) → ℕ → Scheduler → Scheduler
unfolding worker_step
work clean redact env does zero s = s
work clean redact env does (suc n) s =
    work clean redact env does n (worker_step clean redact env does s)

-- how many steps the worker has left
abbrev left_of : Phase → Option Job → ℕ
left_of idle p = 0
left_of stored none = 1
left_of stored (some k) = 4
left_of applying none = 2
left_of applying (some k) = 5
left_of taken none = 3
left_of taken (some k) = 6

module _ (clean redact : Text → Text) (env : Env) (does : Job → Outcome) where
  pending-finish_job :
      (job : Job) (o : Outcome) (s : Scheduler)
      → (finish_job clean redact env job o s).pending_job ≡ s.pending_job
  unfolding finish_job
  pending-finish_job job o s = ground arith

  pending-begin_job :
      (job : Job) (s : Scheduler) → (begin_job clean env job s).pending_job ≡ s.pending_job
  unfolding begin_job
  pending-begin_job job s = refl

  left-take_next :
      (o : Option Job) (s : Scheduler)
      → left_of (take_next o s).phase (take_next o s).pending_job ≤ left_of stored o - 1
  unfolding take_next
  left-take_next none s = ground arith
  left-take_next (some job) s = ground arith

  -- Each phase takes the worker one step nearer to its end, and keeps the invariant.
  at_phase :
      (p : Phase) (r : Option Job) (s : Scheduler)
      → s.phase ≡ p
      → s.running_job ≡ r
      → IsSound s
      → IsSound (worker_step_at clean redact env does p r s)
        × (left_of
              (worker_step_at clean redact env does p r s).phase
              (worker_step_at clean redact env does p r s).pending_job
            ≤ left_of p s.pending_job - 1)
  unfolding worker_step_at next_job
  at_phase idle r s e q h = (h, rw e (ground arith))
  at_phase taken none s e q h = cc (h.idle_free q, e)
  at_phase applying none s e q h = cc (h.idle_free q, e)
  at_phase taken (some job) s e q h = (
    Step-IsSound clean redact (begin env job s q e) h,
    rw (pending-begin_job job s) (ground (arith, Option-cases s.pending_job)),
  )
  at_phase applying (some job) s e q h = (
    Step-IsSound clean redact (finish env job (does job) s q e) h,
    rw (pending-finish_job job (does job) s) (ground (arith, Option-cases s.pending_job)),
  )
  at_phase stored r s e q h =
      (Step-IsSound clean redact (next s e) h, left-take_next s.pending_job s)

  at_most_six : (p : Phase) (o : Option Job) → left_of p o ≤ 6
  at_most_six idle o = ground arith
  at_most_six taken o = ground (arith, Option-cases o)
  at_most_six applying o = ground (arith, Option-cases o)
  at_most_six stored o = ground (arith, Option-cases o)

  work-IsSound : (n : ℕ) (s : Scheduler) → IsSound s → IsSound (work clean redact env does n s)
  unfolding work worker_step
  work-IsSound zero s h = h
  work-IsSound (suc n) s h =
      work-IsSound n (worker_step clean redact env does s)
        (at_phase s.phase s.running_job s refl refl h).0

  work_idle :
      (n : ℕ) (s : Scheduler)
      → IsSound s
      → left_of s.phase s.pending_job ≤ n
      → (work clean redact env does n s).phase ≡ idle
  unfolding work worker_step
  work_idle zero s h l = ground (arith, Option-cases s.pending_job)
  work_idle (suc n) s h l =
      let (sound, less) = at_phase s.phase s.running_job s refl refl h in
      work_idle n (worker_step clean redact env does s) sound (omega (arith, less))

  -- From any sound state, the worker is done after at most six of its steps, if no submission comes
  -- in between; then no job runs and none is pending.
  pub work_drains :
      (s : Scheduler)
      → IsSound s
      → ((work clean redact env does 6 s).phase ≡ idle)
        × ((work clean redact env does 6 s).running_job ≡ none)
        × ((work clean redact env does 6 s).pending_job ≡ none)
  work_drains s h =
      let sound = work-IsSound 6 s h in
      let done = work_idle 6 s h (at_most_six s.phase s.pending_job) in
      (done, sound.free_idle done, sound.pending_behind (sound.free_idle done))

module _ (clean : Text → Text) (env : Env) where
  replaced :
      (o : Option Job) (p job : Job) (s : Scheduler) (u : Status)
      → o ≡ some p
      → status_at p.request_id
          (record (supersede clean env o s) { pending_job = some job }).apply_results
        ≡ some u
      → u ≡ superseded
  unfolding supersede update_status
  replaced none p job s u e h = cc
  replaced (some q) p job s u e h =
      status_at-update_terminal clean env q.request_id superseded [] [] false s.apply_results u (
        subst (λ id. status_at id (supersede clean env (some q) s).apply_results ≡ some u)
          (id_of p q e) h)
    where
      id_of : (p q : Job) → some q ≡ some p → p.request_id ≡ q.request_id
      id_of p q e = cc

  submit_busy :
      (starts : Bool) (job r : Job) (s : Scheduler)
      → s.running_job ≡ some r
      → (w : Store × Bool) → w.1 ≡ true
      → after_create clean env starts job s w ≡ (
        record (supersede clean env s.pending_job (record s { apply_results = w.0 })) {
          pending_job = some job;
        },
        answered true job.request_id [],
      )
  unfolding after_create enqueue
  submit_busy true job r s run (store, true) e = rw run
  submit_busy false job r s run (store, true) e = rw run
  submit_busy starts job r s run (store, false) e = cc

  running-supersede :
      (o : Option Job) (s : Scheduler) → (supersede clean env o s).running_job ≡ s.running_job
  unfolding supersede update_status
  running-supersede none s = refl
  running-supersede (some p) s = refl

  -- While a job runs, a submission that is persisted becomes the pending job and is answered with
  -- its id; the running job goes on, and a job that was pending is superseded or gone.
  pub submit_replaces :
      (starts : Bool) (job r : Job) (s : Scheduler)
      → s.running_job ≡ some r
      → (create clean env job.request_id job.kind s.apply_results).1 ≡ true
      → let after = submit_locked clean env starts false job s in
        (after.1 ≡ answered true job.request_id [])
        × (after.0.running_job ≡ some r)
        × (after.0.pending_job ≡ some job)
        × ((p : Job) (u : Status)
            → s.pending_job ≡ some p
            → status_at p.request_id after.0.apply_results ≡ some u
            → u ≡ superseded)
  unfolding submit_locked
  submit_replaces starts job r s run accepted =
      rw
        (submit_busy starts job r s run (create clean env job.request_id job.kind s.apply_results)
          accepted)
        (
          refl,
          running-supersede s.pending_job (record s {
            apply_results = (create clean env job.request_id job.kind s.apply_results).0;
          })
              ∙ run,
          refl,
          λ p u e h.
              replaced s.pending_job p job
                (record s {
                  apply_results = (create clean env job.request_id job.kind s.apply_results).0;
                })
                u e h,
        )
