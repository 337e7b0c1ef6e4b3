-- ===== src/Scheduler/Submit.antt =====
-- A submission keeps the scheduler's invariant, whatever it finds.
use sbnb.Prelude.{
  is_some, ◌&&◌, ◌||◌, eq_iff, eq_refl, [], ◌∙◌, String, ◌≡◌, ◌≢◌, refl, sym, subst, ◌∙◌, Bool,
  true, false, Option, none, some, arith, inl, inr, Bool-cases,
}
use sbnb.ApplyResults.Record.{superseded, failed, is_terminal, codes, Text, Status, queued, running}
use sbnb.ApplyResults.Sanitize.{status_name}
use sbnb.ApplyResults.Statuses.{status_at-create, status_at, status_at-update_ne}
use sbnb.ApplyResults.Retention.{create_refused, IsConsistent-create}
use sbnb.ApplyResults.Update.{IsConsistent-update}
use sbnb.ApplyResults.{create, Store, Env}
use sbnb.Scheduler.{
  Phase, after_create, Job, idle, taken, applying, stored, Scheduler, update_status, supersede,
  enqueue, submit_locked,
}
use sbnb.Scheduler.Invariant.{IsSound, same_id}

module _ (clean : Text → Text) (env : Env) where
  IsSound-supersede :
      (o : Option Job) (job r : Job) (s : Scheduler)
      → s.pending_job ≡ o
      → s.running_job ≡ some r
      → status_at job.request_id s.apply_results ≡ some queued
      → (s.phase ≢ stored → r.request_id ≢ job.request_id)
      → ((k : Job) → s.pending_job ≡ some k → k.request_id ≢ job.request_id)
      → IsSound s
      → IsSound (record (supersede clean env o s) { pending_job = some job })
  unfolding supersede update_status
  IsSound-supersede none job r s e run new far other h = record {
    consistent = h.consistent;
    idle_free = h.idle_free;
    free_idle = h.free_idle;
    pending_behind = λ q. cc (run, q);
    pending_queued =
        λ k q. subst (λ id. status_at id s.apply_results ≡ some queued) (same_id job k q) new;
    taken_queued = h.taken_queued;
    applying_running = h.applying_running;
    apart = λ j k q p n x. far n (same_id r j (sym run ∙ q) ∙ x ∙ sym (same_id job k p));
  }
  IsSound-supersede (some p) job r s e run new far other h = record {
    consistent =
        IsConsistent-update clean env p.request_id (status_name superseded) [] [] false
          s.apply_results h.consistent;
    idle_free = h.idle_free;
    free_idle = h.free_idle;
    pending_behind = λ q. cc (run, q);
    pending_queued = λ k q.
        subst (λ id. status_at id (supersede clean env (some p) s).apply_results ≡ some queued)
          (same_id job k q) (kept job.request_id queued (other p e) new refl);
    taken_queued = λ j q t.
        kept j.request_id queued (λ x. h.apart j p q e (λ w. cc) (sym x)) (h.taken_queued j q t)
          refl;
    applying_running = λ j q t.
        kept j.request_id running (λ x. h.apart j p q e (λ w. cc) (sym x))
          (h.applying_running j q t) refl;
    apart = λ j k q u n x. far n (same_id r j (sym run ∙ q) ∙ x ∙ sym (same_id job k u));
  }
    where
      kept :
          (id : String) (u : Status)
          → p.request_id ≢ id
          → status_at id s.apply_results ≡ some u
          → is_terminal u ≡ false
          → status_at id (supersede clean env (some p) s).apply_results ≡ some u
      kept id u d f l =
          status_at-update_ne clean env p.request_id superseded [] [] false s.apply_results id u
            h.consistent d f l

  IsSound-enqueue :
      (starts : Bool) (job : Job) (o : Option Job) (s : Scheduler)
      → s.running_job ≡ o
      → status_at job.request_id s.apply_results ≡ some queued
      → ((r : Job) → s.running_job ≡ some r → s.phase ≢ stored → r.request_id ≢ job.request_id)
      → ((k : Job) → s.pending_job ≡ some k → k.request_id ≢ job.request_id)
      → IsSound s
      → IsSound (enqueue clean env starts job o s).0
  unfolding enqueue
  IsSound-enqueue true job none s e new far other h = record {
    consistent = h.consistent;
    idle_free = λ q. cc;
    free_idle = λ q. cc;
    pending_behind = λ q. cc;
    pending_queued = h.pending_queued;
    taken_queued =
        λ j q t. subst (λ id. status_at id s.apply_results ≡ some queued) (same_id job j q) new;
    applying_running = λ j q t. cc;
    apart = λ j k q p n. cc (h.pending_behind e, p);
  }
  IsSound-enqueue false job none s e new far other h = record {
    consistent =
        IsConsistent-update clean env job.request_id (status_name failed)
          (codes "cannot start apply worker") [] false s.apply_results h.consistent;
    idle_free = h.idle_free;
    free_idle = h.free_idle;
    pending_behind = h.pending_behind;
    pending_queued = λ j q. cc (h.pending_behind e, q);
    taken_queued = λ j q t. cc (e, q);
    applying_running = λ j q t. cc (e, q);
    apart = λ j k q p n. cc (e, q);
  }
  IsSound-enqueue starts job (some r) s e new far other h =
      IsSound-supersede s.pending_job job r s refl e new (far r e) other h

  -- the store after an accepted `create` of `job`
  abbrev created : Job → Scheduler → Store
  created job s = (create clean env job.request_id job.kind s.apply_results).0

  abbrev IsAccepted : Job → Scheduler → Type 0
  IsAccepted job s = (create clean env job.request_id job.kind s.apply_results).1 ≡ true

  module _ (job : Job) (s : Scheduler) (accepted : IsAccepted job s) (h : IsSound s) where
    known_ne :
        (id : String) (u : Status) → status_at id s.apply_results ≡ some u → id ≢ job.request_id
    known_ne id u f x =
        let (fresh, law) =
          status_at-create clean env job.request_id job.kind s.apply_results id accepted in
        cc (subst (λ k. status_at k s.apply_results ≡ some u) x f, fresh)

    known_kept :
        (id : String) (u : Status)
        → status_at id s.apply_results ≡ some u
        → status_at id (created job s) ≡ some u
    known_kept id u f =
        let (fresh, law) =
          status_at-create clean env job.request_id job.kind s.apply_results id accepted in
        law
        ∙ ground (
          arith,
          eq_iff job.request_id id,
          λ (e : job.request_id ≡ id). known_ne id u f (sym e),
          f,
        )

    IsSound-created : IsSound (record s { apply_results = created job s })
    IsSound-created = record {
      consistent =
          IsConsistent-create clean env job.request_id job.kind s.apply_results h.consistent;
      idle_free = h.idle_free;
      free_idle = h.free_idle;
      pending_behind = h.pending_behind;
      pending_queued = λ j q. known_kept j.request_id queued (h.pending_queued j q);
      taken_queued = λ j q t. known_kept j.request_id queued (h.taken_queued j q t);
      applying_running = λ j q t. known_kept j.request_id running (h.applying_running j q t);
      apart = h.apart;
    }

    running_ne :
        (r : Job) → s.running_job ≡ some r → s.phase ≢ stored → r.request_id ≢ job.request_id
    running_ne r q n = by_phase s.phase refl
      where
        by_phase : (p : Phase) → s.phase ≡ p → r.request_id ≢ job.request_id
        by_phase idle e = cc (h.free_idle e, q)
        by_phase taken e = known_ne r.request_id queued (h.taken_queued r q e)
        by_phase applying e = known_ne r.request_id running (h.applying_running r q e)
        by_phase stored e = absurd (n e)

    IsSound-accepted :
        (starts : Bool)
        → IsSound
            (enqueue clean env starts job s.running_job
              (record s { apply_results = created job s })).0
    IsSound-accepted starts =
        IsSound-enqueue starts job s.running_job (record s { apply_results = created job s }) refl
          ((status_at-create clean env job.request_id job.kind s.apply_results job.request_id
              accepted).1
            ∙ ground (arith, eq_refl job.request_id))
          running_ne (λ k q. known_ne k.request_id queued (h.pending_queued k q)) IsSound-created

  IsSound-after_create :
      (starts : Bool) (job : Job) (s : Scheduler) (b : Bool)
      → (create clean env job.request_id job.kind s.apply_results).1 ≡ b
      → IsSound s
      → IsSound (after_create clean env starts job s (created job s, b)).0
  unfolding after_create
  IsSound-after_create starts job s true e h = IsSound-accepted job s e h starts
  IsSound-after_create starts job s false e h =
      rw (create_refused clean env job.request_id job.kind s.apply_results e) h

  pub IsSound-submit_locked :
      (starts wait_for_idle : Bool) (job : Job) (s : Scheduler)
      → IsSound s
      → IsSound (submit_locked clean env starts wait_for_idle job s).0
  unfolding submit_locked
  IsSound-submit_locked starts wait_for_idle job s h =
      elim (Bool-cases (wait_for_idle && (is_some s.running_job || is_some s.pending_job))) [
        | inl e ↦ rw e h
        | inr e ↦ rw e (
            IsSound-after_create starts job s
              (create clean env job.request_id job.kind s.apply_results).1 refl h)
      ]
