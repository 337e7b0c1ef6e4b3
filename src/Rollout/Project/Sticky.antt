-- ===== src/Rollout/Project/Sticky.antt =====
-- A project that failed (dataplane.py) is left alone until its Compose file changes.
use sbnb.Prelude.{
  String, true, false, ◌≡◌, refl, Option, none, some, List, [], ◌∷◌, Bool-cases, inl, inr, arith,
  elem, eq_refl, str_eq,
}
use mathlib.Core.Bool.{true≢false}
use sbnb.ApplyResults.Record.{Text, codes}
use sbnb.Devices.{same_text}
use sbnb.Json.{Json}
use sbnb.Project.{Compose}
use sbnb.Rollout.{
  sorted_set, FailedRecord, Marker, Event, wrote_compose, World, Outcome, succeeded, failed,
}
use sbnb.Rollout.Attempts.{commands}
use sbnb.Rollout.Project.{
  Context, Request, same_marker, read_failed_sig_record, matching, matching_failed_record,
  failure_of, write_failed_sig_path, failure_marker_context, context_of, context_for, publish,
  give_up, conclude, start_pulled, pull_and_start, apply_unless_failed, apply_project_compose,
}

same_text_refl : (t : Text) → same_text t t ≡ true
unfolding same_text
same_text_refl [] = refl
same_text_refl (c ∷ t) = ground (arith, same_text_refl t)

pub same_marker_refl : (m : Marker) → same_marker m m ≡ true
unfolding same_marker
same_marker_refl m = rw (eq_refl m.project) (same_text_refl m.suffix)

-- A marker of this context, with a signature of it, is in place.
abbrev pub IsMarked : World → Context → List Event → Type 0
IsMarked w x es = (f : FailedRecord) × (matching_failed_record w x es ≡ some f)

-- the context knows its own signature
abbrev pub IsOwn : Context → Type 0
IsOwn x = elem x.signature x.signatures ≡ true

pub failure_marker_context-IsOwn :
    (w : World) (project : String) (c : Compose) (services : Option (List String)) (suffix : Text)
    (compatible : List String)
    → IsOwn (failure_marker_context w project c services suffix compatible)
unfolding failure_marker_context context_of elem
failure_marker_context-IsOwn w project c none suffix compatible =
    rw (eq_refl (w.compose_sig c none)) refl
failure_marker_context-IsOwn w project c (some names) suffix compatible =
    rw (eq_refl (w.compose_sig c (some (sorted_set names)))) refl

module _ (w : World) (always : (es : List Event) → w.persists es ≡ true) where
  module _ (x : Context) (own : IsOwn x) where
    pub write_marks :
        (phase reason : Text) (es : List Event)
        → matching_failed_record w x (write_failed_sig_path w x phase reason es)
          ≡ some (failure_of w x phase reason)
    unfolding write_failed_sig_path matching_failed_record read_failed_sig_record matching
        failure_of
    write_marks phase reason es = rw (always es, same_marker_refl x.marker, own) refl

    publish-IsMarked :
        (r : Request) (status : String) (message : Option Text) (image : Json) (es : List Event)
        → IsMarked w x es
        → IsMarked w x (publish r status message image es)
    unfolding publish matching_failed_record read_failed_sig_record
    publish-IsMarked r status message image es h = elim (Bool-cases (str_eq r.instance_uuid "")) [
      | inl b ↦ rw b h
      | inr b ↦ rw b h
    ]

    give_up-IsMarked :
        (r : Request) (phase output reason : Text) (es : List Event)
        → IsMarked w x (give_up w r x phase output reason es).0
    unfolding give_up
    give_up-IsMarked r phase output reason es =
        publish-IsMarked r _ _ _ _ (failure_of w x phase reason, write_marks phase reason es)

    conclude-IsMarked :
        (r : Request) (y : List Event × Outcome)
        → (conclude w r x y).1 ≡ false
        → IsMarked w x (conclude w r x y).0
    unfolding conclude
    conclude-IsMarked r (es, succeeded output) e = absurd (true≢false e)
    conclude-IsMarked r (es, failed output reason) e =
        give_up-IsMarked r (codes "start") output reason es

    start_pulled-IsMarked :
        (r : Request) (y : List Event × Outcome)
        → (start_pulled w r x y).1 ≡ false
        → IsMarked w x (start_pulled w r x y).0
    unfolding start_pulled
    start_pulled-IsMarked r (es, succeeded output) e = conclude-IsMarked r _ e
    start_pulled-IsMarked r (es, failed output reason) e =
        give_up-IsMarked r (codes "pull") output reason es

    unless_failed-IsMarked :
        (r : Request) (o : Option FailedRecord) (es : List Event)
        → matching_failed_record w x es ≡ o
        → (apply_unless_failed w r x o es).1 ≡ false
        → IsMarked w x (apply_unless_failed w r x o es).0
    unfolding apply_unless_failed pull_and_start
    unless_failed-IsMarked r none es m e = start_pulled-IsMarked r _ e
    unless_failed-IsMarked r (some f) es m e = publish-IsMarked r _ _ _ es (f, m)

commands-publish :
    (r : Request) (status : String) (message : Option Text) (image : Json) (es : List Event)
    → commands (publish r status message image es) ≡ commands es
unfolding publish
commands-publish r status message image es = ground arith

refused_when_marked :
    (w : World) (r : Request) (x : Context) (o : Option FailedRecord) (f : FailedRecord)
    (es : List Event)
    → o ≡ some f
    → ((apply_unless_failed w r x o es).1 ≡ false)
      × (commands (apply_unless_failed w r x o es).0 ≡ commands es)
unfolding apply_unless_failed
refused_when_marked w r x none f es e = cc
refused_when_marked w r x (some g) f es e = (refl, commands-publish r _ _ _ es)

wrote_compose-IsMarked :
    (w : World) (x : Context) (project : String) (es : List Event)
    → IsMarked w x es
    → IsMarked w x (wrote_compose project ∷ es)
unfolding matching_failed_record read_failed_sig_record
wrote_compose-IsMarked w x project es h = h

-- An apply answers no, and runs no command.
abbrev pub IsRefused : World → Request → List Event → Type 0
IsRefused w r es =
    ((apply_project_compose w r es).1 ≡ false)
    × (commands (apply_project_compose w r es).0 ≡ commands es)

marked-IsRefused :
    (w : World) (r : Request) (es : List Event) → IsMarked w (context_for w r) es → IsRefused w r es
unfolding apply_project_compose
marked-IsRefused w r es h =
    let (f, m) = wrote_compose-IsMarked w (context_for w r) r.project es h in
    refused_when_marked w r (context_for w r)
      (matching_failed_record w (context_for w r) (wrote_compose r.project ∷ es)) f
      (wrote_compose r.project ∷ es) m

failed_apply-IsMarked :
    (w : World) (r : Request) (es : List Event)
    → ((fs : List Event) → w.persists fs ≡ true)
    → (apply_project_compose w r es).1 ≡ false
    → IsMarked w (context_for w r) (apply_project_compose w r es).0
unfolding apply_project_compose
failed_apply-IsMarked w r es always e =
    unless_failed-IsMarked w always (context_for w r)
      (failure_marker_context-IsOwn w r.project r.compose r.services r.failure_suffix []) r
      (matching_failed_record w (context_for w r) (wrote_compose r.project ∷ es))
      (wrote_compose r.project ∷ es) refl e

-- Where markers can be written, an apply of a project that answered no is not repeated: the same
-- apply right after it answers no and runs no command.
pub failed_apply_sticks :
    (w : World) (r : Request) (es : List Event)
    → ((fs : List Event) → w.persists fs ≡ true)
    → (apply_project_compose w r es).1 ≡ false
    → IsRefused w r (apply_project_compose w r es).0
failed_apply_sticks w r es always e =
    marked-IsRefused w r (apply_project_compose w r es).0 (failed_apply-IsMarked w r es always e)
