-- ===== src/Rollout/Project.antt =====
-- dataplane.py: `_failure_marker_context`, `_matching_failed_record`, `_apply_project_compose`, and
-- `_prepare_system_project_compose` with `_start_prepared_system_project`.
pub mod Sticky
pub mod HeldBack
use sbnb.Prelude.{
  ℕ, ◌+◌, String, Bool, true, false, not, ◌&&◌, ◌||◌, Option, none, some, List, [], ◌∷◌, leb, ◌==◌,
  elem, if◌then◌else◌, str_eq, take, map,
}
use sbnb.Prelude.Dict.{lookup, keys}
use sbnb.Json.{Json, null}
use sbnb.Json.Access.{get?}
use sbnb.ApplyResults.Record.{Text, codes}
use sbnb.Devices.{same_text}
use sbnb.Project.{Compose, Service}
use sbnb.Rollout.Failure.{bounded_output_tail}
use sbnb.Rollout.{
  FailedRecord, Marker, Event, wrote_compose, ran, waited, wrote_marker, cleared_marker, published,
  World, Outcome, succeeded, failed, sorted_set, pull_project_images, start_project_services,
}

pub record Context : Type 0 where
  pub marker : Marker
  pub signature : String
  pub signatures : List String
  pub services : List String

-- `re.sub(r'[^A-Za-z0-9_.-]', '_', failure_suffix)`
safe_code : ℕ → ℕ
safe_code c =
    if (leb b'A' c && leb c b'Z')
      || (leb b'a' c && leb c b'z')
      || (leb b'0' c && leb c b'9')
      || c == b'_'
      || c == b'.'
      || c == b'-'
    then c
    else b'_'

pub marker_suffix : Text → Text
unfolding safe_code
marker_suffix [] = []
marker_suffix (c ∷ suffix) = b'.' ∷ map safe_code (c ∷ suffix)

pub context_of :
    World → String → Compose → Option (List String) → List String → Text → List String → Context
unfolding marker_suffix
context_of w project c selected services suffix compatible =
    let signature = w.compose_sig c selected in
    record {
      marker = record { project = project; suffix = marker_suffix suffix };
      signature = signature;
      signatures = signature ∷ compatible;
      services = services;
    }

-- `_failure_marker_context`
unfoldable pub failure_marker_context :
    World → String → Compose → Option (List String) → Text → List String → Context
unfolding context_of
failure_marker_context w project c none suffix compatible =
    context_of w project c none (sorted_set (keys c.services)) suffix compatible
failure_marker_context w project c (some names) suffix compatible =
    context_of w project c (some (sorted_set names)) (sorted_set names) suffix compatible

unfoldable pub same_marker : Marker → Marker → Bool
same_marker m n = str_eq m.project n.project && same_text m.suffix n.suffix

-- `_read_failed_sig_record`: what was written last, or what was there before
unfoldable pub read_failed_sig_record : World → Marker → List Event → Option FailedRecord
unfolding same_marker
read_failed_sig_record w m [] = w.stored m
read_failed_sig_record w m (wrote_marker n r written ∷ es) =
    let rest = read_failed_sig_record w m es in if written && same_marker n m then some r else rest
read_failed_sig_record w m (cleared_marker n ∷ es) =
    let rest = read_failed_sig_record w m es in if same_marker n m then none else rest
read_failed_sig_record w m (_ ∷ es) = read_failed_sig_record w m es

pub matching : Context → Option FailedRecord → Option FailedRecord
matching x none = none
matching x (some r) = if elem r.signature x.signatures then some r else none

-- `_matching_failed_record`
unfoldable pub matching_failed_record : World → Context → List Event → Option FailedRecord
unfolding matching
matching_failed_record w x es = matching x (read_failed_sig_record w x.marker es)

pub failure_of : World → Context → Text → Text → FailedRecord
failure_of w x phase reason = record {
  signature = x.signature;
  services = sorted_set x.services;
  phase = phase;
  reason = take 500 (w.redact reason);
}

-- `_write_failed_sig_path`, which may fail and then leaves the file as it is
unfoldable pub write_failed_sig_path : World → Context → Text → Text → List Event → List Event
unfolding failure_of
write_failed_sig_path w x phase reason es =
    wrote_marker x.marker (failure_of w x phase reason) (w.persists es) ∷ es

-- the arguments of `_apply_project_compose`
pub record Request : Type 0 where
  pub project : String
  pub compose : Compose
  pub instance_uuid : String
  pub primary_service : String
  pub services : Option (List String)
  pub remove_orphans : Bool
  pub failure_suffix : Text
  pub max_retries : ℕ

or_null : Option Json → Json
or_null none = null
or_null (some v) = v

image_in : Option Service → Json
unfolding or_null
image_in none = null
image_in (some s) = or_null (get? "image" s.body)

pub publish : Request → String → Option Text → Json → List Event → List Event
publish r status message image es =
    if str_eq r.instance_uuid "" then es else published r.instance_uuid status message image ∷ es

pub give_up : World → Request → Context → Text → Text → Text → List Event → List Event × Bool
unfolding write_failed_sig_path publish
give_up w r x phase output reason es = (
  publish r "failed" (some (bounded_output_tail w.redact w.split_lines output reason)) null
      (write_failed_sig_path w x phase reason es),
  false,
)

pub conclude : World → Request → Context → List Event × Outcome → List Event × Bool
unfolding give_up image_in publish
conclude w r x (es, succeeded output) = (
  publish r "running" none (image_in (lookup r.primary_service r.compose.services))
      (cleared_marker x.marker ∷ es),
  true,
)
conclude w r x (es, failed output reason) = give_up w r x (codes "start") output reason es

pub start_pulled : World → Request → Context → List Event × Outcome → List Event × Bool
unfolding conclude give_up
start_pulled w r x (es, succeeded output) =
    conclude w r x (start_project_services w r.project r.services r.remove_orphans r.max_retries es)
start_pulled w r x (es, failed output reason) = give_up w r x (codes "pull") output reason es

pub pull_and_start : World → Request → Context → List Event → List Event × Bool
unfolding start_pulled
pull_and_start w r x es =
    start_pulled w r x
      (pull_project_images w r.project r.services (w.clock es + 3600) r.max_retries es)

pub apply_unless_failed :
    World → Request → Context → Option FailedRecord → List Event → List Event × Bool
unfolding pull_and_start publish
apply_unless_failed w r x none es = pull_and_start w r x (publish r "starting" none null es)
apply_unless_failed w r x (some failure) es =
    (publish r "failed" (some failure.reason) null es, false)

abbrev pub context_for : World → Request → Context
context_for w r = failure_marker_context w r.project r.compose r.services r.failure_suffix []

-- `_apply_project_compose`
unfoldable pub apply_project_compose : World → Request → List Event → List Event × Bool
unfolding apply_unless_failed
apply_project_compose w r es =
    let written = wrote_compose r.project ∷ es in
    apply_unless_failed w r (context_for w r) (matching_failed_record w (context_for w r) written)
      written

-- what a system project is prepared to
pub data Preparation : Type 0 where
  failed_before : FailedRecord → Preparation
  pull_failed : Text → Text → Preparation
  prepared : Context → Preparation

pub system_pulled : World → Context → List Event × Outcome → List Event × Preparation
unfolding write_failed_sig_path
system_pulled w x (es, succeeded output) = (es, prepared x)
system_pulled w x (es, failed output reason) =
    (write_failed_sig_path w x (codes "pull") reason es, pull_failed output reason)

pub pull_system : World → String → Context → List Event → List Event × Preparation
unfolding system_pulled
pull_system w project x es =
    system_pulled w x (pull_project_images w project none (w.clock es + 3600) 5 es)

-- a failure of these phases does not stop a migration
pub is_retried : Bool → FailedRecord → Bool
is_retried migration failure =
    migration
    && (same_text failure.phase (codes "legacy") || same_text failure.phase (codes "start"))

pub prepare_unless_failed :
    World → String → Bool → Context → Option FailedRecord → List Event → List Event × Preparation
unfolding pull_system is_retried
prepare_unless_failed w project migration x none es = pull_system w project x es
prepare_unless_failed w project migration x (some failure) es =
    if is_retried migration failure then pull_system w project x es else (es, failed_before failure)

-- `_prepare_system_project_compose`
unfoldable pub prepare_system_project_compose :
    World → String → Compose → Bool → List Event → List Event × Preparation
unfolding prepare_unless_failed
prepare_system_project_compose w project c migration es =
    let written = wrote_compose project ∷ es in
    let x = failure_marker_context w project c none [] [] in
    prepare_unless_failed w project migration x (matching_failed_record w x written) written

pub system_started : World → Context → List Event × Outcome → List Event × Bool
unfolding write_failed_sig_path
system_started w x (es, succeeded output) = (cleared_marker x.marker ∷ es, true)
system_started w x (es, failed output reason) =
    (write_failed_sig_path w x (codes "start") reason es, false)

pub start_after : World → String → Context → List Event × Bool → List Event × Bool
unfolding system_started write_failed_sig_path
start_after w project x (es, true) =
    system_started w x (start_project_services w project none true 5 es)
start_after w project x (es, false) = (
  write_failed_sig_path w x (codes "start") (codes "docker compose start handoff failed") es,
  false,
)

-- `_start_prepared_system_project`; without `before_start` nothing is done before
unfoldable pub start_prepared_system_project :
    World → String → Context → (List Event → List Event × Bool) → List Event → List Event × Bool
unfolding start_after
start_prepared_system_project w project x before_start es =
    start_after w project x (before_start es)
