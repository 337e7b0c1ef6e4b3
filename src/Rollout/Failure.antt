-- ===== src/Rollout/Failure.antt =====
-- dataplane.py: `_classify_compose_failure`, `_failure_reason` and `_bounded_output_tail`. Lower case,
-- the split into lines and the redaction are given.
use sbnb.Prelude.{
  ℕ, ◌-◌, Bool, true, false, ◌||◌, ◌&&◌, List, [], ◌∷◌, ◌++◌, ◌==◌, length, take, drop, map, any,
  if◌then◌else◌,
}
use sbnb.ApplyResults.Record.{Text, codes}

pub data FailureClass : Type 0 where
  no_space image_missing storage_corruption transient : FailureClass

-- `signal in text`
unfoldable pub starts_with : Text → Text → Bool
starts_with [] t = true
starts_with (c ∷ s) [] = false
starts_with (c ∷ s) (d ∷ t) = c == d && starts_with s t

unfoldable pub contains : Text → Text → Bool
unfolding starts_with
contains [] s = starts_with s []
contains (c ∷ t) s = starts_with s (c ∷ t) || contains t s

abbrev pub image_missing_signals : List Text
image_missing_signals =
    codes "manifest unknown"
    ∷ codes "not found: manifest"
    ∷ codes "no such image"
    ∷ codes "pull access denied"
    ∷ codes "repository does not exist"
    ∷ codes "requested access to the resource is denied"
    ∷ codes "denied: requested access"
    ∷ codes "unauthorized: authentication required"
    ∷ codes "manifest for "
    ∷ []

abbrev pub storage_corruption_signals : List Text
storage_corruption_signals =
    codes "failed to register layer"
    ∷ codes "layer does not exist"
    ∷ codes "error creating overlay mount"
    ∷ codes "failed to mount overlay"
    ∷ []

-- the class of an output in lower case
pub class_of : Text → FailureClass
unfolding contains
class_of o =
    if contains o (codes "no space left on device")
    then no_space
    else if any (contains o) image_missing_signals
    then image_missing
    else if any (contains o) storage_corruption_signals
    then storage_corruption
    else transient

-- `_classify_compose_failure`
unfoldable pub classify_compose_failure : (Text → Text) → Text → FailureClass
unfolding class_of
classify_compose_failure lower output = class_of (lower output)

-- no further attempt is made
abbrev pub is_final : FailureClass → Bool
is_final transient = false
is_final _ = true

-- `_failure_reason`
unfoldable pub failure_reason : FailureClass → Text → Text
failure_reason no_space phase = codes "out of disk space"
failure_reason image_missing phase = codes "image not found or access denied"
failure_reason storage_corruption phase = codes "docker storage error"
failure_reason transient phase = codes "docker compose " ++ phase ++ codes " failed"

pub join_from : Text → List Text → Text
join_from t [] = t
join_from t (line ∷ lines) = t ++ codes "\n" ++ join_from line lines

pub join_lines : List Text → Text
unfolding join_from
join_lines [] = []
join_lines (line ∷ lines) = join_from line lines

last_lines : ℕ → List Text → List Text
last_lines n lines = drop (length lines - n) lines

-- `tail`, given `safe_fallback`
tail_lines : List Text → Text → List Text
unfolding last_lines
tail_lines lines [] = last_lines 5 lines
tail_lines lines (c ∷ fallback) = (c ∷ fallback) ∷ last_lines 4 lines

safe_fallback : (Text → Text) → Text → Text
safe_fallback redact [] = []
safe_fallback redact (c ∷ fallback) = redact (c ∷ fallback)

-- `_bounded_output_tail`
unfoldable pub bounded_output_tail : (Text → Text) → (Text → List Text) → Text → Text → Text
unfolding tail_lines safe_fallback join_lines
bounded_output_tail redact split_lines output fallback = join_lines (
    map (λ line. take 4000 (redact line))
      (tail_lines (split_lines output) (safe_fallback redact fallback)))
