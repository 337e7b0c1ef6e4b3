-- ===== src/Redaction/Total.antt =====
-- The loop of redaction.py ends, and no closer is missing.
use mathlib.Core.Bool.{true≢false}
use sbnb.Prelude.{
  ◌-◌, length-drop, drop, take, ◌<◌, is_some, ℕ, zero, suc, ◌≤◌, true, ◌≡◌, refl, Option, none,
  some, [], length, arith, Bool-cases, inl, inr,
}
use sbnb.ApplyResults.Record.{Text}
use sbnb.Redaction.{
  on_match, redacted, passed, starts_with, Patterns, on_value, on_prefix, redact_from,
  redact_prefixed_values, Search, and_then, prepend, redact_log_message, Replaced, nothing, value,
  key_error, replaced,
}
use sbnb.Redaction.Bounds.{Within, replaced-Within}

is_some-prepend : (t : Text) (o : Option Text) → is_some o ≡ true → is_some (prepend t o) ≡ true
unfolding prepend
is_some-prepend t none h = h
is_some-prepend t (some s) h = refl

module _ (next : Text → Option Text) (n : ℕ)
    (k : (later : Text) → length later ≤ n → is_some (next later) ≡ true) where
  on_value-ends :
      (s : Text) (r : Replaced) → length s ≤ n → Within s r → is_some (on_value s r next) ≡ true
  unfolding on_value
  on_value-ends s nothing l h = k s l
  on_value-ends s (value replacement rest) l h =
      is_some-prepend replacement (next rest) (k rest (omega arith))
  on_value-ends s key_error l h = absurd (true≢false h)

  on_prefix-ends : (s : Text) → length s ≤ n → is_some (on_prefix s next) ≡ true
  unfolding on_prefix
  on_prefix-ends s l = elim (Bool-cases (starts_with redacted s)) [
    | inl b ↦ rw b (
        is_some-prepend redacted (next (drop 10 s))
          (k (drop 10 s) (omega (arith, length-drop 10 s))))
    | inr b ↦ rw b (on_value-ends s (replaced s) l (replaced-Within s))
  ]

-- A match is not empty and ends within the message.
abbrev pub Advances : Search → Type 0
Advances prefix_pattern =
    (before rest : Text) (n : ℕ) → prefix_pattern before rest ≡ some n → (1 ≤ n) × (n ≤ length rest)

no_less : (n : ℕ) → n < 0 → ⊥
no_less n l = omega arith

on_match-ends :
    (o : Option ℕ) (rest : Text) (next : Text → Option Text)
    → ((n : ℕ) → o ≡ some n → (1 ≤ n) × (n ≤ length rest))
    → ((later : Text) → suc (length later) ≤ length rest → is_some (next later) ≡ true)
    → is_some (on_match o rest next) ≡ true
unfolding on_match
on_match-ends none rest next a k = refl
on_match-ends (some n) rest next a k =
    let (advanced, within) = a n refl in
    is_some-prepend (take n rest) (on_prefix (drop n rest) next) (
      on_prefix-ends next (length rest - n) (λ later h. k later (omega arith)) (drop n rest)
        (omega (arith, length-drop n rest)))

redact_from-ends :
    (prefix_pattern : Search)
    → Advances prefix_pattern
    → (fuel : ℕ) (before rest : Text) → length rest < fuel
    → is_some (redact_from prefix_pattern fuel before rest) ≡ true
unfolding redact_from
redact_from-ends prefix_pattern a zero before rest l = absurd (no_less (length rest) l)
redact_from-ends prefix_pattern a (suc fuel) before rest l =
    on_match-ends (prefix_pattern before rest) rest
      (λ later. redact_from prefix_pattern fuel (passed before rest later) later) (a before rest)
      (λ later h.
        redact_from-ends prefix_pattern a fuel (passed before rest later) later (omega arith))

redact_prefixed-ends :
    (prefix_pattern : Search) (message : Text)
    → Advances prefix_pattern
    → is_some (redact_prefixed_values prefix_pattern message) ≡ true
unfolding redact_prefixed_values
redact_prefixed-ends prefix_pattern message a =
    redact_from-ends prefix_pattern a (suc (length message)) [] message (omega arith)

is_some-and_then :
    (o : Option Text) (f : Text → Option Text)
    → is_some o ≡ true
    → ((t : Text) → is_some (f t) ≡ true)
    → is_some (and_then o f) ≡ true
unfolding and_then
is_some-and_then none f h k = h
is_some-and_then (some t) f h k = k t

-- Where the matches of the two prefix patterns are not empty and end within the message, the
-- redaction of any message ends with a text: the loop runs at most once more than the message has
-- characters, and no value starts with a bracket that has no closer.
pub redaction_ends :
    (p : Patterns) (message : Option Text)
    → Advances p.cli_secret
    → Advances p.secret_assignment
    → is_some (redact_log_message p message) ≡ true
unfolding redact_log_message
redaction_ends p none a b = refl
redaction_ends p (some message) a b =
    is_some-and_then _ (redact_prefixed_values p.secret_assignment)
      (redact_prefixed-ends p.cli_secret _ a) (λ t. redact_prefixed-ends p.secret_assignment t b)
