-- ===== src/Samples/Redact.antt =====
-- Concrete runs of redaction.py.
use sbnb.Prelude.{true, ◌≡◌, refl, none, some, is_some, [], ◌∷◌, ◌==◌, ◌&&◌, if◌then◌else◌, arith}
use sbnb.ApplyResults.Record.{codes}
use sbnb.Redaction.{Search, Patterns, structured_value_end, redact_log_message}
use sbnb.Redaction.Written.{
  Value, write, double, curly, square, as_is, after_backslash, plain, quoted, escaped, group, end,
  in_brackets,
}
use sbnb.Redaction.Nested.{written_value_ends}
use sbnb.Redaction.Total.{Advances, redaction_ends}

-- `{"]":[a,\"b"\"]}`, by its parts
abbrev nested : Value
nested = in_brackets curly (
    quoted double (as_is 93 ∷ after_backslash 34 ∷ [])
      (plain 58 (group square (plain 97 (escaped double (98 ∷ 34 ∷ []) end)) end)))

nested_text : write nested (codes " x") ≡ codes "{\"]\\\"\":[a\\\"b\"\\\"]} x"
nested_text = refl

written_value_ends_example : structured_value_end (write nested (codes " x")) ≡ some (codes " x")
written_value_ends_example =
    written_value_ends nested (codes " x") (refl, (refl, ((refl, (refl, tt)), tt)))

-- `k=` at the position
abbrev key_pattern : Search
key_pattern before [] = none
key_pattern before (c ∷ []) = none
key_pattern before (c ∷ d ∷ s) = if c == 107 && d == 61 then some 2 else none

key_pattern-Advances : Advances key_pattern
key_pattern-Advances before [] n e = cc
key_pattern-Advances before (c ∷ []) n e = cc
key_pattern-Advances before (c ∷ d ∷ s) n e = ground arith

abbrev patterns : Patterns
patterns = record {
  private_key = λ t. t;
  sensitive_header = λ t. t;
  url_userinfo = λ t. t;
  auth_scheme = λ t. t;
  jwt = λ t. t;
  cli_secret = key_pattern;
  secret_assignment = key_pattern;
}

secret_is_redacted :
    redact_log_message patterns (some (codes "k={a:\"}\"} x")) ≡ some (codes "k=[REDACTED] x")
unfolding redact_log_message
secret_is_redacted = refl

redaction_ends_example : is_some (redact_log_message patterns (some (codes "k={a:\"}\"} x"))) ≡ true
redaction_ends_example =
    redaction_ends patterns (some (codes "k={a:\"}\"} x")) key_pattern-Advances key_pattern-Advances
