-- ===== src/Redaction.antt =====
-- redaction.py: the scanners for the end of a value, `Redaction.redact_prefixed_values`, and
-- `redact_log_message`. A position in the message is the text from there on. The regular expressions
-- are given: `prefix_pattern` answers how far behind the position its match ends.
pub mod Written
pub mod Nested
pub mod Bounds
pub mod Total
use sbnb.Prelude.{
  ◌-◌, ℕ, zero, suc, String, Bool, true, false, not, ◌&&◌, ◌||◌, Option, none, some, List, [], ◌∷◌,
  ◌++◌, ◌==◌, if◌then◌else◌, any, take, drop, length,
}
use sbnb.ApplyResults.Record.{Text, codes}
use sbnb.Rollout.Failure.{starts_with}

abbrev pub backslash : ℕ
backslash = 92

abbrev pub is_quote : ℕ → Bool
is_quote c = c == 34 || c == 39

-- `closers`
abbrev pub closer_of : ℕ → Option ℕ
closer_of c =
    if c == 91 then some 93 else if c == 123 then some 125 else if c == 40 then some 41 else none

-- `_escaped_quoted_value_end`, after so many backslashes: the loop over them is this count
unfoldable pub escaped_quoted_value_end : ℕ → ℕ → Text → Text
escaped_quoted_value_end q slashes [] = []
escaped_quoted_value_end q zero (c ∷ s) =
    escaped_quoted_value_end q (if c == backslash then 1 else 0) s
escaped_quoted_value_end q (suc slashes) (c ∷ s) =
    let on = escaped_quoted_value_end q 0 s in
    let more = escaped_quoted_value_end q (suc (suc slashes)) s in
    if c == backslash then more else if c == q && slashes == 0 then s else on

-- the end of a value in quotes
unfoldable pub quoted_value_end : ℕ → Text → Text
quoted_value_end q [] = []
quoted_value_end q (c ∷ []) = []
quoted_value_end q (c ∷ d ∷ s) =
    let skipping = quoted_value_end q s in
    let on = quoted_value_end q (d ∷ s) in
    if c == backslash then skipping else if c == q then d ∷ s else on

-- `quote` and `escaped_quote`, with the backslashes just read
pub data Mode : Type 0 where
  outside : Mode
  in_quote : ℕ → Mode
  in_escaped : ℕ → ℕ → Mode

-- a character inside a quote that is escaped
abbrev pub escaped_step : ℕ → ℕ → ℕ → Mode
escaped_step q zero c = in_escaped q (if c == backslash then 1 else 0)
escaped_step q (suc slashes) c =
    if c == backslash
    then in_escaped q (suc (suc slashes))
    else if c == q
    then (if slashes == 0 then outside else in_escaped q 0)
    else in_escaped q 0

-- the closer on top of the stack; what comes next is given for each stack and mode
pub on_closer : ℕ → List ℕ → Text → (List ℕ → Mode → Text) → Text
on_closer c [] s next = next [] outside
on_closer c (top ∷ []) s next = if c == top then s else next (top ∷ []) outside
on_closer c (top ∷ below ∷ stack) s next =
    if c == top then next (below ∷ stack) outside else next (top ∷ below ∷ stack) outside

-- a character outside of quotes
pub on_char : ℕ → List ℕ → Text → (List ℕ → Mode → Text) → Text
unfolding on_closer
on_char c stack s next = if is_quote c then next stack (in_quote c) else elim (closer_of c) [
  | some closer ↦ next (closer ∷ stack) outside
  | none ↦ on_closer c stack s next
]

-- the loop of `_structured_value_end` over a balanced value
unfoldable pub balanced_value_end : List ℕ → Mode → Text → Text
unfolding on_char
balanced_value_end stack mode [] = []
balanced_value_end stack (in_escaped q slashes) (c ∷ s) =
    balanced_value_end stack (escaped_step q slashes c) s
balanced_value_end stack (in_quote q) (c ∷ []) = []
balanced_value_end stack (in_quote q) (c ∷ d ∷ s) =
    let skipping = balanced_value_end stack (in_quote q) s in
    let on = balanced_value_end stack (if c == q then outside else in_quote q) (d ∷ s) in
    if c == backslash then skipping else on
balanced_value_end stack outside (c ∷ []) = on_char c stack [] (λ t m. balanced_value_end t m [])
balanced_value_end stack outside (c ∷ d ∷ s) =
    let quoting = balanced_value_end stack (in_escaped d 0) s in
    let on = on_char c stack (d ∷ s) (λ t m. balanced_value_end t m (d ∷ s)) in
    if c == backslash && is_quote d then quoting else on

-- a value that starts with this character; none is the `KeyError` of `closers[opener]`
pub unescaped_value_end : ℕ → Text → Option Text
unfolding quoted_value_end balanced_value_end
unescaped_value_end c s = if is_quote c then some (quoted_value_end c s) else elim (closer_of c) [
  | some closer ↦ some (balanced_value_end (closer ∷ []) outside s)
  | none ↦ none
]

-- `_structured_value_end`
unfoldable pub structured_value_end : Text → Option Text
unfolding unescaped_value_end escaped_quoted_value_end
structured_value_end [] = none
structured_value_end (c ∷ []) = unescaped_value_end c []
structured_value_end (c ∷ d ∷ s) =
    if c == backslash && is_quote d
    then some (escaped_quoted_value_end d 0 s)
    else unescaped_value_end c (d ∷ s)

-- how far `prefix_pattern.search` goes: the text before the position, and the text from there
abbrev pub Search : Type 0
Search = Text → Text → Option ℕ

abbrev pub redacted : Text
redacted = codes "[REDACTED]"

-- a value without quotes or brackets
abbrev pub ends_scalar : ℕ → Bool
ends_scalar c = any (λ d. c == d) (codes " \t\r\n,;&}])")

pub scalar_end : Text → Text
scalar_end [] = []
scalar_end (c ∷ s) = let rest = scalar_end s in if ends_scalar c then c ∷ s else rest

-- what takes the place of a value, and the text after it
pub data Replaced : Type 0 where
  nothing : Replaced
  value : Text → Text → Replaced
  key_error : Replaced

pub with_end : Text → Option Text → Replaced
with_end replacement none = key_error
with_end replacement (some rest) = value replacement rest

is_opener : ℕ → Bool
is_opener c = c == 91 || c == 123 || c == 40

pub scalar : Text → Replaced
unfolding scalar_end
scalar [] = nothing
scalar (c ∷ s) = if ends_scalar c then nothing else value redacted (scalar_end s)

unfoldable pub is_escaped_quote : Text → Bool
is_escaped_quote (c ∷ d ∷ s) = c == backslash && is_quote d
is_escaped_quote _ = false

-- the value that starts here
pub replaced : Text → Replaced
unfolding structured_value_end with_end scalar is_escaped_quote is_opener
replaced [] = nothing
replaced (c ∷ s) =
    let end = structured_value_end (c ∷ s) in
    let delimiter = take 2 (c ∷ s) in
    if is_quote c
    then with_end (c ∷ (redacted ++ (c ∷ []))) end
    else if is_opener c
    then with_end redacted end
    else if is_escaped_quote (c ∷ s)
    then with_end (delimiter ++ redacted ++ delimiter) end
    else scalar (c ∷ s)

-- the text before the position when it moves from one rest to a later one
abbrev pub passed : Text → Text → Text → Text
passed before rest later = before ++ take (length rest - length later) rest

pub prepend : Text → Option Text → Option Text
prepend t none = none
prepend t (some s) = some (t ++ s)

-- what is rendered of the value, then the loop goes on
pub on_value : Text → Replaced → (Text → Option Text) → Option Text
unfolding prepend
on_value value_text nothing next = next value_text
on_value value_text (value replacement rest) next = prepend replacement (next rest)
on_value value_text key_error next = none

pub on_prefix : Text → (Text → Option Text) → Option Text
unfolding on_value replaced prepend starts_with
on_prefix value_text next =
    if starts_with redacted value_text
    then prepend redacted (next (drop 10 value_text))
    else on_value value_text (replaced value_text) next

-- the text is rendered up to the end of the match, then what comes after it
pub on_match : Option ℕ → Text → (Text → Option Text) → Option Text
unfolding on_prefix prepend
on_match none rest next = some rest
on_match (some n) rest next = prepend (take n rest) (on_prefix (drop n rest) next)

-- the loop of `_redact_prefixed_values`; none when the fuel is spent, or for a `KeyError`
unfoldable pub redact_from : Search → ℕ → Text → Text → Option Text
unfolding on_match
redact_from prefix_pattern zero before rest = none
redact_from prefix_pattern (suc fuel) before rest =
    on_match (prefix_pattern before rest) rest
      (λ later. redact_from prefix_pattern fuel (passed before rest later) later)

-- `_redact_prefixed_values`
unfoldable pub redact_prefixed_values : Search → Text → Option Text
unfolding redact_from
redact_prefixed_values prefix_pattern message =
    redact_from prefix_pattern (suc (length message)) [] message

-- `sub` of each pattern, and the two prefix patterns
pub record Patterns : Type 0 where
  pub private_key : Text → Text
  pub sensitive_header : Text → Text
  pub url_userinfo : Text → Text
  pub auth_scheme : Text → Text
  pub jwt : Text → Text
  pub cli_secret : Search
  pub secret_assignment : Search

pub and_then : Option Text → (Text → Option Text) → Option Text
and_then none f = none
and_then (some t) f = f t

-- `redact_log_message`; `str(value)` may raise
unfoldable pub redact_log_message : Patterns → Option Text → Option Text
unfolding and_then redact_prefixed_values
redact_log_message p none = some redacted
redact_log_message p (some message) =
    and_then
      (redact_prefixed_values p.cli_secret
        (p.jwt (p.auth_scheme (p.url_userinfo (p.sensitive_header (p.private_key message))))))
      (redact_prefixed_values p.secret_assignment)
