-- ===== src/ApplyResults/Record.antt =====
-- apply_results.py: the fields of a result and of the JSON that it is written as.
use Prim.Native.Char.{code}
use sbnb.Prelude.{
  ℕ, zero, suc, String, Bool, true, false, ◌&&◌, ◌||◌, Option, none, some, List, [], ◌∷◌, leb, ◌==◌,
  if◌then◌else◌, str_eq,
}

-- Free text, by its code points.
abbrev pub Text : Type 0
Text = List ℕ

pub data Status : Type 0 where
  queued running succeeded succeeded_with_warnings failed superseded : Status

-- VALID_STATUSES
unfoldable pub parse_status : String → Option Status
parse_status s =
    if str_eq s "queued"
    then some queued
    else if str_eq s "running"
    then some running
    else if str_eq s "succeeded"
    then some succeeded
    else if str_eq s "succeeded_with_warnings"
    then some succeeded_with_warnings
    else if str_eq s "failed"
    then some failed
    else if str_eq s "superseded"
    then some superseded
    else none

-- TERMINAL_STATUSES
abbrev pub is_terminal : Status → Bool
is_terminal queued = false
is_terminal running = false
is_terminal _ = true

pub data Kind : Type 0 where
  apply reconcile : Kind

unfoldable pub parse_kind : String → Option Kind
parse_kind s =
    if str_eq s "apply" then some apply else if str_eq s "reconcile" then some reconcile else none

-- REQUEST_ID_RE: groups of 8, 4, 4, 4 and 12 lower-case hexadecimal digits.
is_hex : ℕ → Bool
is_hex c = (leb b'0' c && leb c b'9') || (leb b'a' c && leb c b'f')

-- `n` digits, then what the continuation accepts.
unfoldable pub hex_group : ℕ → (Text → Bool) → Text → Bool
unfolding is_hex
hex_group zero rest s = rest s
hex_group (suc n) rest [] = false
hex_group (suc n) rest (c ∷ s) = is_hex c && hex_group n rest s

dash_then : (Text → Bool) → Text → Bool
dash_then rest [] = false
dash_then rest (c ∷ s) = c == b'-' && rest s

unfoldable pub at_end : Text → Bool
at_end [] = true
at_end (c ∷ s) = false

abbrev pub codes : String → Text
codes String.[] = []
codes (String.◌∷◌ c s) = code c ∷ codes s

unfoldable pub is_request_id : String → Bool
unfolding hex_group dash_then at_end
is_request_id s =
    hex_group 8
      (dash_then (
        hex_group 4
          (dash_then (hex_group 4 (dash_then (hex_group 4 (dash_then (hex_group 12 at_end))))))))
      (codes s)

pub record Warning : Type 0 where
  pub code : Text
  pub instance_uuid : Text
  pub volume : Text

-- A member of a `warnings` list: each field is the text of `str(warning.get(…) or '')`.
pub data RawWarning : Type 0 where
  not_a_dict : RawWarning
  fields : Text → Text → Text → RawWarning

-- A stored result.
pub record Result : Type 0 where
  pub request_id : String
  pub kind : Kind
  pub status : Status
  pub error : Text
  pub warnings : List Warning
  pub applied : Bool
  pub created_at : ℕ
  pub updated_at : ℕ

-- A time of a JSON record: missing, refused by `float`, or a number.
pub data Stamp : Type 0 where
  missing bad : Stamp
  at : ℕ → Stamp

-- A JSON object, by what the sanitiser reads of it.
pub record RawResult : Type 0 where
  pub request_id : String
  pub kind : String
  pub status : String
  pub error : Text
  pub warnings : List RawWarning
  pub applied : Bool
  pub created_at : Stamp
  pub updated_at : Stamp

-- What a `.json` file holds: what cannot be opened or is no JSON, JSON of another kind, an object, or
-- what raises an exception that nothing catches when it is read: bytes that are no UTF-8, warnings
-- that cannot be iterated, a time that is out of range.
pub data Content : Type 0 where
  unreadable other_json raising : Content
  object : RawResult → Content
