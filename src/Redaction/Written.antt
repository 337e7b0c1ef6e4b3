-- ===== src/Redaction/Written.antt =====
-- The values that redaction.py finds the end of, and how they are written.
use sbnb.Prelude.{ℕ, Bool, true, ◌≡◌, List, [], ◌∷◌, ◌++◌, ◌==◌, ◌&&◌, ◌||◌, not}
use sbnb.ApplyResults.Record.{Text}
use sbnb.Redaction.{backslash, is_quote}

-- the quotes and the brackets, each with how it is written
pub data Quote : Type 0 where
  double single : Quote

pub data Bracket : Type 0 where
  square curly round : Bracket

abbrev pub quote_code : Quote → ℕ
quote_code double = 34
quote_code single = 39

abbrev pub opening : Bracket → ℕ
opening square = 91
opening curly = 123
opening round = 40

abbrev pub closing : Bracket → ℕ
closing square = 93
closing curly = 125
closing round = 41

-- a character in a quote: one that is written as it is, or one after a backslash
pub data Inside : Type 0 where
  as_is after_backslash : ℕ → Inside

-- the parts of a value, one after the other
pub data Parts : Type 0 where
  end : Parts
  plain : ℕ → Parts → Parts
  quoted : Quote → List Inside → Parts → Parts
  escaped : Quote → Text → Parts → Parts
  group : Bracket → Parts → Parts → Parts

-- what is written before some text
abbrev pub write_inside : List Inside → Text → Text
write_inside [] s = s
write_inside (as_is c ∷ cs) s = c ∷ write_inside cs s
write_inside (after_backslash c ∷ cs) s = backslash ∷ c ∷ write_inside cs s

abbrev pub write_quoted : Quote → List Inside → Text → Text
write_quoted q cs s = quote_code q ∷ write_inside cs (quote_code q ∷ s)

abbrev pub write_escaped : Quote → Text → Text → Text
write_escaped q cs s = backslash ∷ quote_code q ∷ (cs ++ (backslash ∷ quote_code q ∷ s))

abbrev pub write_parts : Parts → Text → Text
write_parts end s = s
write_parts (plain c parts) s = c ∷ write_parts parts s
write_parts (quoted q cs parts) s = write_quoted q cs (write_parts parts s)
write_parts (escaped q cs parts) s = write_escaped q cs (write_parts parts s)
write_parts (group b inner parts) s =
    opening b ∷ write_parts inner (closing b ∷ write_parts parts s)

-- not a quote, a bracket or a backslash
abbrev pub is_plain : ℕ → Bool
is_plain c = not (
    is_quote c
    || c == backslash
    || c == 91
    || c == 123
    || c == 40
    || c == 93
    || c == 125
    || c == 41)

abbrev pub is_written : Quote → List Inside → Bool
is_written q [] = true
is_written q (as_is c ∷ cs) = not (c == quote_code q || c == backslash) && is_written q cs
is_written q (after_backslash c ∷ cs) = is_written q cs

abbrev pub has_no_backslash : Text → Bool
has_no_backslash [] = true
has_no_backslash (c ∷ cs) = not (c == backslash) && has_no_backslash cs

-- Each character can stand where it stands.
abbrev pub IsWritten : Parts → Type 0
IsWritten end = Unit
IsWritten (plain c parts) = (is_plain c ≡ true) × IsWritten parts
IsWritten (quoted q cs parts) = (is_written q cs ≡ true) × IsWritten parts
IsWritten (escaped q cs parts) = (has_no_backslash cs ≡ true) × IsWritten parts
IsWritten (group b inner parts) = IsWritten inner × IsWritten parts

pub data Value : Type 0 where
  in_quotes : Quote → List Inside → Value
  in_escaped_quotes : Quote → Text → Value
  in_brackets : Bracket → Parts → Value

abbrev pub write : Value → Text → Text
write (in_quotes q cs) s = write_quoted q cs s
write (in_escaped_quotes q cs) s = write_escaped q cs s
write (in_brackets b parts) s = opening b ∷ write_parts parts (closing b ∷ s)

abbrev pub IsValue : Value → Type 0
IsValue (in_quotes q cs) = is_written q cs ≡ true
IsValue (in_escaped_quotes q cs) = has_no_backslash cs ≡ true
IsValue (in_brackets b parts) = IsWritten parts
