-- ===== src/Redaction/Nested.antt =====
-- The scanners of redaction.py find the end of a written value.
mod Steps
use sbnb.Prelude.{
  ap, none, some, arith, refl, ◌∙◌, if◌then◌else◌, false, ℕ, Bool, true, ◌≡◌, List, [], ◌∷◌, ◌++◌,
  ◌==◌, ◌&&◌, ◌||◌, not,
}
use sbnb.ApplyResults.Record.{Text}
use sbnb.Redaction.{
  unescaped_value_end, quoted_value_end, structured_value_end, closer_of, escaped_quoted_value_end,
  on_closer, Mode, on_char, outside, in_quote, in_escaped, balanced_value_end, backslash, is_quote,
}
use sbnb.Redaction.Written.{
  Bracket, Inside, IsValue, IsWritten, Parts, Quote, Value, closing, has_no_backslash, is_plain,
  is_written, opening, quote_code, write, write_escaped, write_inside, write_parts, write_quoted,
  double, single, square, curly, round, as_is, after_backslash, plain, quoted, escaped, group,
  in_quotes, in_escaped_quotes, in_brackets, end,
}
use sbnb.Redaction.Nested.Steps.{
  closers, as_is-lem, no_backslash, in_quote_step, outside_step, quote_ends, escaped_ends,
  not_closing, plain_facts, other_closer, on_plain, on_opening, on_closing, on_last_closing,
  opening_is_no_backslash, closing_is_no_backslash, quoted_skipped, escaped_skipped, opening_pushes,
  closing_pops,
}

parts_skipped :
    (parts : Parts) (b : Bracket) (bs : List Bracket) (s : Text)
    → IsWritten parts
    → balanced_value_end (closers (b ∷ bs)) outside (write_parts parts s)
      ≡ balanced_value_end (closers (b ∷ bs)) outside s
parts_skipped end b bs s h = refl
parts_skipped (plain c parts) b bs s h =
    outside_step (closers (b ∷ bs)) c (write_parts parts s) (plain_facts c h.0).0
    ∙ on_plain c b bs (write_parts parts s) (λ t m. balanced_value_end t m (write_parts parts s))
        h.0
    ∙ parts_skipped parts b bs s h.1
parts_skipped (quoted q cs parts) b bs s h =
    quoted_skipped q cs (closers (b ∷ bs)) (write_parts parts s) h.0
    ∙ parts_skipped parts b bs s h.1
parts_skipped (escaped q cs parts) b bs s h =
    escaped_skipped q cs (closers (b ∷ bs)) (write_parts parts s) h.0
    ∙ parts_skipped parts b bs s h.1
parts_skipped (group c inner parts) b bs s h =
    opening_pushes c (closers (b ∷ bs)) (write_parts inner (closing c ∷ write_parts parts s))
    ∙ parts_skipped inner c (b ∷ bs) (closing c ∷ write_parts parts s) h.0
    ∙ closing_pops c b bs (write_parts parts s)
    ∙ parts_skipped parts b bs s h.1

brackets_end :
    (b : Bracket) (parts : Parts) (s : Text)
    → IsWritten parts
    → balanced_value_end (closers (b ∷ [])) outside (write_parts parts (closing b ∷ s)) ≡ s
brackets_end b parts s h =
    parts_skipped parts b [] (closing b ∷ s) h
    ∙ outside_step (closers (b ∷ [])) (closing b) s (closing_is_no_backslash b)
    ∙ on_last_closing b s (λ t m. balanced_value_end t m s)

quoted_end_step :
    (q c : ℕ) (s : Text)
    → (c == backslash) ≡ false
    → quoted_value_end q (c ∷ s) ≡ (if c == q then s else quoted_value_end q s)
unfolding quoted_value_end
quoted_end_step q c [] h = ground arith
quoted_end_step q c (d ∷ s) h = rw h refl

quotes_end :
    (q : Quote) (cs : List Inside) (s : Text)
    → is_written q cs ≡ true
    → quoted_value_end (quote_code q) (write_inside cs (quote_code q ∷ s)) ≡ s
unfolding quoted_value_end
quotes_end double [] s h = quoted_end_step 34 34 s refl
quotes_end single [] s h = quoted_end_step 39 39 s refl
quotes_end q (as_is c ∷ cs) s h =
    let (other, rest) = as_is-lem q c cs h in
    quoted_end_step (quote_code q) c (write_inside cs (quote_code q ∷ s)) other.1
    ∙ rw other.0 (quotes_end q cs s rest)
quotes_end q (after_backslash c ∷ cs) s h = quotes_end q cs s h

escaped_quotes_end :
    (q : Quote) (cs s : Text)
    → has_no_backslash cs ≡ true
    → escaped_quoted_value_end (quote_code q) 0 (cs ++ (backslash ∷ quote_code q ∷ s)) ≡ s
unfolding escaped_quoted_value_end
escaped_quotes_end double [] s h = refl
escaped_quotes_end single [] s h = refl
escaped_quotes_end q (c ∷ cs) s h =
    let (other, rest) = no_backslash c cs h in
    rw (other, escaped_quoted_value_end) (escaped_quotes_end q cs s rest)

structured_step :
    (c : ℕ) (s : Text)
    → (c == backslash) ≡ false
    → structured_value_end (c ∷ s) ≡ unescaped_value_end c s
unfolding structured_value_end
structured_step c [] h = refl
structured_step c (d ∷ s) h = rw h refl

bracketed :
    (b : Bracket) (s : Text)
    → unescaped_value_end (opening b) s ≡ some (balanced_value_end (closers (b ∷ [])) outside s)
unfolding unescaped_value_end
bracketed square s = refl
bracketed curly s = refl
bracketed round s = refl

-- The end that `_structured_value_end` finds of a written value is where the value ends, whatever
-- follows it. A written value is a text in quotes or in escaped quotes, or a pair of brackets
-- around plain characters, texts in quotes and in escaped quotes, and further brackets, nested
-- without bound. A text in quotes may have any character after a backslash; one in escaped quotes
-- has no backslash.
pub written_value_ends :
    (v : Value) (s : Text) → IsValue v → structured_value_end (write v s) ≡ some s
unfolding structured_value_end unescaped_value_end
written_value_ends (in_quotes double cs) s h =
    structured_step 34 (write_inside cs (34 ∷ s)) refl ∙ ap some (quotes_end double cs s h)
written_value_ends (in_quotes single cs) s h =
    structured_step 39 (write_inside cs (39 ∷ s)) refl ∙ ap some (quotes_end single cs s h)
written_value_ends (in_escaped_quotes double cs) s h = ap some (escaped_quotes_end double cs s h)
written_value_ends (in_escaped_quotes single cs) s h = ap some (escaped_quotes_end single cs s h)
written_value_ends (in_brackets b parts) s h =
    structured_step (opening b) (write_parts parts (closing b ∷ s)) (opening_is_no_backslash b)
    ∙ bracketed b (write_parts parts (closing b ∷ s))
    ∙ ap some (brackets_end b parts s h)
