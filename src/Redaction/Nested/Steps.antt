-- ===== src/Redaction/Nested/Steps.antt =====
-- One step of the loop of `_structured_value_end` (redaction.py) on what is written.
use sbnb.Prelude.{
  none, arith, refl, ◌∙◌, if◌then◌else◌, false, ℕ, true, ◌≡◌, List, [], ◌∷◌, ◌++◌, ◌==◌,
}
use sbnb.ApplyResults.Record.{Text}
use sbnb.Redaction.{
  closer_of, on_closer, Mode, on_char, outside, in_quote, in_escaped, balanced_value_end, backslash,
  is_quote,
}
use sbnb.Redaction.Written.{
  Bracket, Inside, Quote, closing, has_no_backslash, is_plain, is_written, opening, quote_code,
  write_escaped, write_inside, write_quoted, double, single, square, curly, round, as_is,
  after_backslash,
}

abbrev pub closers : List Bracket → List ℕ
closers [] = []
closers (b ∷ bs) = closing b ∷ closers bs

pub as_is-lem :
    (q : Quote) (c : ℕ) (cs : List Inside)
    → is_written q (as_is c ∷ cs) ≡ true
    → (((c == quote_code q) ≡ false) × ((c == backslash) ≡ false)) × (is_written q cs ≡ true)
as_is-lem q c cs h = ground arith

pub no_backslash :
    (c : ℕ) (cs : Text)
    → has_no_backslash (c ∷ cs) ≡ true
    → ((c == backslash) ≡ false) × (has_no_backslash cs ≡ true)
no_backslash c cs h = ground arith

module _ (stack : List ℕ) where
  pub in_quote_step :
      (q c : ℕ) (s : Text)
      → (c == backslash) ≡ false
      → balanced_value_end stack (in_quote q) (c ∷ s)
        ≡ balanced_value_end stack (if c == q then outside else in_quote q) s
  unfolding balanced_value_end
  in_quote_step q c [] h = refl
  in_quote_step q c (d ∷ s) h = rw h refl

  pub outside_step :
      (c : ℕ) (s : Text)
      → (c == backslash) ≡ false
      → balanced_value_end stack outside (c ∷ s)
        ≡ on_char c stack s (λ t m. balanced_value_end t m s)
  unfolding balanced_value_end
  outside_step c [] h = refl
  outside_step c (d ∷ s) h = rw h refl

  pub quote_ends :
      (q : Quote) (cs : List Inside) (s : Text)
      → is_written q cs ≡ true
      → balanced_value_end stack (in_quote (quote_code q)) (write_inside cs (quote_code q ∷ s))
        ≡ balanced_value_end stack outside s
  unfolding balanced_value_end
  quote_ends double [] s h = in_quote_step 34 34 s refl
  quote_ends single [] s h = in_quote_step 39 39 s refl
  quote_ends q (as_is c ∷ cs) s h =
      let (other, rest) = as_is-lem q c cs h in
      in_quote_step (quote_code q) c (write_inside cs (quote_code q ∷ s)) other.1
      ∙ rw other.0 (quote_ends q cs s rest)
  quote_ends q (after_backslash c ∷ cs) s h = quote_ends q cs s h

  pub escaped_ends :
      (q : Quote) (cs : Text) (s : Text)
      → has_no_backslash cs ≡ true
      → balanced_value_end stack
          (in_escaped (quote_code q) 0)
          (cs ++ (backslash ∷ quote_code q ∷ s))
        ≡ balanced_value_end stack outside s
  unfolding balanced_value_end
  escaped_ends double [] s h = refl
  escaped_ends single [] s h = refl
  escaped_ends q (c ∷ cs) s h =
      let (other, rest) = no_backslash c cs h in rw other (escaped_ends q cs s rest)

pub not_closing : (c : ℕ) → is_plain c ≡ true → (b : Bracket) → (c == closing b) ≡ false
not_closing c h square = ground arith
not_closing c h curly = ground arith
not_closing c h round = ground arith

pub plain_facts :
    (c : ℕ)
    → is_plain c ≡ true
    → ((c == backslash) ≡ false)
      × (is_quote c ≡ false)
      × (closer_of c ≡ none)
      × ((b : Bracket) → (c == closing b) ≡ false)
plain_facts c h = (ground arith, ground arith, ground arith, not_closing c h)

pub other_closer :
    (c top : ℕ) (bs : List Bracket) (s : Text) (next : List ℕ → Mode → Text)
    → (c == top) ≡ false
    → on_closer c (top ∷ closers bs) s next ≡ next (top ∷ closers bs) outside
unfolding on_closer
other_closer c top [] s next h = rw h refl
other_closer c top (b ∷ bs) s next h = rw h refl

pub on_plain :
    (c : ℕ) (b : Bracket) (bs : List Bracket) (s : Text) (next : List ℕ → Mode → Text)
    → is_plain c ≡ true
    → on_char c (closers (b ∷ bs)) s next ≡ next (closers (b ∷ bs)) outside
unfolding on_char on_closer
on_plain c b bs s next h =
    let facts = plain_facts c h in
    rw (facts.1, facts.2) (other_closer c (closing b) bs s next (facts.3 b))

pub on_opening :
    (b : Bracket) (stack : List ℕ) (s : Text) (next : List ℕ → Mode → Text)
    → on_char (opening b) stack s next ≡ next (closing b ∷ stack) outside
unfolding on_char
on_opening square stack s next = refl
on_opening curly stack s next = refl
on_opening round stack s next = refl

pub on_closing :
    (b c : Bracket) (bs : List Bracket) (s : Text) (next : List ℕ → Mode → Text)
    → on_char (closing b) (closers (b ∷ c ∷ bs)) s next ≡ next (closers (c ∷ bs)) outside
unfolding on_char on_closer
on_closing square c bs s next = refl
on_closing curly c bs s next = refl
on_closing round c bs s next = refl

pub on_last_closing :
    (b : Bracket) (s : Text) (next : List ℕ → Mode → Text)
    → on_char (closing b) (closers (b ∷ [])) s next ≡ s
unfolding on_char on_closer
on_last_closing square s next = refl
on_last_closing curly s next = refl
on_last_closing round s next = refl

pub opening_is_no_backslash : (b : Bracket) → (opening b == backslash) ≡ false
opening_is_no_backslash square = refl
opening_is_no_backslash curly = refl
opening_is_no_backslash round = refl

pub closing_is_no_backslash : (b : Bracket) → (closing b == backslash) ≡ false
closing_is_no_backslash square = refl
closing_is_no_backslash curly = refl
closing_is_no_backslash round = refl

pub quoted_skipped :
    (q : Quote) (cs : List Inside) (stack : List ℕ) (s : Text)
    → is_written q cs ≡ true
    → balanced_value_end stack outside (write_quoted q cs s) ≡ balanced_value_end stack outside s
unfolding on_char
quoted_skipped double cs stack s h =
    outside_step stack 34 (write_inside cs (34 ∷ s)) refl ∙ quote_ends stack double cs s h
quoted_skipped single cs stack s h =
    outside_step stack 39 (write_inside cs (39 ∷ s)) refl ∙ quote_ends stack single cs s h

pub escaped_skipped :
    (q : Quote) (cs : Text) (stack : List ℕ) (s : Text)
    → has_no_backslash cs ≡ true
    → balanced_value_end stack outside (write_escaped q cs s) ≡ balanced_value_end stack outside s
unfolding balanced_value_end
escaped_skipped double cs stack s h = escaped_ends stack double cs s h
escaped_skipped single cs stack s h = escaped_ends stack single cs s h

pub opening_pushes :
    (b : Bracket) (stack : List ℕ) (s : Text)
    → balanced_value_end stack outside (opening b ∷ s)
      ≡ balanced_value_end (closing b ∷ stack) outside s
opening_pushes b stack s =
    outside_step stack (opening b) s (opening_is_no_backslash b)
    ∙ on_opening b stack s (λ t m. balanced_value_end t m s)

pub closing_pops :
    (b c : Bracket) (bs : List Bracket) (s : Text)
    → balanced_value_end (closers (b ∷ c ∷ bs)) outside (closing b ∷ s)
      ≡ balanced_value_end (closers (c ∷ bs)) outside s
closing_pops b c bs s =
    outside_step (closers (b ∷ c ∷ bs)) (closing b) s (closing_is_no_backslash b)
    ∙ on_closing b c bs s (λ t m. balanced_value_end t m s)
