-- ===== src/Expression/Parser/Literal.antt =====
-- `parse_literal` of core/expression.py, at the token that it eats.
use agentwire_cue.Prelude.{
  String, Char, Bool, true, false, none, some, ◌||◌, ◌&&◌, ◌==◌, if◌then◌else◌, code, nat_eq,
}
use agentwire_cue.Value.{Runtime, Value, bool, int, float, str}
use agentwire_cue.Outcome.{expression, conversion_error, unrecognized_literal}
use agentwire_cue.Expression.Ast.{Ast, literal}
use agentwire_cue.Expression.Lexicon.{Lexicon}
use agentwire_cue.Expression.Reply.{
  Reply, ok, failed, Yields, value, raised, Yields-if, Yields-option,
}

module _ {rt : Runtime} (lex : Lexicon rt) where
  -- \d*$
  digits : String → Bool
  digits String.[] = true
  digits (String.◌∷◌ c s) = lex.is_digit c && digits s

  -- \d+$
  digits1 : String → Bool
  unfolding digits
  digits1 String.[] = false
  digits1 (String.◌∷◌ c s) = lex.is_digit c && digits s

  -- \d*\.\d+$
  digits_point : String → Bool
  unfolding digits1
  digits_point String.[] = false
  digits_point (String.◌∷◌ c s) =
      if nat_eq (code c) b'.' then digits1 s else lex.is_digit c && digits_point s

  -- \d+\.\d+$
  digits1_point : String → Bool
  unfolding digits_point
  digits1_point String.[] = false
  digits1_point (String.◌∷◌ c s) = lex.is_digit c && digits_point s

-- What follows `-?`.
after_minus : String → String
after_minus String.[] = String.[]
after_minus (String.◌∷◌ c s) = if nat_eq (code c) b'-' then s else String.◌∷◌ c s

-- tok[:-1]
drop_last : String → String
drop_last String.[] = String.[]
drop_last (String.◌∷◌ c String.[]) = String.[]
drop_last (String.◌∷◌ c (String.◌∷◌ d s)) = String.◌∷◌ c (drop_last (String.◌∷◌ d s))

-- tok[1:-1]
middle : String → String
unfolding drop_last
middle String.[] = String.[]
middle (String.◌∷◌ c s) = drop_last s

-- tok.endswith(q), of a quotation mark q
ends_in : Char → String → Bool
ends_in q String.[] = false
ends_in q (String.◌∷◌ c String.[]) = nat_eq (code c) (code q)
ends_in q (String.◌∷◌ c (String.◌∷◌ d s)) = ends_in q (String.◌∷◌ d s)

-- The token begins and ends with the same quotation mark.
is_quoted : String → Bool
unfolding ends_in
is_quoted String.[] = false
is_quoted (String.◌∷◌ c s) =
    (nat_eq (code c) 34 || nat_eq (code c) 39) && ends_in c (String.◌∷◌ c s)

unfoldable pub parse_literal : {rt : Runtime} → Lexicon rt → String → Reply rt (Ast rt)
unfolding digits1 digits1_point after_minus middle is_quoted
parse_literal {rt} lex tok =
    if tok == "true"
    then ok (literal (bool true))
    else if tok == "false"
    then ok (literal (bool false))
    else if tok == "null"
    then ok (literal Value.none)
    else if digits1_point lex (after_minus tok)
    then elim (rt.parse_float tok) [
      | none ↦ failed conversion_error
      | some x ↦ ok (literal (float x))
    ]
    else if digits1 lex (after_minus tok)
    then elim (rt.parse_int tok) [ none ↦ failed conversion_error | some n ↦ ok (literal (int n)) ]
    else if is_quoted tok
    then ok (literal (str (middle tok)))
    else failed (expression (unrecognized_literal tok))

-- A literal is read without fuel.
pub parse_literal-Yields :
    {rt : Runtime} (lex : Lexicon rt) (tok : String)
    → Yields (λ _. Unit {0}) (parse_literal lex tok)
unfolding parse_literal
parse_literal-Yields {rt} lex tok =
    Yields-if (tok == "true") (λ _. value tt)
      (Yields-if (tok == "false") (λ _. value tt)
        (Yields-if (tok == "null") (λ _. value tt)
          (Yields-if (digits1_point lex (after_minus tok))
            (λ _. Yields-option (rt.parse_float tok) raised (λ x. value tt))
            (Yields-if (digits1 lex (after_minus tok))
              (λ _. Yields-option (rt.parse_int tok) raised (λ n. value tt))
              (Yields-if (is_quoted tok) (λ _. value tt) raised)))))
