-- ===== src/Expression/Parser.antt =====
-- The class `_Parser` of core/expression.py, on tokens. The object's `pos` is the list of the
-- tokens from there on, so `peek` is its head; each method returns the tree and the list that is
-- left. Each call costs a unit of fuel, since what a call leaves is no structural part of its input.
mod Literal
pub mod Fuel
pub use Literal.{parse_literal-Yields}
unfoldable pub use Literal.{parse_literal}
use agentwire_cue.Prelude.{
  ℕ, zero, suc, ◌+◌, ◌*◌, String, Bool, true, false, Option, none, some, List, [], ◌∷◌, ◌||◌, ◌==◌,
  if◌then◌else◌, length, contains,
}
use agentwire_cue.Value.{Runtime}
use agentwire_cue.Outcome.{
  expression, expected, trailing_token, end_of_expression, expected_identifier,
}
use agentwire_cue.Expression.Ast.{
  Ast, Args, CmpOp, eq, ne, gt, lt, ge, le, and, or, variable, function, method, cmp, logical,
  no_args, arg,
}
use agentwire_cue.Expression.Lexicon.{Lexicon, starts_name, starts_word}
use agentwire_cue.Expression.Reply.{Reply, ok, failed, out_of_fuel, ◌>>=◌}

abbrev pub Tokens : Type 0
Tokens = List String

-- self.peek() == t
unfoldable pub peek_is : String → Tokens → Bool
peek_is t [] = false
peek_is t (tok ∷ ts) = tok == t

abbrev pub rest_of : Tokens → Tokens
rest_of [] = []
rest_of (tok ∷ ts) = ts

-- `tok in ("==", "!=", ">", "<", ">=", "<=")`
unfoldable pub cmp_op : String → Option CmpOp
cmp_op tok =
    if tok == "=="
    then some eq
    else if tok == "!="
    then some ne
    else if tok == ">"
    then some gt
    else if tok == "<"
    then some lt
    else if tok == ">="
    then some ge
    else if tok == "<="
    then some le
    else none

module _ {rt : Runtime} where
  unfoldable pub eat : String → Tokens → Reply rt Tokens
  unfolding peek_is
  eat t ts = if peek_is t ts then ok (rest_of ts) else failed (expression (expected t))

  -- The loop over ".": the names that follow the first one of a path.
  unfoldable pub path_tail : Lexicon rt → Tokens → Reply rt (Tokens × Tokens)
  path_tail lex [] = ok ([], [])
  path_tail lex (dot ∷ []) =
      if dot == "." then failed (expression expected_identifier) else ok ([], dot ∷ [])
  path_tail lex (dot ∷ name ∷ ts) =
      let more = path_tail lex ts >>= λ (names, rest). ok (name ∷ names, rest) in
      if dot == "."
      then if starts_word lex name then more else failed (expression expected_identifier)
      else ok ([], dot ∷ name ∷ ts)

  unfoldable mutual
    unfolding peek_is cmp_op eat path_tail parse_literal starts_name

    pub parse_or : Lexicon rt → ℕ → Tokens → Reply rt (Ast rt × Tokens)
    parse_or lex zero ts = out_of_fuel
    parse_or lex (suc f) ts = parse_and lex f ts >>= λ (lhs, rest). or_loop lex f lhs rest

    pub or_loop : Lexicon rt → ℕ → Ast rt → Tokens → Reply rt (Ast rt × Tokens)
    or_loop lex zero lhs ts = out_of_fuel
    or_loop lex (suc f) lhs ts =
        let more =
          parse_and lex f (rest_of ts) >>= λ (rhs, rest). or_loop lex f (logical or lhs rhs) rest in
        if peek_is "||" ts then more else ok (lhs, ts)

    pub parse_and : Lexicon rt → ℕ → Tokens → Reply rt (Ast rt × Tokens)
    parse_and lex zero ts = out_of_fuel
    parse_and lex (suc f) ts = parse_not lex f ts >>= λ (lhs, rest). and_loop lex f lhs rest

    pub and_loop : Lexicon rt → ℕ → Ast rt → Tokens → Reply rt (Ast rt × Tokens)
    and_loop lex zero lhs ts = out_of_fuel
    and_loop lex (suc f) lhs ts =
        let more = parse_not lex f (rest_of ts) >>= λ (rhs, rest).
        and_loop lex f (logical and lhs rhs) rest in
        if peek_is "&&" ts then more else ok (lhs, ts)

    pub parse_not : Lexicon rt → ℕ → Tokens → Reply rt (Ast rt × Tokens)
    parse_not lex zero ts = out_of_fuel
    parse_not lex (suc f) ts =
        let negation = parse_not lex f (rest_of ts) >>= λ (a, rest). ok (Ast.not a, rest) in
        let plain = parse_cmp lex f ts in if peek_is "!" ts then negation else plain

    pub parse_cmp : Lexicon rt → ℕ → Tokens → Reply rt (Ast rt × Tokens)
    parse_cmp lex zero ts = out_of_fuel
    parse_cmp lex (suc f) ts = parse_primary lex f ts >>= λ (lhs, rest). cmp_tail lex f lhs rest

    -- The end of `parse_cmp`: at most one comparison operator.
    pub cmp_tail : Lexicon rt → ℕ → Ast rt → Tokens → Reply rt (Ast rt × Tokens)
    cmp_tail lex zero lhs ts = out_of_fuel
    cmp_tail lex (suc f) lhs [] = ok (lhs, [])
    cmp_tail lex (suc f) lhs (tok ∷ ts) = elim (cmp_op tok) [
      | none ↦ ok (lhs, tok ∷ ts)
      | some op ↦ parse_primary lex f ts >>= λ (rhs, rest). ok (cmp op lhs rhs, rest)
    ]

    pub parse_primary : Lexicon rt → ℕ → Tokens → Reply rt (Ast rt × Tokens)
    parse_primary lex zero ts = out_of_fuel
    parse_primary lex (suc f) [] = failed (expression end_of_expression)
    parse_primary lex (suc f) (tok ∷ ts) =
        let group =
          parse_or lex f ts >>= λ (node, rest). eat ")" rest >>= λ after. ok (node, after) in
        let named = parse_variable_or_call lex f tok ts in
        if tok == "("
        then group
        else if tok == "$" || starts_name tok
        then named
        else (parse_literal lex tok >>= λ node. ok (node, ts))

    -- The first token has been eaten.
    pub parse_variable_or_call : Lexicon rt → ℕ → String → Tokens → Reply rt (Ast rt × Tokens)
    parse_variable_or_call lex zero first ts = out_of_fuel
    parse_variable_or_call lex (suc f) first ts =
        let call =
          parse_args lex f (rest_of ts) >>= λ (args, rest). ok (function first args, rest) in
        let dotted = path_tail lex ts >>= λ (names, rest). call_tail lex f (first ∷ names) rest in
        if contains first ("true" ∷ "false" ∷ "null" ∷ [])
        then (parse_literal lex first >>= λ node. ok (node, ts))
        else if peek_is "(" ts
        then call
        else dotted

    -- The end of `parse_variable_or_call`: a method call, or the path alone.
    pub call_tail : Lexicon rt → ℕ → List String → Tokens → Reply rt (Ast rt × Tokens)
    call_tail lex zero path ts = out_of_fuel
    call_tail lex (suc f) path ts =
        let call = parse_args lex f (rest_of ts) >>= λ (args, rest). ok (method path args, rest) in
        if peek_is "(" ts then call else ok (variable path, ts)

    -- The arguments after "(", and the ")" that ends them.
    pub parse_args : Lexicon rt → ℕ → Tokens → Reply rt (Args rt × Tokens)
    parse_args lex zero ts = out_of_fuel
    parse_args lex (suc f) ts =
        let more = parse_or lex f ts >>= λ (a, rest).
        args_loop lex f rest >>= λ (args, after). ok (arg a args, after) in
        if peek_is ")" ts then ok (no_args, rest_of ts) else more

    pub args_loop : Lexicon rt → ℕ → Tokens → Reply rt (Args rt × Tokens)
    args_loop lex zero ts = out_of_fuel
    args_loop lex (suc f) ts =
        let more = parse_or lex f (rest_of ts) >>= λ (a, rest).
        args_loop lex f rest >>= λ (args, after). ok (arg a args, after) in
        let done = eat ")" ts >>= λ after. ok (no_args, after) in
        if peek_is "," ts then more else done

  unfoldable pub finish : Ast rt → Tokens → Reply rt (Ast rt)
  finish node [] = ok node
  finish node (tok ∷ ts) = failed (expression trailing_token)

  -- `parse_expr` of a fresh parser.
  unfoldable pub parse_expr : Lexicon rt → Tokens → Reply rt (Ast rt)
  unfolding parse_or finish
  parse_expr lex ts = parse_or lex (10 * length ts + 7) ts >>= λ (node, rest). finish node rest
