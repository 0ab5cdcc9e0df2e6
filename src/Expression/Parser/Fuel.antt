-- ===== src/Expression/Parser/Fuel.antt =====
-- The fuel of `parse_expr` suffices for every token list: each method leaves fewer tokens than it
-- was given, and ten units of fuel for each token pay for the calls between two tokens.
use agentwire_cue.Prelude.{
  ℕ, zero, suc, ◌+◌, ◌*◌, ◌<◌, ◌≢◌, ◌||◌, ◌≡◌, ◌==◌, String, true, List, [], ◌∷◌, arith, length,
  contains,
}
use agentwire_cue.Value.{Runtime}
use agentwire_cue.Expression.Ast.{Ast, and, or, logical}
use agentwire_cue.Expression.Lexicon.{Lexicon, starts_name, starts_word}
use agentwire_cue.Expression.Reply.{
  Reply, ok, out_of_fuel, ◌>>=◌, Yields, value, raised, Yields-ne-out_of_fuel, Yields-if,
  Yields-option, Yields-bind,
}
use agentwire_cue.Expression.Parser.{
  Tokens, peek_is, rest_of, cmp_op, eat, path_tail, parse_literal, parse_literal-Yields, parse_or,
  or_loop, parse_and, and_loop, parse_not, parse_cmp, cmp_tail, parse_primary,
  parse_variable_or_call, call_tail, parse_args, args_loop, finish, parse_expr,
}

-- The method leaves fewer than `n` tokens.
abbrev Leaves : {rt : Runtime} {A : Type 0} → ℕ → Reply rt (A × Tokens) → Type 0
Leaves n r = Yields (λ p. length p.1 < n) r

length-rest_of :
    (t : String) (ts : Tokens) → peek_is t ts ≡ true → length ts ≡ suc (length (rest_of ts))
unfolding peek_is
length-rest_of t [] h = cc
length-rest_of t (tok ∷ ts) h = omega arith

module _ {rt : Runtime} where
  eat-Leaves :
      (t : String) (ts : Tokens) → Yields {rt = rt} (λ rest. length rest < length ts) (eat t ts)
  unfolding eat peek_is
  eat-Leaves t [] = raised
  eat-Leaves t (tok ∷ ts) = Yields-if (tok == t) (λ _. value (omega arith)) raised

  finish-Yields : (node : Ast rt) (ts : Tokens) → Yields (λ _. Unit {0}) (finish node ts)
  unfolding finish
  finish-Yields node [] = value tt
  finish-Yields node (tok ∷ ts) = raised

module _ {rt : Runtime} (lex : Lexicon rt) where
  -- A literal eats its one token.
  literal-Leaves :
      (tok : String) (ts : Tokens)
      → Leaves (suc (length ts)) (parse_literal lex tok >>= λ node. ok (node, ts))
  literal-Leaves tok ts = Yields-bind (parse_literal-Yields lex tok) λ node _. value (omega arith)

  path_tail-Leaves : (ts : Tokens) → Leaves (suc (length ts)) (path_tail lex ts)
  unfolding path_tail
  path_tail-Leaves [] = value (omega arith)
  path_tail-Leaves (dot ∷ []) = Yields-if (dot == ".") (λ _. raised) (value (omega arith))
  path_tail-Leaves (dot ∷ name ∷ ts) =
      Yields-if (dot == ".")
        (λ _.
          Yields-if (starts_word lex name)
            (λ _. Yields-bind (path_tail-Leaves ts) λ (names, rest) h. value (omega arith)) raised)
        (value (omega arith))

mutual
  unfolding parse_or

  parse_or-Leaves :
      {rt : Runtime} (lex : Lexicon rt) (f : ℕ) (ts : Tokens)
      → 10 * length ts + 6 < f
      → Leaves (length ts) (parse_or lex f ts)
  parse_or-Leaves lex zero ts h = absurd (omega arith)
  parse_or-Leaves lex (suc f) ts h =
      Yields-bind (parse_and-Leaves lex f ts (omega arith))
        λ (lhs, rest) p. or_loop-Leaves lex f lhs rest (length ts) p (omega arith)

  or_loop-Leaves :
      {rt : Runtime} (lex : Lexicon rt) (f : ℕ) (lhs : Ast rt) (ts : Tokens) (n : ℕ)
      → length ts < n
      → 10 * length ts + 1 < f
      → Leaves n (or_loop lex f lhs ts)
  or_loop-Leaves lex zero lhs ts n k h = absurd (omega arith)
  or_loop-Leaves lex (suc f) lhs ts n k h =
      Yields-if (peek_is "||" ts)
        (λ e.
          let eaten = length-rest_of "||" ts e in
          Yields-bind (parse_and-Leaves lex f (rest_of ts) (omega arith)) λ (rhs, rest) p.
            or_loop-Leaves lex f (logical or lhs rhs) rest n (omega arith) (omega arith))
        (value k)

  parse_and-Leaves :
      {rt : Runtime} (lex : Lexicon rt) (f : ℕ) (ts : Tokens)
      → 10 * length ts + 5 < f
      → Leaves (length ts) (parse_and lex f ts)
  parse_and-Leaves lex zero ts h = absurd (omega arith)
  parse_and-Leaves lex (suc f) ts h =
      Yields-bind (parse_not-Leaves lex f ts (omega arith))
        λ (lhs, rest) p. and_loop-Leaves lex f lhs rest (length ts) p (omega arith)

  and_loop-Leaves :
      {rt : Runtime} (lex : Lexicon rt) (f : ℕ) (lhs : Ast rt) (ts : Tokens) (n : ℕ)
      → length ts < n
      → 10 * length ts + 1 < f
      → Leaves n (and_loop lex f lhs ts)
  and_loop-Leaves lex zero lhs ts n k h = absurd (omega arith)
  and_loop-Leaves lex (suc f) lhs ts n k h =
      Yields-if (peek_is "&&" ts)
        (λ e.
          let eaten = length-rest_of "&&" ts e in
          Yields-bind (parse_not-Leaves lex f (rest_of ts) (omega arith)) λ (rhs, rest) p.
            and_loop-Leaves lex f (logical and lhs rhs) rest n (omega arith) (omega arith))
        (value k)

  parse_not-Leaves :
      {rt : Runtime} (lex : Lexicon rt) (f : ℕ) (ts : Tokens)
      → 10 * length ts + 4 < f
      → Leaves (length ts) (parse_not lex f ts)
  parse_not-Leaves lex zero ts h = absurd (omega arith)
  parse_not-Leaves lex (suc f) ts h =
      Yields-if (peek_is "!" ts)
        (λ e.
          let eaten = length-rest_of "!" ts e in
          Yields-bind (parse_not-Leaves lex f (rest_of ts) (omega arith))
            λ (a, rest) p. value (omega arith))
        (parse_cmp-Leaves lex f ts (omega arith))

  parse_cmp-Leaves :
      {rt : Runtime} (lex : Lexicon rt) (f : ℕ) (ts : Tokens)
      → 10 * length ts + 3 < f
      → Leaves (length ts) (parse_cmp lex f ts)
  parse_cmp-Leaves lex zero ts h = absurd (omega arith)
  parse_cmp-Leaves lex (suc f) ts h =
      Yields-bind (parse_primary-Leaves lex f ts (omega arith))
        λ (lhs, rest) p. cmp_tail-Leaves lex f lhs rest (length ts) p (omega arith)

  cmp_tail-Leaves :
      {rt : Runtime} (lex : Lexicon rt) (f : ℕ) (lhs : Ast rt) (ts : Tokens) (n : ℕ)
      → length ts < n
      → 10 * length ts + 1 < f
      → Leaves n (cmp_tail lex f lhs ts)
  cmp_tail-Leaves lex zero lhs ts n k h = absurd (omega arith)
  cmp_tail-Leaves lex (suc f) lhs [] n k h = value k
  cmp_tail-Leaves lex (suc f) lhs (tok ∷ ts) n k h = Yields-option (cmp_op tok) (value k) λ op.
      Yields-bind (parse_primary-Leaves lex f ts (omega arith)) λ (rhs, rest) p. value (omega arith)

  parse_primary-Leaves :
      {rt : Runtime} (lex : Lexicon rt) (f : ℕ) (ts : Tokens)
      → 10 * length ts + 2 < f
      → Leaves (length ts) (parse_primary lex f ts)
  parse_primary-Leaves lex zero ts h = absurd (omega arith)
  parse_primary-Leaves lex (suc f) [] h = raised
  parse_primary-Leaves lex (suc f) (tok ∷ ts) h =
      Yields-if (tok == "(")
        (λ _.
          Yields-bind (parse_or-Leaves lex f ts (omega arith))
            λ (node, rest) p. Yields-bind (eat-Leaves ")" rest) λ after q. value (omega arith))
        (Yields-if (tok == "$" || starts_name tok)
          (λ _. parse_variable_or_call-Leaves lex f tok ts (omega arith))
          (literal-Leaves lex tok ts))

  parse_variable_or_call-Leaves :
      {rt : Runtime} (lex : Lexicon rt) (f : ℕ) (first : String) (ts : Tokens)
      → 10 * length ts + 9 < f
      → Leaves (suc (length ts)) (parse_variable_or_call lex f first ts)
  parse_variable_or_call-Leaves lex zero first ts h = absurd (omega arith)
  parse_variable_or_call-Leaves lex (suc f) first ts h =
      Yields-if (contains first ("true" ∷ "false" ∷ "null" ∷ [])) (λ _. literal-Leaves lex first ts)
        (Yields-if (peek_is "(" ts)
          (λ e.
            let eaten = length-rest_of "(" ts e in
            Yields-bind (parse_args-Leaves lex f (rest_of ts) (omega arith))
              λ (args, rest) p. value (omega arith))
          (Yields-bind (path_tail-Leaves lex ts) λ (names, rest) p.
            call_tail-Leaves lex f (first ∷ names) rest (suc (length ts)) p (omega arith)))

  call_tail-Leaves :
      {rt : Runtime} (lex : Lexicon rt) (f : ℕ) (path : List String) (ts : Tokens) (n : ℕ)
      → length ts < n
      → 10 * length ts + 8 < f
      → Leaves n (call_tail lex f path ts)
  call_tail-Leaves lex zero path ts n k h = absurd (omega arith)
  call_tail-Leaves lex (suc f) path ts n k h =
      Yields-if (peek_is "(" ts)
        (λ e.
          let eaten = length-rest_of "(" ts e in
          Yields-bind (parse_args-Leaves lex f (rest_of ts) (omega arith))
            λ (args, rest) p. value (omega arith))
        (value k)

  parse_args-Leaves :
      {rt : Runtime} (lex : Lexicon rt) (f : ℕ) (ts : Tokens)
      → 10 * length ts + 7 < f
      → Leaves (length ts) (parse_args lex f ts)
  parse_args-Leaves lex zero ts h = absurd (omega arith)
  parse_args-Leaves lex (suc f) ts h =
      Yields-if (peek_is ")" ts) (λ e. let eaten = length-rest_of ")" ts e in value (omega arith))
        (Yields-bind (parse_or-Leaves lex f ts (omega arith)) λ (a, rest) p.
          Yields-bind (args_loop-Leaves lex f rest (omega arith))
            λ (args, after) q. value (omega arith))

  args_loop-Leaves :
      {rt : Runtime} (lex : Lexicon rt) (f : ℕ) (ts : Tokens)
      → 10 * length ts + 1 < f
      → Leaves (length ts) (args_loop lex f ts)
  args_loop-Leaves lex zero ts h = absurd (omega arith)
  args_loop-Leaves lex (suc f) ts h =
      Yields-if (peek_is "," ts)
        (λ e.
          let eaten = length-rest_of "," ts e in
          Yields-bind (parse_or-Leaves lex f (rest_of ts) (omega arith)) λ (a, rest) p.
            Yields-bind (args_loop-Leaves lex f rest (omega arith))
              λ (args, after) q. value (omega arith))
        (Yields-bind (eat-Leaves ")" ts) λ after q. value q)

-- The parser terminates on every list of tokens with a tree or an exception: it never runs out of
-- the fuel that `parse_expr` gives it, ten units for each token.
pub parse_expr_total :
    {rt : Runtime} (lex : Lexicon rt) (ts : Tokens) → parse_expr lex ts ≢ out_of_fuel
unfolding parse_expr
parse_expr_total lex ts = Yields-ne-out_of_fuel (
    Yields-bind (parse_or-Leaves lex (10 * length ts + 7) ts (omega arith))
      λ (node, rest) p. finish-Yields node rest)
