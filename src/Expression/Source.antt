-- ===== src/Expression/Source.antt =====
-- `parse` of core/expression.py: from the text of an expression to its tree.
use agentwire_cue.Prelude.{String, ◌≢◌}
use agentwire_cue.Value.{Runtime}
use agentwire_cue.Expression.Ast.{Ast}
use agentwire_cue.Expression.Lexicon.{Lexicon}
use agentwire_cue.Expression.Lexer.{tokenize}
use agentwire_cue.Expression.Lexer.Lossless.{tokenize_total}
use agentwire_cue.Expression.Parser.{parse_expr}
use agentwire_cue.Expression.Parser.Fuel.{parse_expr_total}
use agentwire_cue.Expression.Reply.{Reply, out_of_fuel, bind-ne-out_of_fuel, ◌>>=◌}

unfoldable pub parse : {rt : Runtime} → Lexicon rt → String → Reply rt (Ast rt)
unfolding tokenize parse_expr
parse lex expr = tokenize lex expr >>= parse_expr lex

-- Every text of an expression is parsed to a tree or to an exception; neither the lexer nor the
-- parser can be made to go on for ever.
pub parse_total : {rt : Runtime} (lex : Lexicon rt) (expr : String) → parse lex expr ≢ out_of_fuel
unfolding parse
parse_total lex expr =
    bind-ne-out_of_fuel (tokenize lex expr) (parse_expr lex) (tokenize_total lex expr)
      (parse_expr_total lex)
