-- ===== src/Tests/Expressions.antt =====
-- The theorems on expressions and templates at concrete inputs.
use agentwire_cue.Prelude.{
  ◌≡◌, ◌≢◌, ◌↔◌, ◌==◌, refl, Bool, true, false, [], ◌∷◌, arith, eq_iff, Bool-cases, inl, inr, ap,
  ◌∙◌,
}
use agentwire_cue.Prelude.Int.{pos, ◌<ℤ◌}
use agentwire_cue.Value.{Fields, int, str, dict, end, field}
use agentwire_cue.Value.Dict
use agentwire_cue.Outcome.{ok}
use agentwire_cue.Expression.Ast.{Ast, lt, and, or, literal, variable, cmp, logical}
use agentwire_cue.Expression.Compare.{compare}
use agentwire_cue.Expression.Compare.Ints.{ExactDoubles, compare_exact}
use agentwire_cue.Expression.Eval.{is_allowed, evaluate}
use agentwire_cue.Expression.Eval.Isolation.{AgreeOnWhitelist, evaluate_whitelist}
use agentwire_cue.Expression.Eval.Laws.{verdict, both, either, negated, evaluate_logical}
use agentwire_cue.Expression.Reply as Replies
use agentwire_cue.Expression.Lexer.{tokenize}
use agentwire_cue.Expression.Lexer.Lossless.{Spells, tokenize_lossless}
use agentwire_cue.Expression.Parser.{parse_expr}
use agentwire_cue.Expression.Parser.Fuel.{parse_expr_total}
use agentwire_cue.Expression.Source.{parse, parse_total}
use agentwire_cue.Expression.Template.{render_template}
use agentwire_cue.Expression.Template.Laws.{render_whitelist}
use agentwire_cue.Tests.Sample.{small, no_objects, ascii}

exact : ExactDoubles small
exact = record {
  convert = λ n h. (n, refl);
  lt_exact = λ m n x y hm hn p q. cc;
  le_exact = λ m n x y hm hn p q. cc;
}

compare_exact_example :
    (b : Bool) × (compare {rt = small} (int (pos 3)) lt (int (pos 7)) ≡ ok b)
    × ((b ≡ true) ↔ (pos 3 <ℤ pos 7))
compare_exact_example = compare_exact exact lt (pos 3) (pos 7) (omega arith) (omega arith)

abbrev shown : Fields small
shown = field "context" (dict (field "n" (int (pos 3)) end)) end

abbrev hidden : Fields small
hidden = field "secrets" (str "x") (field "context" (dict (field "n" (int (pos 3)) end)) end)

abbrev small_n : Ast small
small_n = cmp lt (variable ("context" ∷ "n" ∷ [])) (literal (int (pos 5)))

agree : AgreeOnWhitelist shown hidden
unfolding Dict.get is_allowed
agree ns h = elim (Bool-cases ("secrets" == ns)) [
  | inl e ↦
      let impossible : false ≡ true = ap is_allowed ((eq_iff "secrets" ns).0 e) ∙ h in absurd cc
  | inr e ↦ rw (e) refl
]

evaluate_whitelist_example : evaluate no_objects shown small_n ≡ evaluate no_objects hidden small_n
evaluate_whitelist_example = evaluate_whitelist no_objects shown hidden agree small_n

render_whitelist_example :
    render_template ascii no_objects shown "n is {{context.n}}"
    ≡ render_template ascii no_objects hidden "n is {{context.n}}"
render_whitelist_example = render_whitelist ascii no_objects shown hidden agree "n is {{context.n}}"

evaluate_logical_example :
    let va = verdict (evaluate no_objects shown small_n) in
    let vb = verdict (evaluate no_objects shown (literal (int (pos 2)))) in
    (verdict (evaluate no_objects shown (logical and small_n (literal (int (pos 2))))) ≡ both va vb)
    × (verdict (evaluate no_objects shown (logical or small_n (literal (int (pos 2)))))
        ≡ either va vb)
    × (verdict (evaluate no_objects shown (Ast.not small_n)) ≡ negated va)
evaluate_logical_example = evaluate_logical no_objects shown small_n (literal (int (pos 2)))

three_tokens : tokenize ascii "n >= 12" ≡ Replies.Reply.ok ("n" ∷ ">=" ∷ "12" ∷ [])
unfolding tokenize
three_tokens = refl

tokenize_lossless_example : Spells ascii "n >= 12" ("n" ∷ ">=" ∷ "12" ∷ [])
tokenize_lossless_example = tokenize_lossless ascii "n >= 12" ("n" ∷ ">=" ∷ "12" ∷ []) three_tokens

parse_expr_total_example : parse_expr ascii ("!" ∷ "(" ∷ "n" ∷ "." ∷ []) ≢ Replies.out_of_fuel
parse_expr_total_example = parse_expr_total ascii ("!" ∷ "(" ∷ "n" ∷ "." ∷ [])

parse_total_example : parse ascii "context.n < (5" ≢ Replies.out_of_fuel
parse_total_example = parse_total ascii "context.n < (5"
