-- ===== src/Expression/Eval/Laws.antt =====
-- The logical operators of the expression language.
use agentwire_cue.Prelude.{◌≡◌, Bool, true, false, not, arith, if◌then◌else◌}
use agentwire_cue.Value.{Runtime, Value, Fields, truthy}
use agentwire_cue.Outcome.{Result, ok, err, ◌>>=◌}
use agentwire_cue.Expression.Ast.{Ast, and, or, logical}
use agentwire_cue.Expression.Eval.{Objects, evaluate}

-- What a guard makes of a result: its truth value, or the exception.
unfoldable pub verdict : {rt : Runtime} → Result rt (Value rt) → Result rt Bool
verdict (ok v) = ok (truthy v)
verdict (err e) = err e

-- Conjunction and disjunction from left to right: the right side counts, and may raise, only where
-- the left one does not decide.
abbrev pub both : {rt : Runtime} → Result rt Bool → Result rt Bool → Result rt Bool
both p q = p >>= λ b. if b then q else ok false

abbrev pub either : {rt : Runtime} → Result rt Bool → Result rt Bool → Result rt Bool
either p q = p >>= λ b. if b then ok true else q

abbrev pub negated : {rt : Runtime} → Result rt Bool → Result rt Bool
negated p = p >>= λ b. ok (not b)

module _ {rt : Runtime} (py : Objects rt) (env : Fields rt) where
  -- `&&`, `||` and `!` are short-circuit conjunction, disjunction and negation of the truth values
  -- of their operands, exceptions included, though they return operands and not bools.
  pub evaluate_logical :
      (a b : Ast rt)
      → let va = verdict (evaluate py env a) in
        let vb = verdict (evaluate py env b) in
        (verdict (evaluate py env (logical and a b)) ≡ both va vb)
        × (verdict (evaluate py env (logical or a b)) ≡ either va vb)
        × (verdict (evaluate py env (Ast.not a)) ≡ negated va)
  unfolding evaluate verdict
  evaluate_logical a b = ground arith

  -- De Morgan's laws: both sides have the same value, or raise the same exception, whatever the
  -- operands are.
  pub de_morgan :
      (a b : Ast rt)
      → (evaluate py env (Ast.not (logical and a b))
          ≡ evaluate py env (logical or (Ast.not a) (Ast.not b)))
        × (evaluate py env (Ast.not (logical or a b))
            ≡ evaluate py env (logical and (Ast.not a) (Ast.not b)))
  unfolding evaluate
  de_morgan a b = ground arith
