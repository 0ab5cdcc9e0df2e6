-- ===== src/Expression/Eval/Isolation.antt =====
-- What an expression can read of its environment.
use agentwire_cue.Prelude.{String, ◌≡◌, refl, true, List, [], ◌∷◌, arith, Bool-cases, inl, inr}
use agentwire_cue.Value.{Runtime, Value, Values, Fields}
use agentwire_cue.Value.Dict
use agentwire_cue.Outcome.{Result, ok, err}
use agentwire_cue.Expression.Ast.{
  Ast, Args, and, or, literal, variable, function, method, cmp, logical, no_args, arg,
}
use agentwire_cue.Expression.Eval.{
  Objects, is_allowed, require, since, resolve_path, split_last, duration_in_state, method_call,
  call_function, evaluate, evaluate_args, evaluate_first,
}

-- The two environments have the same entries under the seven namespaces of the whitelist.
abbrev pub AgreeOnWhitelist : {rt : Runtime} → Fields rt → Fields rt → Type 0
AgreeOnWhitelist d e = (ns : String) → is_allowed ns ≡ true → Dict.get ns d ≡ Dict.get ns e

module _ {rt : Runtime} (py : Objects rt) (d e : Fields rt) (agree : AgreeOnWhitelist d e) where
  require_now : require py "now" d ≡ require py "now" e
  unfolding require is_allowed
  require_now = ground (arith, agree "now" refl)

  duration_in_state-isolated : duration_in_state py d ≡ duration_in_state py e
  unfolding duration_in_state is_allowed
  duration_in_state-isolated = ground (arith, agree "state" refl)

  since-isolated : (ts : Value rt) → since py d ts ≡ since py e ts
  unfolding since
  since-isolated ts = ground (arith, require_now)

  pub resolve_path-isolated : (path : List String) → resolve_path py d path ≡ resolve_path py e path
  unfolding resolve_path
  resolve_path-isolated [] = refl
  resolve_path-isolated (ns ∷ keys) = elim (Bool-cases (is_allowed ns)) [
    | inl h ↦ ground (arith, agree ns h, require_now)
    | inr h ↦ ground arith
  ]

  method_call-isolated :
      (path : List String) (args : Result rt (Values rt))
      → method_call py d path args ≡ method_call py e path args
  unfolding method_call
  method_call-isolated [] args = refl
  method_call-isolated (ns ∷ keys) args =
      ground (arith, resolve_path-isolated (split_last py ns keys).0)

  call_function-isolated :
      (name : String) (args : Args rt) (first : Result rt (Value rt))
      → call_function py d name args first ≡ call_function py e name args first
  unfolding call_function
  call_function-isolated name no_args first =
      ground (arith, require_now, duration_in_state-isolated)
  call_function-isolated name (arg a no_args) (ok ts) = ground (arith, since-isolated ts)
  call_function-isolated name (arg a no_args) (err x) = refl
  call_function-isolated name (arg a (arg b args)) first = refl

mutual
  unfolding evaluate

  evaluate-isolated :
      {rt : Runtime} (py : Objects rt) (d e : Fields rt)
      → AgreeOnWhitelist d e
      → (a : Ast rt) → evaluate py d a ≡ evaluate py e a
  evaluate-isolated py d e agree (literal v) = refl
  evaluate-isolated py d e agree (variable path) = resolve_path-isolated py d e agree path
  evaluate-isolated py d e agree (function name args) = cc (
    evaluate_first-isolated py d e agree args,
    call_function-isolated py d e agree name args (evaluate_first py d args),
  )
  evaluate-isolated py d e agree (method path args) = cc (
    evaluate_args-isolated py d e agree args,
    method_call-isolated py d e agree path (evaluate_args py d args),
  )
  evaluate-isolated py d e agree (cmp op a b) =
      rw (evaluate-isolated py d e agree a, evaluate-isolated py d e agree b)
  evaluate-isolated py d e agree (logical and a b) =
      rw (evaluate-isolated py d e agree a, evaluate-isolated py d e agree b)
  evaluate-isolated py d e agree (logical or a b) =
      rw (evaluate-isolated py d e agree a, evaluate-isolated py d e agree b)
  evaluate-isolated py d e agree (Ast.not a) = rw (evaluate-isolated py d e agree a)

  evaluate_args-isolated :
      {rt : Runtime} (py : Objects rt) (d e : Fields rt)
      → AgreeOnWhitelist d e
      → (args : Args rt) → evaluate_args py d args ≡ evaluate_args py e args
  evaluate_args-isolated py d e agree no_args = refl
  evaluate_args-isolated py d e agree (arg a args) =
      rw (evaluate-isolated py d e agree a, evaluate_args-isolated py d e agree args)

  evaluate_first-isolated :
      {rt : Runtime} (py : Objects rt) (d e : Fields rt)
      → AgreeOnWhitelist d e
      → (args : Args rt) → evaluate_first py d args ≡ evaluate_first py e args
  evaluate_first-isolated py d e agree no_args = refl
  evaluate_first-isolated py d e agree (arg a args) = evaluate-isolated py d e agree a

-- An expression reads its environment under the seven namespaces of the whitelist only: entries
-- under other names change neither its value nor its exception.
pub evaluate_whitelist :
    {rt : Runtime} (py : Objects rt) (d e : Fields rt)
    → AgreeOnWhitelist d e
    → (a : Ast rt) → evaluate py d a ≡ evaluate py e a
evaluate_whitelist py d e agree a = evaluate-isolated py d e agree a
