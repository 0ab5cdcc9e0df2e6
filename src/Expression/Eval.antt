-- ===== src/Expression/Eval.antt =====
-- `_resolve_path`, `_call_function` and `evaluate` of core/expression.py.
pub mod Laws
pub mod Isolation
use agentwire_cue.Prelude.{
  String, Bool, true, false, not, ◌||◌, none, some, List, [], ◌∷◌, contains, ◌==◌, if◌then◌else◌,
}
use agentwire_cue.Prelude.Int.{ℤ, pos, ◌-ℤ◌}
use agentwire_cue.Value.{
  Runtime, Value, Values, Fields, bool, int, float, str, dict, nil, cons, truthy, is_none,
  is_number,
}
use agentwire_cue.Value.Dict
use agentwire_cue.Outcome.{
  Result, ok, err, expression, diagnostic, key_error, conversion_error, type_error, empty_path,
  now_is_function, now_arguments, since_arguments, since_not_numeric, duration_arguments,
  forbidden_namespace, unknown_function, ◌>>=◌,
}
use agentwire_cue.Expression.Ast.{
  Ast, Args, and, or, literal, variable, function, method, cmp, logical, no_args, arg,
}
use agentwire_cue.Expression.Compare.{compare}

-- What Python does with a value that is no dict: attributes and calls. The proxies of
-- core/history_proxy.py come in here, and so do the methods of texts, lists and dicts.
pub record Objects (rt : Runtime) : Type 0 where
  -- getattr(v, name, None)
  pub attr : Value rt → String → Value rt
  -- callable(v)
  pub callable : Value rt → Bool
  -- v(*args)
  pub call : Value rt → Values rt → Result rt (Value rt)
  -- str(v)
  pub show : Value rt → String

abbrev pub allowed_namespaces : List String
allowed_namespaces = "event" ∷ "context" ∷ "state" ∷ "meta" ∷ "now" ∷ "peers" ∷ "history" ∷ []

-- ns in _ALLOWED_NAMESPACES
unfoldable pub is_allowed : String → Bool
is_allowed ns = contains ns allowed_namespaces

module _ {rt : Runtime} (py : Objects rt) where
  -- One step of the loop over `path[1:]`: a dict's entry, or an attribute.
  unfoldable pub step_into : Value rt → String → Value rt
  step_into (dict d) key = Dict.get_or key Value.none d
  step_into v key = py.attr v key

  -- The loop over `path[1:]`, with its early returns at None.
  unfoldable pub walk : Value rt → List String → Value rt
  unfolding step_into
  walk cur [] = cur
  walk cur (key ∷ keys) =
      let next = walk (step_into cur key) keys in if is_none cur then Value.none else next

  -- env[k]
  unfoldable pub require : String → Fields rt → Result rt (Value rt)
  require k env = elim (Dict.get k env) [ none ↦ err (key_error k) | some v ↦ ok v ]

  unfoldable pub resolve_path : Fields rt → List String → Result rt (Value rt)
  unfolding walk require
  resolve_path env [] = err (expression empty_path)
  resolve_path env (ns ∷ keys) =
      if is_allowed ns
      then if ns == "now"
        then elim keys [ [] ↦ require "now" env | _ ∷ _ ↦ err (expression now_is_function) ]
        else ok (walk (Dict.get_or ns (dict Fields.end) env) keys)
      else err (expression (forbidden_namespace ns))

  -- path[:-1] and path[-1], of a path that is not empty
  unfoldable pub split_last : String → List String → List String × String
  split_last key [] = ([], key)
  split_last key (next ∷ keys) = let (front, last) = split_last next keys in (key ∷ front, last)

  -- int(v) of since()'s argument, after its test for a number
  unfoldable pub to_int : Value rt → Result rt ℤ
  to_int (bool true) = ok (pos 1)
  to_int (bool false) = ok (pos 0)
  to_int (int n) = ok n
  to_int (float x) = elim (rt.trunc x) [ none ↦ err conversion_error | some n ↦ ok n ]
  to_int _ = err (expression since_not_numeric)

  -- v - n, at the number env["now"]
  unfoldable pub minus : Value rt → ℤ → Result rt (Value rt)
  minus (bool true) n = ok (int (pos 1 -ℤ n))
  minus (bool false) n = ok (int (pos 0 -ℤ n))
  minus (int m) n = ok (int (m -ℤ n))
  minus (float x) n = elim (rt.float_sub_int x n) [
    | none ↦ err conversion_error
    | some y ↦ ok (float y)
  ]
  minus _ n = err type_error

  -- s.get("duration_ms", 0), where `s` is the namespace `state`
  unfoldable pub duration_of : Value rt → Result rt (Value rt)
  duration_of (dict d) = ok (Dict.get_or "duration_ms" (int (pos 0)) d)
  duration_of v = py.call (py.attr v "get") (cons (str "duration_ms") (cons (int (pos 0)) nil))

  -- env.get("state", {}).get("duration_ms", 0)
  unfoldable pub duration_in_state : Fields rt → Result rt (Value rt)
  unfolding duration_of
  duration_in_state env = duration_of (Dict.get_or "state" (dict Fields.end) env)

  -- `except Exception as e: if hasattr(e, "reason"): raise; return None`
  unfoldable pub quiet : Result rt (Value rt) → Result rt (Value rt)
  quiet (err (diagnostic reason details)) = err (diagnostic reason details)
  quiet (err _) = ok Value.none
  quiet (ok v) = ok v

  -- The call of a method once its object is known; the arguments are evaluated only if it is there.
  -- What the method changes, as clear() of a dict does, is left out.
  unfoldable pub invoke : Value rt → String → Result rt (Values rt) → Result rt (Value rt)
  unfolding quiet
  invoke target name arguments =
      if is_none target
      then ok Value.none
      else let found = py.attr target name in
        if is_none found || not (py.callable found)
        then ok Value.none
        else do args ← arguments; quiet (py.call found args)

  -- The tests that come before the object of a method call is resolved, and its resolution.
  unfoldable pub method_call :
      Fields rt → List String → Result rt (Values rt) → Result rt (Value rt)
  unfolding resolve_path split_last invoke
  method_call env [] arguments = err (expression empty_path)
  method_call env (ns ∷ keys) arguments =
      if is_allowed ns
      then (let (front, name) = split_last ns keys in
          do target ← resolve_path env front; invoke target name arguments)
      else err (expression (forbidden_namespace ns))

  -- env["now"] - int(ts)
  unfoldable pub since : Fields rt → Value rt → Result rt (Value rt)
  unfolding require to_int minus
  since env ts =
      if is_number ts
      then (do now ← require "now" env; n ← to_int ts; minus now n)
      else err (expression since_not_numeric)

  -- `_call_function`; `first` is the value of the first argument.
  unfoldable pub call_function :
      Fields rt → String → Args rt → Result rt (Value rt) → Result rt (Value rt)
  unfolding require since duration_in_state
  call_function env name args first =
      if name == "now"
      then elim args [ no_args ↦ require "now" env | arg _ _ ↦ err (expression now_arguments) ]
      else if name == "since"
      then elim args [
        | arg _ no_args ↦ (do ts ← first; since env ts)
        | _ ↦ err (expression since_arguments)
      ]
      else if name == "duration_in_state"
      then elim args [
        | no_args ↦ duration_in_state env
        | arg _ _ ↦ err (expression duration_arguments)
      ]
      else err (expression (unknown_function name))

  unfoldable mutual
    unfolding resolve_path method_call call_function compare truthy

    pub evaluate : Fields rt → Ast rt → Result rt (Value rt)
    evaluate env (literal v) = ok v
    evaluate env (variable path) = resolve_path env path
    evaluate env (function name args) = call_function env name args (evaluate_first env args)
    evaluate env (method path args) = method_call env path (evaluate_args env args)
    evaluate env (cmp op a b) = do
      lhs ← evaluate env a
      rhs ← evaluate env b
      test ← compare lhs op rhs
      ok (bool test)
    evaluate env (logical and a b) = do
      lhs ← evaluate env a
      if truthy lhs then evaluate env b else ok lhs
    evaluate env (logical or a b) = do
      lhs ← evaluate env a
      if truthy lhs then ok lhs else evaluate env b
    evaluate env (Ast.not a) = do v ← evaluate env a; ok (bool (not (truthy v)))

    -- The arguments from left to right.
    pub evaluate_args : Fields rt → Args rt → Result rt (Values rt)
    evaluate_args env no_args = ok nil
    evaluate_args env (arg a args) = do
      v ← evaluate env a
      vs ← evaluate_args env args
      ok (cons v vs)

    -- evaluate(arg_asts[0], env)
    pub evaluate_first : Fields rt → Args rt → Result rt (Value rt)
    evaluate_first env no_args = err (expression since_arguments)
    evaluate_first env (arg a args) = evaluate env a
