-- ===== src/Statechart/Handlers.antt =====
-- The three handlers of ACTION_REGISTRY that core/statechart.py has itself, and `_render_metadata`.
use agentwire_cue.Prelude.{String, Bool, true, false, none, some, ◌&&◌, ◌==◌, if◌then◌else◌}
use agentwire_cue.Prelude.Int.{ℤ, pos, ◌+ℤ◌}
use agentwire_cue.Value.{
  Runtime, Value, Values, Fields, bool, int, float, str, list, dict, nil, cons, end, field,
}
use agentwire_cue.Value.Dict
use agentwire_cue.Outcome
use agentwire_cue.Outcome.{Result, conversion_error, type_error, python_error}
use agentwire_cue.Expression.Lexer.{is_char}
use agentwire_cue.Expression.Lexicon.{Lexicon}
use agentwire_cue.Expression.Template.{lstrip, rstrip, render_template}
use agentwire_cue.Statechart.Model.{EvalEnv, Chart, Host, exception, logged}
use agentwire_cue.Statechart.Action.{
  Action, pure, raise, lift, effect, attempt, get_context, set_key, index, get_field, render, ◌>>=◌,
  ◌>>◌,
}

-- s.isdigit()
unfoldable pub all_digits : {rt : Runtime} → Lexicon rt → String → Bool
all_digits lex String.[] = true
all_digits lex (String.◌∷◌ c s) = lex.is_digit_char c && all_digits lex s

unfoldable pub is_digit_text : {rt : Runtime} → Lexicon rt → String → Bool
unfolding all_digits
is_digit_text lex String.[] = false
is_digit_text lex (String.◌∷◌ c s) = all_digits lex (String.◌∷◌ c s)

module _ {rt : Runtime} where
  -- int(v)
  unfoldable pub int_of : Value rt → Result rt ℤ
  int_of (bool true) = Result.ok (pos 1)
  int_of (bool false) = Result.ok (pos 0)
  int_of (int n) = Result.ok n
  int_of (float x) = elim (rt.trunc x) [ none ↦ Result.err conversion_error | some n ↦ Result.ok n ]
  int_of (str s) = elim (rt.parse_int s) [
    | none ↦ Result.err conversion_error
    | some n ↦ Result.ok n
  ]
  int_of _ = Result.err type_error

  -- int(f) if f.is_integer() else f
  unfoldable pub float_value : rt.Float → Result rt (Value rt)
  float_value x =
      let whole : Result rt (Value rt) = elim (rt.trunc x) [
        | none ↦ Result.err conversion_error
        | some n ↦ Result.ok (int n)
      ] in
      if rt.is_integer x then whole else Result.ok (float x)

  -- The rendered text of `set_context`, read as a bool or a number where it looks like one.
  unfoldable pub coerce : Lexicon rt → String → Result rt (Value rt)
  unfolding is_digit_text lstrip rstrip float_value
  coerce lex rendered =
      let s = rstrip lex.is_space (lstrip lex.is_space rendered) in
      let whole : Result rt (Value rt) = elim (rt.parse_int s) [
        | none ↦ Result.err conversion_error
        | some n ↦ Result.ok (int n)
      ] in
      let number : Result rt (Value rt) = elim (rt.parse_float s) [
        | none ↦ Result.ok (str rendered)
        | some x ↦ float_value x
      ] in
      if s == "true"
      then Result.ok (bool true)
      else if s == "false"
      then Result.ok (bool false)
      else if is_digit_text lex (lstrip (is_char b'-') s)
      then whole
      else number

  -- `level.upper()` and the call of the logger's method
  unfoldable pub logger_call : Host rt → Value rt → String → Action rt (Unit {0})
  unfolding attempt effect raise
  logger_call host (str level) text = attempt (host.log_call level) >> effect (logged text)
  logger_call host _ text = raise (exception python_error)

  unfoldable pub action_log : Host rt → Chart rt → EvalEnv rt → Value rt → Action rt (Unit {0})
  unfolding lift index get_field render logger_call
  action_log host chart env action = do
    params ← lift (index action "with")
    level ← lift (get_field params "level" (str "info"))
    message ← lift (index params "message")
    text ← render host chart env message
    logger_call host level text

  -- The loop of `set_context` over its entries; each is rendered in the context that the ones
  -- before it have written.
  unfoldable pub set_entries : Host rt → Chart rt → EvalEnv rt → Fields rt → Action rt (Unit {0})
  unfolding pure render lift coerce set_key
  set_entries host chart env end = pure tt
  set_entries host chart env (field k v entries) = do
    rendered ← render host chart env v
    coerced ← lift (coerce host.lex rendered)
    set_key k coerced
    set_entries host chart env entries

  -- with.items(), of a dict
  unfoldable pub items : Value rt → Result rt (Fields rt)
  items (dict d) = Result.ok d
  items _ = Result.err python_error

  unfoldable pub action_set_context :
      Host rt → Chart rt → EvalEnv rt → Value rt → Action rt (Unit {0})
  unfolding lift index items set_entries
  action_set_context host chart env action = do
    params ← lift (index action "with")
    entries ← lift (items params)
    set_entries host chart env entries

  -- The key of a context entry; the program's dicts have text keys only.
  unfoldable pub key_of : Value rt → Result rt String
  key_of (str k) = Result.ok k
  key_of _ = Result.err type_error

  unfoldable pub action_increment_context :
      Host rt → Chart rt → EvalEnv rt → Value rt → Action rt (Unit {0})
  unfolding lift index get_field key_of int_of get_context set_key
  action_increment_context host chart env action = do
    params ← lift (index action "with")
    key_value ← lift (index params "key")
    key ← lift (key_of key_value)
    by_value ← lift (get_field params "by" (int (pos 1)))
    by ← lift (int_of by_value)
    context ← get_context
    old ← lift (int_of (Dict.get_or key (int (pos 0)) context))
    set_key key (int (old +ℤ by))

  abbrev pub then_cons : Result rt (Value rt) → Result rt (Values rt) → Result rt (Values rt)
  then_cons v vs = Outcome.◌>>=◌ v λ w. Outcome.◌>>=◌ vs λ ws. Result.ok (cons w ws)

  abbrev pub then_field :
      String → Result rt (Value rt) → Result rt (Fields rt) → Result rt (Fields rt)
  then_field k v fs = Outcome.◌>>=◌ v λ w. Outcome.◌>>=◌ fs λ gs. Result.ok (field k w gs)

  -- `_render_metadata`: every text inside the structure is rendered, all else is copied.
  unfoldable mutual
    unfolding render_template

    pub render_metadata : Host rt → Fields rt → Value rt → Result rt (Value rt)
    render_metadata host d (str s) =
        Outcome.◌>>=◌ (render_template host.lex host.py d s) λ t. Result.ok (str t)
    render_metadata host d (list vs) =
        Outcome.◌>>=◌ (render_items host d vs) λ ws. Result.ok (list ws)
    render_metadata host d (dict fs) =
        Outcome.◌>>=◌ (render_fields host d fs) λ gs. Result.ok (dict gs)
    render_metadata host d v = Result.ok v

    pub render_items : Host rt → Fields rt → Values rt → Result rt (Values rt)
    render_items host d nil = Result.ok nil
    render_items host d (cons v vs) = then_cons (render_metadata host d v) (render_items host d vs)

    pub render_fields : Host rt → Fields rt → Fields rt → Result rt (Fields rt)
    render_fields host d end = Result.ok end
    render_fields host d (field k v fs) =
        then_field k (render_metadata host d v) (render_fields host d fs)
