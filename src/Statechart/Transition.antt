-- ===== src/Statechart/Transition.antt =====
-- `StatechartEngine._transition_locked` of core/statechart.py. The lock makes transitions of one
-- engine follow one another, so a run of an engine is a sequence of these calls.
pub mod States
pub mod Guards
use agentwire_cue.Prelude.{
  ℕ, ◌+◌, String, Bool, true, false, not, Option, none, some, List, [], ◌∷◌, ◌==◌, if◌then◌else◌,
}
use agentwire_cue.Prelude.Int.{pos}
use agentwire_cue.Value.{
  Runtime, Value, Values, Fields, str, list, dict, nil, cons, end, field, truthy,
}
use agentwire_cue.Value.Dict
use agentwire_cue.Outcome as Exceptions
use agentwire_cue.Outcome.{Result, Exn, diagnostic, type_error, python_error}
use agentwire_cue.Expression.Eval.{evaluate}
use agentwire_cue.Expression.Reply.{Reply, failed, out_of_fuel}
use agentwire_cue.Expression.Source.{parse}
use agentwire_cue.Statechart.Model.{
  Event, Raise, Outcome, Effect, Run, EvalEnv, Chart, Engine, Host, action_error, exception, ok,
  err, guard_evaluated, guard_error,
}
use agentwire_cue.Statechart.Action.{
  Action, pure, lift, get_field, env_fields, after_env, ◌>>=◌, ◌>>◌,
}
use agentwire_cue.Statechart.Dispatch.{dispatch_all, actions_of}
use agentwire_cue.Statechart.Persist.{persist}

-- The field `error` of a TransitionResult. The class method `error` is defined after the field, so it
-- is the field's default: where no message is given, the field is the method.
pub data ErrorField : Type 0 where
  class_method : ErrorField
  not_in_states : ErrorField

pub record TransitionResult (rt : Runtime) : Type 0 where
  pub ok : Bool
  pub target : Option String
  pub no_transition : Bool
  pub error : ErrorField
  pub reason : Option String
  pub details : Fields rt

module _ {rt : Runtime} where
  abbrev pub matched : String → TransitionResult rt
  matched target = record {
    ok = true;
    target = some target;
    no_transition = false;
    error = class_method;
    reason = none;
    details = end;
  }

  abbrev pub no_match : Option String → Fields rt → TransitionResult rt
  no_match reason details = record {
    ok = false;
    target = none;
    no_transition = true;
    error = class_method;
    reason = reason;
    details = details;
  }

  abbrev pub error_result : TransitionResult rt
  error_result = record {
    ok = false;
    target = none;
    no_transition = false;
    error = not_in_states;
    reason = none;
    details = end;
  }

  -- details.update(d)
  unfoldable pub update : Fields rt → Fields rt → Fields rt
  update details end = details
  update details (field k v d) = update (Dict.set k v details) d

  -- The reason and the details of a guard that raised.
  unfoldable pub guard_failure : Host rt → Value rt → Exn rt → TransitionResult rt
  unfolding update Dict.get Dict.set
  guard_failure host guard (diagnostic reason d) = no_match (some reason) (
      Dict.set "peer" (Dict.get_or "peer" Value.none d) (
        update
          (field "guard_expression" guard
            (field "error" (str (host.error_text (diagnostic reason d))) end))
          d))
  guard_failure host guard e =
      no_match (some "guard_eval_error")
        (field "guard_expression" guard (field "error" (str (host.error_text e)) end))

  -- What the `try` around a guard comes to: the parse, then the environment, then the evaluation.
  unfoldable pub guard_value :
      Host rt → Chart rt → EvalEnv rt → Value rt → Run rt → Result rt (Value rt) × Run rt
  unfolding env_fields after_env
  guard_value host chart env (str guard) r = elim (parse host.lex guard) [
    | Reply.ok ast ↦ (evaluate host.py (env_fields host chart env r) ast, after_env r)
    | failed e ↦ (Result.err e, r)
    | out_of_fuel ↦ (Result.err python_error, r)
  ]
  guard_value host chart env v r = (Result.err type_error, r)

  abbrev pub reason_of : TransitionResult rt → String
  reason_of t = elim t.reason [ none ↦ "" | some reason ↦ reason ]

  -- The result with which a guard ends the transition, if it does, and the event that it emits.
  unfoldable pub guard_outcome :
      Host rt → Value rt → Result rt (Value rt) → Option (TransitionResult rt) × Effect rt
  unfolding truthy guard_failure
  guard_outcome host guard (Result.ok v) =
      let rejected =
        no_match (some "guard_false")
          (field "guard_expression" guard (field "actual_value" v end)) in
      (if truthy v then none else some rejected, guard_evaluated (truthy v))
  guard_outcome host guard (Result.err e) =
      let failure = guard_failure host guard e in (some failure, guard_error (reason_of failure))

  unfoldable pub check_guard :
      Host rt → Chart rt → EvalEnv rt → Value rt → Run rt → Option (TransitionResult rt) × Run rt
  check_guard host chart env guard r =
      let (value, r') = guard_value host chart env guard r in
      let (verdict, event) = guard_outcome host guard value in
      if truthy guard then (verdict, record r' { effects = event ∷ r'.effects }) else (none, r)

  -- self.states.get(name, {}); a list or a dict cannot be looked up
  unfoldable pub state_def : Chart rt → Value rt → Result rt (Value rt)
  state_def chart (str name) = Result.ok (Dict.get_or name (dict end) chart.states)
  state_def chart (list vs) = Result.err type_error
  state_def chart (dict d) = Result.err type_error
  state_def chart v = Result.ok (dict end)

  -- Steps 2 to 4: the actions of the transition, then those of the state that it enters.
  unfoldable pub run_actions :
      Host rt → Chart rt → EvalEnv rt → Fields rt → String → Action rt (Unit {0})
  unfolding lift get_field actions_of state_def dispatch_all
  run_actions host chart env t target = do
    own ← lift (actions_of (Dict.get_or "actions" (list nil) t))
    dispatch_all host chart env own
    entered ← lift (state_def chart (str target))
    listed ← lift (get_field entered "actions" (list nil))
    entry ← lift (actions_of listed)
    dispatch_all host chart env entry

  -- Steps 5 and 6: the switch of the state, and its persistence.
  unfoldable pub enter : Chart rt → Host rt → String → Engine rt → Engine rt
  enter chart host target e = record e {
    current_state = str target;
    state_entered_at_ms = pos (host.time e.reads);
    run = record e.run { reads = e.reads + 1 };
  }

  unfoldable pub finish :
      Host rt
      → Chart rt
      → String
      → Outcome rt (Unit {0})
      → Engine rt
      → Outcome rt (TransitionResult rt) × Engine rt
  unfolding persist enter
  finish host chart target (ok _) e =
      let (written, e') = persist host chart (enter chart host target e) in
      elim written [ ok _ ↦ (ok (matched target), e') | err x ↦ (err x, e') ]
  finish host chart target (err action_error) e = (ok (no_match none end), e)
  finish host chart target (err (exception x)) e = (err (exception x), e)

  -- The rest of one round of the loop, from the target on.
  unfoldable pub take :
      Host rt
      → Chart rt
      → EvalEnv rt
      → Fields rt
      → String
      → Engine rt
      → Outcome rt (TransitionResult rt) × Engine rt
  take host chart env t target e =
      let (outcome, r) = run_actions host chart env t target e.run in
      let performed = finish host chart target outcome (record e { run = r }) in
      let known = Dict.get target chart.states in
      elim known [ none ↦ (ok error_result, e) | some _ ↦ performed ]

  -- `target` is false as a Python value, a text, or something that is no key of `states`.
  unfoldable pub take_target :
      Host rt
      → Chart rt
      → EvalEnv rt
      → Fields rt
      → Value rt
      → Engine rt
      → Outcome rt (TransitionResult rt) × Engine rt
  unfolding take
  take_target host chart env t (str target) e = take host chart env t target e
  take_target host chart env t (list vs) e = (err (exception type_error), e)
  take_target host chart env t (dict d) e = (err (exception type_error), e)
  take_target host chart env t v e = (ok error_result, e)

  -- The loop over the transitions of the current state for the event.
  unfoldable pub try_transitions :
      Host rt
      → Chart rt
      → EvalEnv rt
      → Values rt
      → Engine rt
      → Outcome rt (TransitionResult rt) × Engine rt
  try_transitions host chart env nil e = (ok (no_match none end), e)
  try_transitions host chart env (cons (dict t) ts) e =
      let (verdict, r) = check_guard host chart env (Dict.get_or "guard" Value.none t) e.run in
      let e' : Engine rt = record e { run = r } in
      let target = Dict.get_or "target" Value.none t in
      let next = try_transitions host chart env ts e' in
      elim verdict [
        | some result ↦ (ok result, e')
        | none ↦ if truthy target then take_target host chart env t target e' else next
      ]
  try_transitions host chart env (cons v ts) e = try_transitions host chart env ts e

  -- `on_handlers.get(event.type) or []`, with one dict for a list of one. The items of a text are no
  -- dicts, so they are passed over.
  unfoldable pub transitions_of : Value rt → Result rt (Values rt)
  unfolding truthy
  transitions_of (dict end) = Result.ok nil
  transitions_of (dict d) = Result.ok (cons (dict d) nil)
  transitions_of (list vs) = Result.ok vs
  transitions_of (str s) = Result.ok nil
  transitions_of v = if truthy v then Result.err type_error else Result.ok nil

  -- `state_def.get("on", {}) or {}`
  unfoldable pub handlers_of : Value rt → Result rt (Value rt)
  unfolding truthy get_field
  handlers_of definition =
      Exceptions.◌>>=◌ (get_field definition "on" (dict end))
        λ handlers. Result.ok (if truthy handlers then handlers else dict end)

  unfoldable pub candidates : Chart rt → Event rt → Value rt → Result rt (Values rt)
  unfolding state_def handlers_of get_field transitions_of
  candidates chart event state = Exceptions.◌>>=◌ (state_def chart state) λ definition.
      Exceptions.◌>>=◌ (handlers_of definition)
        λ handlers. Exceptions.◌>>=◌ (get_field handlers event.type Value.none) transitions_of

  unfoldable pub try_all :
      Host rt
      → Chart rt
      → EvalEnv rt
      → Engine rt
      → Result rt (Values rt)
      → Outcome rt (TransitionResult rt) × Engine rt
  try_all host chart env e (Result.ok ts) = try_transitions host chart env ts e
  try_all host chart env e (Result.err x) = (err (exception x), e)

  unfoldable pub transition :
      Host rt → Chart rt → Event rt → Engine rt → Outcome rt (TransitionResult rt) × Engine rt
  unfolding try_all
  transition host chart event e =
      let env : EvalEnv rt = record {
        event = event;
        current_state = e.current_state;
        entered_at_ms = e.state_entered_at_ms;
      } in
      try_all host chart env e (candidates chart event e.current_state)

  -- The engine after a sequence of events; what a transition raises ends that transition only.
  unfoldable pub handle_events : Host rt → Chart rt → List (Event rt) → Engine rt → Engine rt
  handle_events host chart [] e = e
  handle_events host chart (event ∷ events) e =
      handle_events host chart events (transition host chart event e).1
