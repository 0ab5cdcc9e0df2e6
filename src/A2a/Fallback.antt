-- ===== src/A2a/Fallback.antt =====
-- `FallbackDispatcher` of core/a2a_client.py, on the engine of a plugin.
use agentwire_cue.Prelude.{String, Bool, true, false, Option, none, some, if◌then◌else◌}
use agentwire_cue.Value.{Runtime, Value, Values, Fields, str, list, dict, nil, cons, end, truthy}
use agentwire_cue.Value.Dict
use agentwire_cue.Outcome.{Result, python_error}
use agentwire_cue.Statechart.Model.{
  Event, Raise, Outcome, Run, EvalEnv, Chart, Engine, Host, exception, ok, err,
}
use agentwire_cue.Statechart.Action.{get_field}
use agentwire_cue.Statechart.Dispatch.{actions_of, dispatch_all}
use agentwire_cue.Statechart.Transition.{guard_value}

-- What a call comes to: it ends with or without an exception, or its last step is to await a transition
-- of the plugin's engine for an event, which first waits for the lock of the engine.
pub data Dispatched (rt : Runtime) : Type 0 where
  returned : Dispatched rt
  raised : Raise rt → Dispatched rt
  awaits_transition : Event rt → Dispatched rt

-- The end of an awaited call.
unfoldable pub ended : {rt : Runtime} {A : Type 0} → Outcome rt A → Dispatched rt
ended (ok a) = returned
ended (err x) = raised x

module _ {rt : Runtime} (host : Host rt) (chart : Chart rt) where
  -- Whether the condition of a fallback holds, and the run after it; what it raises counts as false.
  unfoldable pub holds : EvalEnv rt → Value rt → Run rt → Bool × Run rt
  unfolding guard_value truthy
  holds env condition r =
      let (value, r') = guard_value host chart env condition r in
      (elim value [ Result.ok v ↦ truthy v | Result.err e ↦ false ], r')

  -- for action in actions: only a list has items that are actions
  unfoldable pub iterate : Value rt → Result rt (Values rt)
  iterate (list vs) = Result.ok vs
  iterate (str String.[]) = Result.ok nil
  iterate (dict end) = Result.ok nil
  iterate v = Result.err python_error

  unfoldable pub run_listed :
      EvalEnv rt → Result rt (Values rt) → Engine rt → Dispatched rt × Engine rt
  unfolding dispatch_all ended
  run_listed env (Result.err x) e = (raised (exception x), e)
  run_listed env (Result.ok vs) e =
      let (outcome, r) = dispatch_all host (record chart { from_fallback = true }) env vs e.run in
      (ended outcome, record e { run = r })

  -- `_run_fallback_actions`: the flag `from_fallback` is set while the actions run.
  unfoldable pub run_fallback_actions :
      EvalEnv rt → Value rt → Engine rt → Dispatched rt × Engine rt
  unfolding iterate run_listed
  run_fallback_actions env actions e = run_listed env (iterate actions) e

  -- The first fallback whose condition holds, with its actions; an entry that is no dict has no `get`.
  unfoldable pub find_fallback :
      EvalEnv rt → Values rt → Run rt → Result rt (Option (Value rt)) × Run rt
  unfolding holds
  find_fallback env nil r = (Result.ok none, r)
  find_fallback env (cons (dict fb) fbs) r =
      let (matched, r') = holds env (Dict.get_or "condition" (str "") fb) r in
      let rest = find_fallback env fbs r' in
      if matched then (Result.ok (some (Dict.get_or "actions" (list nil) fb)), r') else rest
  find_fallback env (cons v fbs) r = (Result.err python_error, r)

  abbrev pub on_exhaust_event : Event rt
  on_exhaust_event = record {
    type = "ON_EXHAUST_FALLBACK";
    payload = end;
    message_id = none;
    source_peer = none;
  }

  unfoldable pub exhaust_to : Result rt (Value rt) → Engine rt → Dispatched rt × Engine rt
  unfolding truthy
  exhaust_to (Result.err x) e = (raised (exception x), e)
  exhaust_to (Result.ok v) e =
      (if truthy v then awaits_transition on_exhaust_event else returned, e)

  -- Step 5.
  unfoldable pub on_exhaust : Fields rt → Engine rt → Dispatched rt × Engine rt
  unfolding get_field exhaust_to
  on_exhaust spec e =
      exhaust_to (get_field (Dict.get_or "resilience" (dict end) spec) "on_exhaust" Value.none) e

  unfoldable pub after_search :
      Fields rt → EvalEnv rt → Result rt (Option (Value rt)) → Engine rt → Dispatched rt × Engine rt
  unfolding run_fallback_actions on_exhaust
  after_search spec env (Result.err x) e = (raised (exception x), e)
  after_search spec env (Result.ok (some actions)) e = run_fallback_actions env actions e
  after_search spec env (Result.ok none) e = on_exhaust spec e

  unfoldable pub search :
      Fields rt → EvalEnv rt → Result rt (Values rt) → Engine rt → Dispatched rt × Engine rt
  unfolding find_fallback after_search
  search spec env (Result.err x) e = (raised (exception x), e)
  search spec env (Result.ok fbs) e =
      let (found, r) = find_fallback env fbs e.run in
      after_search spec env found (record e { run = r })

  unfoldable pub dispatch : Fields rt → Event rt → Engine rt → Dispatched rt × Engine rt
  unfolding actions_of search
  dispatch spec event e =
      let env : EvalEnv rt = record {
        event = event;
        current_state = e.current_state;
        entered_at_ms = e.state_entered_at_ms;
      } in
      search spec env (actions_of (Dict.get_or "fallbacks" (list nil) spec)) e
