-- ===== src/Loader/Targets.antt =====
-- `_validate_targets` of core/loader.py.
pub mod Laws
pub mod Runs
use agentwire_cue.Prelude.{
  String, Bool, true, false, Option, none, some, List, [], ◌∷◌, ◌++◌, if◌then◌else◌,
}
use agentwire_cue.Value.{
  Runtime, Value, Values, Fields, str, list, dict, nil, cons, end, field, truthy,
}
use agentwire_cue.Value.Dict
use agentwire_cue.Outcome.{Result, ok, err, type_error, python_error, ◌>>=◌}
use agentwire_cue.Statechart.Action.{get_field}

-- The two messages, by the code at their front: with state, event and target for a transition.
pub data TargetError (rt : Runtime) : Type 0 where
  on_exhaust_not_in_states : Value rt → TargetError rt
  target_not_in_states : String → String → Value rt → TargetError rt

-- A value that is no list is taken as the one transition.
abbrev pub transition_list : {rt : Runtime} → Value rt → Values rt
transition_list (list ts) = ts
transition_list v = cons v nil

module _ {rt : Runtime} (states : Fields rt) where
  -- v not in state_ids: a list or a dict cannot be looked up
  unfoldable pub is_unknown : Value rt → Result rt Bool
  unfolding Dict.get
  is_unknown (str name) = ok (elim (Dict.get name states) [ none ↦ true | some _ ↦ false ])
  is_unknown (list vs) = err type_error
  is_unknown (dict d) = err type_error
  is_unknown v = ok true

  unfoldable pub target_errors : String → String → Value rt → Result rt (List (TargetError rt))
  unfolding is_unknown
  target_errors state event Value.none = ok []
  target_errors state event target =
      is_unknown target >>= λ b. ok (if b then target_not_in_states state event target ∷ [] else [])

  -- The loop over the transitions for one event.
  unfoldable pub transition_errors : String → String → Values rt → Result rt (List (TargetError rt))
  unfolding target_errors
  transition_errors state event nil = ok []
  transition_errors state event (cons (dict t) ts) = do
    errors ← target_errors state event (Dict.get_or "target" Value.none t)
    more ← transition_errors state event ts
    ok (errors ++ more)
  transition_errors state event (cons v ts) = transition_errors state event ts

  -- The loop over the events of a state.
  unfoldable pub handler_errors : String → Fields rt → Result rt (List (TargetError rt))
  unfolding transition_errors
  handler_errors state end = ok []
  handler_errors state (field event v handlers) = do
    errors ← transition_errors state event (transition_list v)
    more ← handler_errors state handlers
    ok (errors ++ more)

  -- The handlers of one state; what is no dict is passed over.
  unfoldable pub state_errors : String → Value rt → Result rt (List (TargetError rt))
  unfolding handler_errors
  state_errors state (dict d) = elim (Dict.get_or "on" (dict end) d) [
    | dict handlers ↦ handler_errors state handlers
    | _ ↦ ok []
  ]
  state_errors state v = ok []

  -- The loop over the states.
  unfoldable pub states_errors : Fields rt → Result rt (List (TargetError rt))
  unfolding state_errors
  states_errors end = ok []
  states_errors (field state v rest) = do
    errors ← state_errors state v
    more ← states_errors rest
    ok (errors ++ more)

  -- resilience.on_exhaust, if resilience is a dict and on_exhaust is true as a Python value
  unfoldable pub exhaust_errors : Value rt → Result rt (List (TargetError rt))
  unfolding truthy is_unknown
  exhaust_errors (dict d) =
      let target = Dict.get_or "on_exhaust" Value.none d in
      if truthy target
      then (is_unknown target >>= λ b. ok (if b then on_exhaust_not_in_states target ∷ [] else []))
      else ok []
  exhaust_errors v = ok []

module _ {rt : Runtime} where
  -- v or {}, whose keys are asked for
  unfoldable pub states_of : Value rt → Result rt (Fields rt)
  unfolding truthy
  states_of (dict d) = ok d
  states_of v = if truthy v then err python_error else ok end

  unfoldable pub validate_targets : Fields rt → Result rt (List (TargetError rt))
  unfolding get_field states_of exhaust_errors states_errors
  validate_targets plugin = do
    statechart ← get_field (Dict.get_or "spec" (dict end) plugin) "statechart" (dict end)
    declared ← get_field statechart "states" (dict end)
    states ← states_of declared
    resilience ← get_field (Dict.get_or "spec" (dict end) plugin) "resilience" Value.none
    errors ← exhaust_errors states resilience
    more ← states_errors states states
    ok (errors ++ more)
