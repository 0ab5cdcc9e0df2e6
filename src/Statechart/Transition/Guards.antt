-- ===== src/Statechart/Transition/Guards.antt =====
-- States that the chart does not declare.
use agentwire_cue.Prelude.{String, ◌≡◌, refl, none, List, [], ◌∷◌, arith}
use agentwire_cue.Value.{Runtime, str, end, truthy}
use agentwire_cue.Value.Dict
use agentwire_cue.Statechart.Action.{get_field}
use agentwire_cue.Statechart.Model.{Event, Chart, Engine, Host, ok}
use agentwire_cue.Statechart.Transition.{
  no_match, try_transitions, state_def, handlers_of, transitions_of, candidates, try_all,
  transition, handle_events,
}

module _ {rt : Runtime} (host : Host rt) (chart : Chart rt) where
  module _ (name : String) (undeclared : Dict.get name chart.states ≡ none) where
    transition-undeclared :
        (event : Event rt) (e : Engine rt)
        → e.current_state ≡ str name
        → transition host chart event e ≡ (ok (no_match none end), e)
    unfolding transition candidates state_def handlers_of get_field transitions_of try_all
        try_transitions truthy Dict.get
    transition-undeclared event e at = ground (arith, undeclared, at)

    -- An engine whose state is not declared in the chart ignores every event: nothing changes.
    pub handle_events-undeclared :
        (events : List (Event rt)) (e : Engine rt)
        → e.current_state ≡ str name
        → handle_events host chart events e ≡ e
    unfolding handle_events
    handle_events-undeclared [] e at = refl
    handle_events-undeclared (event ∷ events) e at =
        rw (transition-undeclared event e at, handle_events-undeclared events e at)
