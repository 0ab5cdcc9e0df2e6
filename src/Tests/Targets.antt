-- ===== src/Tests/Targets.antt =====
-- The theorem on validated targets at a concrete chart.
use agentwire_cue.Prelude.{◌≡◌, refl, []}
use agentwire_cue.Value.Dict
use agentwire_cue.Outcome.{Result}
use agentwire_cue.Statechart.Transition.{transition}
use agentwire_cue.Loader.Targets.{states_errors}
use agentwire_cue.Loader.Targets.Runs.{NoTargetError, transition-NoTargetError}
use agentwire_cue.Tests.Charts.{host, lamp, start, toggle}

valid : states_errors lamp.states lamp.states ≡ Result.ok []
unfolding states_errors Dict.get
valid = refl

transition-NoTargetError_example : NoTargetError (transition host lamp toggle start).0
transition-NoTargetError_example = transition-NoTargetError host lamp valid toggle start
