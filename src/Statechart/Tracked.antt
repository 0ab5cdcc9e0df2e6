-- ===== src/Statechart/Tracked.antt =====
-- `run_tracked_transition` of core/statechart.py.
use agentwire_cue.Prelude.{ℕ, ◌+◌, String, Bool, true, false, Option, none, some}
use agentwire_cue.Value.{Runtime, Fields}
use agentwire_cue.Statechart.Model.{Event, Outcome, Chart, Engine, Host, ok, err}
use agentwire_cue.Statechart.Transition.{TransitionResult, transition}

-- A plugin: its engine, and what the wrapper keeps of the last transition; `invalidations` counts the
-- calls of `history_client.invalidate()`.
pub record Plugin (rt : Runtime) : Type 0 where
  pub engine : Engine rt
  pub last_trigger_at : Option ℕ
  pub last_match : Bool
  pub last_reason : Option String
  pub last_details : Option (Fields rt)
  pub invalidations : ℕ

module _ {rt : Runtime} (host : Host rt) (chart : Chart rt) where
  -- The assignments to `plugin.last_*`, after a reading of the clock.
  unfoldable pub record_result : TransitionResult rt → Plugin rt → Plugin rt
  record_result result p =
      let e = p.engine in
      record p {
        engine = record e { run = record e.run { reads = e.reads + 1 } };
        last_trigger_at = some (host.time e.reads);
        last_match = result.ok;
        last_reason = elim result.ok [ true ↦ none | false ↦ result.reason ];
        last_details = elim result.ok [ true ↦ none | false ↦ some result.details ];
      }

  unfoldable pub after_transition :
      Outcome rt (TransitionResult rt) → Plugin rt → Outcome rt (TransitionResult rt) × Plugin rt
  unfolding record_result
  after_transition (ok result) p = (ok result, record_result result p)
  after_transition (err x) p = (err x, p)

  unfoldable pub run_tracked_transition :
      Event rt → Plugin rt → Outcome rt (TransitionResult rt) × Plugin rt
  unfolding transition after_transition
  run_tracked_transition event p =
      let (outcome, e) = transition host chart event p.engine in
      after_transition outcome (record p { engine = e; invalidations = p.invalidations + 1 })
