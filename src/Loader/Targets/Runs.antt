-- ===== src/Loader/Targets/Runs.antt =====
-- An engine whose chart has passed `_validate_targets`.
use agentwire_cue.Prelude.{
  String, ◌≡◌, refl, Bool, true, false, Option, none, some, [], arith, if◌then◌else◌,
}
use agentwire_cue.Value.{
  Runtime, Value, Values, Fields, bool, int, float, str, list, dict, obj, nil, cons, end, truthy,
}
use agentwire_cue.Value.Dict
use agentwire_cue.Outcome as Exceptions
use agentwire_cue.Outcome.{Result, diagnostic}
use agentwire_cue.Statechart.Action.{get_field}
use agentwire_cue.Statechart.Model.{
  Event, Outcome, Run, EvalEnv, Chart, Engine, Host, action_error, exception, ok, err,
}
use agentwire_cue.Statechart.Persist.{persist}
use agentwire_cue.Statechart.Transition.{
  TransitionResult, class_method, matched, error_result, guard_value, guard_outcome, check_guard,
  state_def, run_actions, enter, finish, take, take_target, try_transitions, transitions_of,
  handlers_of, candidates, try_all, transition,
}
use agentwire_cue.Loader.Targets.{state_errors, states_errors}
use agentwire_cue.Loader.Targets.Laws.{
  TargetOk, AllOk, states_errors-found, state_errors-candidates,
}

-- What is returned, if anything is, is not the error for a target that is no state.
abbrev pub NoTargetError : {rt : Runtime} → Outcome rt (TransitionResult rt) → Type 0
NoTargetError (ok result) = result.error ≡ class_method
NoTargetError (err x) = Unit

module _ {rt : Runtime} (host : Host rt) (chart : Chart rt) where
  candidates-AllOk :
      states_errors chart.states chart.states ≡ Result.ok []
      → (event : Event rt) (state : Value rt) (ts : Values rt)
      → candidates chart event state ≡ Result.ok ts
      → AllOk chart.states ts
  unfolding candidates state_def state_errors
  candidates-AllOk valid event (str name) ts h = go (Dict.get name chart.states) refl h
    where
      go :
          (o : Option (Value rt))
          → Dict.get name chart.states ≡ o
          → Exceptions.◌>>=◌ (handlers_of (elim o [ none ↦ dict end | some w ↦ w ])) (λ handlers.
            Exceptions.◌>>=◌ (get_field handlers event.type Value.none) transitions_of)
            ≡ Result.ok ts
          → AllOk chart.states ts
      go none e k = state_errors-candidates chart.states name event.type (dict end) ts refl k
      go (some d) e k =
          let (state, found) = states_errors-found chart.states name d chart.states valid e in
          state_errors-candidates chart.states state event.type d ts found k
  candidates-AllOk valid event (list vs) ts h = cc
  candidates-AllOk valid event (dict d) ts h = cc
  candidates-AllOk valid event _ ts h =
      state_errors-candidates chart.states "" event.type (dict end) ts refl h

  persisted-NoTargetError :
      (target : String) (e : Engine rt) (written : Outcome rt (Unit {0}))
      → NoTargetError {rt = rt}
          (elim written as (λ x. Outcome rt (TransitionResult rt) × Engine rt) [
            | ok _ ↦ (ok (matched target), e)
            | err x ↦ (err x, e)
          ]).0
  persisted-NoTargetError target e (ok _) = refl
  persisted-NoTargetError target e (err x) = tt

  finish-NoTargetError :
      (target : String) (outcome : Outcome rt (Unit {0})) (e : Engine rt)
      → NoTargetError (finish host chart target outcome e).0
  unfolding finish
  finish-NoTargetError target (ok _) e =
      persisted-NoTargetError target (persist host chart (enter chart host target e)).1
        (persist host chart (enter chart host target e)).0
  finish-NoTargetError target (err action_error) e = refl
  finish-NoTargetError target (err (exception x)) e = tt

  take-NoTargetError :
      (env : EvalEnv rt) (t : Fields rt) (target : String) (definition : Value rt) (e : Engine rt)
      → Dict.get target chart.states ≡ some definition
      → NoTargetError (take host chart env t target e).0
  unfolding take
  take-NoTargetError env t target definition e known = go (Dict.get target chart.states) known
    where
      performed : Outcome rt (TransitionResult rt) × Engine rt
      performed =
          finish host chart target (run_actions host chart env t target e.run).0
            (record e { run = (run_actions host chart env t target e.run).1 })

      go :
          (o : Option (Value rt))
          → o ≡ some definition
          → NoTargetError {rt = rt}
              (elim o as (λ x. Outcome rt (TransitionResult rt) × Engine rt) [
                | none ↦ (ok error_result, e)
                | some _ ↦ performed
              ]).0
      go none k = cc
      go (some d) k = finish-NoTargetError target _ _

  take_target-NoTargetError :
      (env : EvalEnv rt) (t : Fields rt) (target : Value rt) (e : Engine rt)
      → truthy target ≡ true
      → TargetOk chart.states target
      → NoTargetError (take_target host chart env t target e).0
  unfolding take_target truthy
  take_target-NoTargetError env t (str target) e h (definition, known) =
      take-NoTargetError env t target definition e known
  take_target-NoTargetError env t Value.none e h k = cc
  take_target-NoTargetError env t (list vs) e h k = tt
  take_target-NoTargetError env t (dict d) e h k = tt
  take_target-NoTargetError env t (bool b) e h k = elim k [ ]
  take_target-NoTargetError env t (int n) e h k = elim k [ ]
  take_target-NoTargetError env t (float x) e h k = elim k [ ]
  take_target-NoTargetError env t (obj o) e h k = elim k [ ]

  guard_outcome-NoTargetError :
      (guard : Value rt) (value : Result rt (Value rt)) (result : TransitionResult rt)
      → (guard_outcome host guard value).0 ≡ some result
      → result.error ≡ class_method
  unfolding guard_outcome
  guard_outcome-NoTargetError guard (Result.ok v) result h = ground arith
  guard_outcome-NoTargetError guard (Result.err (diagnostic reason d)) result h = ground arith
  guard_outcome-NoTargetError guard (Result.err e) result h = ground arith

  check_guard-NoTargetError :
      (env : EvalEnv rt) (guard : Value rt) (r : Run rt) (result : TransitionResult rt)
      → (check_guard host chart env guard r).0 ≡ some result
      → result.error ≡ class_method
  unfolding check_guard
  check_guard-NoTargetError env guard r result h =
      ground
        (arith, guard_outcome-NoTargetError guard (guard_value host chart env guard r).0 result)

  round-NoTargetError :
      (verdict : Option (TransitionResult rt)) (b : Bool) (e' : Engine rt)
      (taken next : Outcome rt (TransitionResult rt) × Engine rt)
      → ((result : TransitionResult rt) → verdict ≡ some result → result.error ≡ class_method)
      → (b ≡ true → NoTargetError taken.0)
      → NoTargetError next.0
      → NoTargetError {rt = rt}
          (elim verdict as (λ x. Outcome rt (TransitionResult rt) × Engine rt) [
            | some result ↦ (ok result, e')
            | none ↦ if b then taken else next
          ]).0
  round-NoTargetError (some result) b e' taken next clean ht hn = clean result refl
  round-NoTargetError none true e' taken next clean ht hn = ht refl
  round-NoTargetError none false e' taken next clean ht hn = hn

  try_transitions-NoTargetError :
      (env : EvalEnv rt) (ts : Values rt) (e : Engine rt)
      → AllOk chart.states ts
      → NoTargetError (try_transitions host chart env ts e).0
  unfolding try_transitions
  try_transitions-NoTargetError env nil e h = refl
  try_transitions-NoTargetError env (cons (dict t) ts) e (target_ok, h) =
      let guard = Dict.get_or "guard" Value.none t in
      let target = Dict.get_or "target" Value.none t in
      let checked = check_guard host chart env guard e.run in
      let e' : Engine rt = record e { run = checked.1 } in
      round-NoTargetError checked.0 (truthy target) e' _ _
        (check_guard-NoTargetError env guard e.run)
        (λ true_target. take_target-NoTargetError env t target e' true_target target_ok)
        (try_transitions-NoTargetError env ts e' h)
  try_transitions-NoTargetError env (cons _ ts) e h = try_transitions-NoTargetError env ts e h

  -- If the loop of _validate_targets over the states of a chart finds no error, no transition of an
  -- engine with that chart, in any state and for any event, ends in the error for an unknown target.
  pub transition-NoTargetError :
      states_errors chart.states chart.states ≡ Result.ok []
      → (event : Event rt) (e : Engine rt) → NoTargetError (transition host chart event e).0
  unfolding transition try_all
  transition-NoTargetError valid event e =
      go (candidates chart event e.current_state) (candidates-AllOk valid event e.current_state)
    where
      env : EvalEnv rt
      env = record {
        event = event;
        current_state = e.current_state;
        entered_at_ms = e.state_entered_at_ms;
      }

      go :
          (o : Result rt (Values rt))
          → ((ts : Values rt) → o ≡ Result.ok ts → AllOk chart.states ts)
          → NoTargetError (try_all host chart env e o).0
      go (Result.ok ts) h = try_transitions-NoTargetError env ts e (h ts refl)
      go (Result.err x) h = tt
