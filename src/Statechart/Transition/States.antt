-- ===== src/Statechart/Transition/States.antt =====
-- Which state a transition leaves the engine in.
use agentwire_cue.Prelude.{
  String, ◌≡◌, refl, ap, ◌∙◌, Bool, if◌then◌else◌, true, false, Option, none, some, List, [], ◌∷◌,
  inl, inr, arith, Option-cases,
}
use agentwire_cue.Value.{Runtime, Value, Values, Fields, str, list, dict, nil, cons, truthy}
use agentwire_cue.Value.Dict
use agentwire_cue.Outcome.{Result, diagnostic}
use agentwire_cue.Statechart.Model.{
  Event, Outcome, Run, EvalEnv, Chart, Engine, Host, action_error, exception, ok, err,
}
use agentwire_cue.Statechart.Persist.{persist}
use agentwire_cue.Statechart.Transition.{
  TransitionResult, matched, guard_value, guard_outcome, check_guard, finish, take, take_target,
  try_transitions, try_all, candidates, transition, handle_events, enter,
}

-- The transition did not report a match.
abbrev pub Unmatched : {rt : Runtime} → Outcome rt (TransitionResult rt) → Type 0
Unmatched (ok r) = r.ok ≡ false
Unmatched (err x) = Unit

-- What a transition to `target` comes to, from what the writing of the state comes to.
abbrev pub Reports :
    {rt : Runtime} → String → Outcome rt (Unit {0}) → Outcome rt (TransitionResult rt) → Type 0
Reports target (ok _) out = out ≡ ok (matched target)
Reports target (err x) out = out ≡ err x

-- How a transition ends, from an engine `e`: either state and time of entry are those of `e`, and no
-- match is reported; or an engine in the declared state `target` was written, what is left is what
-- the writing left, and a match is reported, or the exception of the writing.
pub data Ends {rt : Runtime} (host : Host rt) (chart : Chart rt) (e : Engine rt)
    : Outcome rt (TransitionResult rt) → Engine rt → Type 0 where
  stayed :
      {out : Outcome rt (TransitionResult rt)} {e' : Engine rt}
      → e'.current_state ≡ e.current_state
      → e'.state_entered_at_ms ≡ e.state_entered_at_ms
      → Unmatched out
      → Ends host chart e out e'
  moved :
      {out : Outcome rt (TransitionResult rt)} {e' : Engine rt} (target : String)
      (definition : Value rt) (entered : Engine rt)
      → Dict.get target chart.states ≡ some definition
      → entered.current_state ≡ str target
      → e' ≡ (persist host chart entered).1
      → Reports target (persist host chart entered).0 out
      → Ends host chart e out e'

module _ {rt : Runtime} (host : Host rt) (chart : Chart rt) where
  persist-state : (e : Engine rt) → (persist host chart e).1.current_state ≡ e.current_state
  unfolding persist
  persist-state e = ground arith

  after_persist :
      (target : String) (e : Engine rt) (written : Outcome rt (Unit {0}))
      → (let end : Outcome rt (TransitionResult rt) × Engine rt = elim written [
        | ok _ ↦ (ok (matched target), e)
        | err x ↦ (err x, e)
      ] in
          (end.1 ≡ e) × Reports target written end.0)
  after_persist target e (ok _) = (refl, refl)
  after_persist target e (err x) = (refl, refl)

  finish-Ends :
      (target : String) (definition : Value rt) (e₀ e : Engine rt) (out : Outcome rt (Unit {0}))
      → Dict.get target chart.states ≡ some definition
      → e.current_state ≡ e₀.current_state
      → e.state_entered_at_ms ≡ e₀.state_entered_at_ms
      → Ends host chart e₀ (finish host chart target out e).0 (finish host chart target out e).1
  unfolding finish
  finish-Ends target definition e₀ e (ok _) known same_state same_time =
      let entered = enter chart host target e in
      let written =
        after_persist target (persist host chart entered).1 (persist host chart entered).0 in
      moved target definition entered known refl written.0 written.1
  finish-Ends target definition e₀ e (err action_error) known same_state same_time =
      stayed same_state same_time refl
  finish-Ends target definition e₀ e (err (exception x)) known same_state same_time =
      stayed same_state same_time tt

  take-Ends :
      (env : EvalEnv rt) (t : Fields rt) (target : String) (e₀ e : Engine rt)
      → e.current_state ≡ e₀.current_state
      → e.state_entered_at_ms ≡ e₀.state_entered_at_ms
      → Ends host chart e₀ (take host chart env t target e).0 (take host chart env t target e).1
  unfolding take
  take-Ends env t target e₀ e same_state same_time =
      elim (Option-cases (Dict.get target chart.states)) [
        | inl unknown ↦ rw (unknown, take) (stayed same_state same_time refl)
        | inr (definition, known) ↦
            rw (known, take) (finish-Ends target definition e₀ _ _ known same_state same_time)
      ]

  take_target-Ends :
      (env : EvalEnv rt) (t : Fields rt) (target : Value rt) (e₀ e : Engine rt)
      → e.current_state ≡ e₀.current_state
      → e.state_entered_at_ms ≡ e₀.state_entered_at_ms
      → Ends host chart e₀
          (take_target host chart env t target e).0
          (take_target host chart env t target e).1
  unfolding take_target
  take_target-Ends env t (str target) e₀ e same_state same_time =
      take-Ends env t target e₀ e same_state same_time
  take_target-Ends env t (list vs) e₀ e same_state same_time = stayed same_state same_time tt
  take_target-Ends env t (dict d) e₀ e same_state same_time = stayed same_state same_time tt
  take_target-Ends env t _ e₀ e same_state same_time = stayed same_state same_time refl

  -- The verdict of a guard that ends the loop is no match.
  guard_outcome-Unmatched :
      (guard : Value rt) (value : Result rt (Value rt)) (result : TransitionResult rt)
      → (guard_outcome host guard value).0 ≡ some result
      → result.ok ≡ false
  unfolding guard_outcome
  guard_outcome-Unmatched guard (Result.ok v) result h = ground arith
  guard_outcome-Unmatched guard (Result.err (diagnostic reason d)) result h = ground arith
  guard_outcome-Unmatched guard (Result.err e) result h = ground arith

  check_guard-Unmatched :
      (env : EvalEnv rt) (guard : Value rt) (r : Run rt) (result : TransitionResult rt)
      → (check_guard host chart env guard r).0 ≡ some result
      → result.ok ≡ false
  unfolding check_guard
  check_guard-Unmatched env guard r result h =
      ground (arith, guard_outcome-Unmatched guard (guard_value host chart env guard r).0 result)

  -- One round of the loop, after its guard.
  round-Ends :
      (verdict : Option (TransitionResult rt)) (b : Bool) (e₀ e' : Engine rt)
      (taken next : Outcome rt (TransitionResult rt) × Engine rt)
      → ((result : TransitionResult rt) → verdict ≡ some result → result.ok ≡ false)
      → e'.current_state ≡ e₀.current_state
      → e'.state_entered_at_ms ≡ e₀.state_entered_at_ms
      → Ends host chart e₀ taken.0 taken.1
      → Ends host chart e₀ next.0 next.1
      → (let round : Outcome rt (TransitionResult rt) × Engine rt = elim verdict [
        | some result ↦ (ok result, e')
        | none ↦ if b then taken else next
      ] in
          Ends host chart e₀ round.0 round.1)
  round-Ends (some result) b e₀ e' taken next unmatched same_state same_time ht hn =
      stayed same_state same_time (unmatched result refl)
  round-Ends none true e₀ e' taken next unmatched same_state same_time ht hn = ht
  round-Ends none false e₀ e' taken next unmatched same_state same_time ht hn = hn

  try_transitions-Ends :
      (env : EvalEnv rt) (ts : Values rt) (e₀ e : Engine rt)
      → e.current_state ≡ e₀.current_state
      → e.state_entered_at_ms ≡ e₀.state_entered_at_ms
      → Ends host chart e₀
          (try_transitions host chart env ts e).0
          (try_transitions host chart env ts e).1
  unfolding try_transitions
  try_transitions-Ends env nil e₀ e same_state same_time = stayed same_state same_time refl
  try_transitions-Ends env (cons (dict t) ts) e₀ e same_state same_time =
      let guard = Dict.get_or "guard" Value.none t in
      let target = Dict.get_or "target" Value.none t in
      let checked = check_guard host chart env guard e.run in
      let e' : Engine rt = record e { run = checked.1 } in
      round-Ends checked.0 (truthy target) e₀ e' _ _ (check_guard-Unmatched env guard e.run)
        same_state same_time (take_target-Ends env t target e₀ e' same_state same_time)
        (try_transitions-Ends env ts e₀ e' same_state same_time)
  try_transitions-Ends env (cons _ ts) e₀ e same_state same_time =
      try_transitions-Ends env ts e₀ e same_state same_time

  try_all-Ends :
      (env : EvalEnv rt) (e : Engine rt) (ts : Result rt (Values rt))
      → Ends host chart e (try_all host chart env e ts).0 (try_all host chart env e ts).1
  unfolding try_all
  try_all-Ends env e (Result.ok ts) = try_transitions-Ends env ts e e refl refl
  try_all-Ends env e (Result.err x) = stayed refl refl tt

  -- A transition either leaves the state and the time of entry alone and reports no match; or it has
  -- entered a state that the chart declares and written it, and then reports that state if the
  -- writing returned, and raises what the writing raised otherwise. So an exception of a guard or an
  -- action never comes with a new state.
  pub transition-Ends :
      (event : Event rt) (e : Engine rt)
      → Ends host chart e (transition host chart event e).0 (transition host chart event e).1
  unfolding transition
  transition-Ends event e = try_all-Ends _ e (candidates chart event e.current_state)

-- The engine is in a state that its chart declares.
abbrev pub IsDeclared : {rt : Runtime} → Chart rt → Engine rt → Type 0
IsDeclared {rt} chart e =
    (name : String) × (definition : Value rt) × (e.current_state ≡ str name)
    × (Dict.get name chart.states ≡ some definition)

Ends-IsDeclared :
    {rt : Runtime} {host : Host rt} {chart : Chart rt} {e e' : Engine rt}
    {out : Outcome rt (TransitionResult rt)}
    → Ends host chart e out e'
    → IsDeclared chart e
    → IsDeclared chart e'
Ends-IsDeclared (stayed same_state _ _) (name, definition, current, known) =
    (name, definition, same_state ∙ current, known)
Ends-IsDeclared {host = host} {chart = chart} (moved target definition entered known current left _)
      h =
    (
      target,
      definition,
      ap (λ (e : Engine _). e.current_state) left ∙ persist-state host chart entered ∙ current,
      known,
    )

-- An engine that starts in a declared state is in a declared state after any sequence of events,
-- whatever the guards, the actions and the outside do.
pub handle_events-IsDeclared :
    {rt : Runtime} (host : Host rt) (chart : Chart rt) (events : List (Event rt)) (e : Engine rt)
    → IsDeclared chart e
    → IsDeclared chart (handle_events host chart events e)
unfolding handle_events
handle_events-IsDeclared host chart [] e h = h
handle_events-IsDeclared host chart (event ∷ events) e h =
    handle_events-IsDeclared host chart events (transition host chart event e).1
      (Ends-IsDeclared (transition-Ends host chart event e) h)
