-- ===== src/Loader/Targets/Laws.antt =====
-- What an engine can rely on after `_validate_targets`.
use mathlib.Core.Path.{subst}
use agentwire_cue.Prelude.{
  String, ◌≡◌, refl, Bool, true, false, Option, none, some, List, [], ◌∷◌, ◌++◌, ◌==◌,
  if◌then◌else◌,
}
use agentwire_cue.Value.{
  Runtime, Value, Values, Fields, bool, int, float, str, list, dict, obj, nil, cons, end, field,
  truthy,
}
use agentwire_cue.Value.Dict
use agentwire_cue.Outcome.{Result, ok, ok-injective, err, type_error, ◌>>=◌}
use agentwire_cue.Statechart.Action.{get_field}
use agentwire_cue.Statechart.Transition.{transitions_of, handlers_of}
use agentwire_cue.Loader.Targets.{
  TargetError, target_not_in_states, is_unknown, target_errors, transition_errors, transition_list,
  handler_errors, state_errors, states_errors,
}

some-injective : {A : Type 0} {a b : A} → ◌≡◌ {A = Option A} (some a) (some b) → a ≡ b
some-injective h = cc

module _ {rt : Runtime} (states : Fields rt) where
  -- No target, or a declared state.
  abbrev pub TargetOk : Value rt → Type 0
  TargetOk Value.none = Unit
  TargetOk (str name) = (definition : Value rt) × (Dict.get name states ≡ some definition)
  TargetOk v = ⊥

  -- Every transition in the list has no target or a declared state as its target.
  abbrev pub AllOk : Values rt → Type 0
  AllOk nil = Unit
  AllOk (cons (dict t) ts) = TargetOk (Dict.get_or "target" Value.none t) × AllOk ts
  AllOk (cons v ts) = AllOk ts

  -- Two parts of a list of errors, if there is none in the whole.
  both_empty :
      (p q : Result rt (List (TargetError rt)))
      → (p >>= λ xs. q >>= λ ys. ok (xs ++ ys)) ≡ ok []
      → (p ≡ ok []) × (q ≡ ok [])
  both_empty (ok []) (ok []) h = (refl, refl)
  both_empty (ok []) (ok (y ∷ ys)) h = (refl, h)
  both_empty (ok (x ∷ xs)) (ok ys) h = cc
  both_empty (ok xs) (err e) h = cc
  both_empty (err e) q h = cc

  target_errors-TargetOk :
      (state event : String) (v : Value rt)
      → target_errors states state event v ≡ ok []
      → TargetOk v
  unfolding target_errors is_unknown
  target_errors-TargetOk state event Value.none h = tt
  target_errors-TargetOk state event (str name) h = go (Dict.get name states) refl h
    where
      go :
          (o : Option (Value rt))
          → Dict.get name states ≡ o
          → ◌≡◌ {A = Result rt (List (TargetError rt))}
              (ok (
                if elim o [ none ↦ true | some _ ↦ false ]
                then target_not_in_states state event (str name) ∷ []
                else []))
              (ok [])
          → (definition : Value rt) × (Dict.get name states ≡ some definition)
      go (some d) e k = (d, e)
      go none e k = cc
  target_errors-TargetOk state event (bool b) h = cc
  target_errors-TargetOk state event (int n) h = cc
  target_errors-TargetOk state event (float x) h = cc
  target_errors-TargetOk state event (list vs) h = cc
  target_errors-TargetOk state event (dict d) h = cc
  target_errors-TargetOk state event (obj o) h = cc

  transition_errors-AllOk :
      (state event : String) (ts : Values rt)
      → transition_errors states state event ts ≡ ok []
      → AllOk ts
  unfolding transition_errors
  transition_errors-AllOk state event nil h = tt
  transition_errors-AllOk state event (cons (dict t) ts) h =
      let (p, q) = both_empty _ _ h in
      (target_errors-TargetOk state event _ p, transition_errors-AllOk state event ts q)
  transition_errors-AllOk state event (cons _ ts) h = transition_errors-AllOk state event ts h

  handler_errors-found :
      (state event : String) (v : Value rt) (handlers : Fields rt)
      → handler_errors states state handlers ≡ ok []
      → Dict.get event handlers ≡ some v
      → AllOk (transition_list v)
  unfolding handler_errors Dict.get
  handler_errors-found state event v end h at = cc
  handler_errors-found state event v (field other w handlers) h at =
      let (p, q) = both_empty _ _ h in
      go (other == event) at (transition_errors-AllOk state other (transition_list w) p)
        (handler_errors-found state event v handlers q)
    where
      go :
          (b : Bool)
          → (if b then some w else Dict.get event handlers) ≡ some v
          → AllOk (transition_list w)
          → (Dict.get event handlers ≡ some v → AllOk (transition_list v))
          → AllOk (transition_list v)
      go true k here there = subst (λ x. AllOk (transition_list x)) (some-injective k) here
      go false k here there = there k

  pub states_errors-found :
      (name : String) (v : Value rt) (some_states : Fields rt)
      → states_errors states some_states ≡ ok []
      → Dict.get name some_states ≡ some v
      → (state : String) × (state_errors states state v ≡ ok [])
  unfolding states_errors Dict.get
  states_errors-found name v end h at = cc
  states_errors-found name v (field other w rest) h at =
      let (p, q) = both_empty _ _ h in go (other == name) at p (states_errors-found name v rest q)
    where
      go :
          (b : Bool)
          → (if b then some w else Dict.get name rest) ≡ some v
          → state_errors states other w ≡ ok []
          → (Dict.get name rest ≡ some v → (state : String) × (state_errors states state v ≡ ok []))
          → (state : String) × (state_errors states state v ≡ ok [])
      go true k here there =
          (other, subst (λ x. state_errors states other x ≡ ok []) (some-injective k) here)
      go false k here there = there k

  if_err-AllOk :
      (b : Bool) (ts : Values rt)
      → ◌≡◌ {A = Result rt (Values rt)} (if b then err type_error else ok nil) (ok ts)
      → AllOk ts
  if_err-AllOk true ts h = cc
  if_err-AllOk false ts h = subst AllOk (ok-injective h) tt

  transitions_of-AllOk :
      (v : Value rt) (ts : Values rt)
      → transitions_of v ≡ ok ts
      → AllOk (transition_list v)
      → AllOk ts
  unfolding transitions_of
  transitions_of-AllOk (dict end) ts h k = subst AllOk (ok-injective h) tt
  transitions_of-AllOk (dict (field j v d)) ts h k = subst AllOk (ok-injective h) k
  transitions_of-AllOk (list vs) ts h k = subst AllOk (ok-injective h) k
  transitions_of-AllOk (str s) ts h k = subst AllOk (ok-injective h) tt
  transitions_of-AllOk v ts h k = if_err-AllOk (truthy v) ts h

  -- The transitions for an event in the handlers of a state.
  handlers-AllOk :
      (state event : String) (handlers : Fields rt) (ts : Values rt)
      → handler_errors states state handlers ≡ ok []
      → transitions_of (Dict.get_or event Value.none handlers) ≡ ok ts
      → AllOk ts
  handlers-AllOk state event handlers ts h found = go (Dict.get event handlers) refl found
    where
      go :
          (o : Option (Value rt))
          → Dict.get event handlers ≡ o
          → transitions_of (elim o [ none ↦ Value.none | some w ↦ w ]) ≡ ok ts
          → AllOk ts
      go none e k = transitions_of-AllOk Value.none ts k tt
      go (some v) e k =
          transitions_of-AllOk v ts k (handler_errors-found state event v handlers h e)

  -- The value under `on`, in the validation and in the engine.
  on-AllOk :
      (state event : String) (on : Value rt) (ts : Values rt)
      → ◌≡◌ {A = Result rt (List (TargetError rt))}
          (elim on [ dict handlers ↦ handler_errors states state handlers | _ ↦ ok [] ])
          (ok [])
      → (get_field (if truthy on then on else dict end) event Value.none >>= transitions_of) ≡ ok ts
      → AllOk ts
  unfolding get_field handler_errors truthy Dict.get
  on-AllOk state event (dict end) ts h found = handlers-AllOk state event end ts h found
  on-AllOk state event (dict (field k v d)) ts h found =
      handlers-AllOk state event (field k v d) ts h found
  on-AllOk state event v ts h found = go (truthy v) found
    where
      go :
          (b : Bool)
          → (get_field (if b then v else dict end) event Value.none >>= transitions_of) ≡ ok ts
          → AllOk ts
      go true k = cc
      go false k = handlers-AllOk state event end ts refl k

  pub state_errors-candidates :
      (state event : String) (definition : Value rt) (ts : Values rt)
      → state_errors states state definition ≡ ok []
      → (handlers_of definition >>= λ handlers.
          get_field handlers event Value.none >>= transitions_of)
        ≡ ok ts
      → AllOk ts
  unfolding state_errors handlers_of get_field
  state_errors-candidates state event (dict d) ts h found =
      on-AllOk state event (Dict.get_or "on" (dict end) d) ts h found
  state_errors-candidates state event _ ts h found = cc
